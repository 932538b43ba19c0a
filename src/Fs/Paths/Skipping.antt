-- ===== src/Fs/Paths/Skipping.antt =====
-- kernel/fs.c: what a call of `skipelem` leaves of a path.
use os_prioritypipes.Prelude.{
  ℕ, zero, suc, ◌≤◌, ◌<◌, ◌≡◌, refl, ap, subst, inl, inr, Option, none, some, List, [], ◌∷◌, length,
  take, length-take, All, ◌==◌, Bool-cases, arith,
}
use os_prioritypipes.Fs.Paths.{slash, skip_slashes, element, skipelem, is_end, names}
use os_prioritypipes.Fs.Paths.Elements.{
  nonempty-skip_slashes, first_part, element_nil, element-slash, element_cons, skip_nil, skip-slash,
  skip_none,
}

abbrev pub AreChars : List ℕ → Type 0
AreChars = All (λ (c : ℕ). c < 256)

skip_slashes-AreChars : (path : List ℕ) → AreChars path → AreChars (skip_slashes path)
skip_slashes-AreChars [] h = rw skip_nil tt
skip_slashes-AreChars (c ∷ path) h = elim (Bool-cases (c == slash)) [
  | inl here ↦ rw (skip-slash c path here) (skip_slashes-AreChars path h.1)
  | inr other ↦ rw (skip_none c path other) h
]

element-AreChars :
    (path : List ℕ) → AreChars path → AreChars (element path).0 × AreChars (element path).1
element-AreChars [] h = rw element_nil (tt, tt)
element-AreChars (c ∷ path) h = elim (Bool-cases (c == slash)) [
  | inl here ↦ rw (element-slash c path here) (tt, h)
  | inr other ↦
      let (passed, rest) = element-AreChars path h.1 in
      rw (element_cons c path other) ((h.0, passed), rest)
]

take-AreChars : (n : ℕ) (cs : List ℕ) → AreChars cs → AreChars (take n cs)
take-AreChars zero cs h = tt
take-AreChars (suc n) [] h = tt
take-AreChars (suc n) (c ∷ cs) h = (h.0, take-AreChars n cs h.1)

-- The name is cut to its size, the path has become shorter, and begins with no slash.
pub data Skipped (path : List ℕ) : Option (List ℕ × List ℕ) → Type 0 where
  ended : Skipped path none
  skipped :
      (cs p : List ℕ)
      → length cs ≤ 14
      → length (skip_slashes p) < length path
      → AreChars cs
      → AreChars (skip_slashes p)
      → Skipped path (some (cs, skip_slashes p))

pub skipelem-Skipped : (path : List ℕ) → AreChars path → Skipped path (skipelem path)
skipelem-Skipped path h =
    let (same, shorter, ends) = nonempty-skip_slashes path in
    elim ends [
      | inl end ↦ rw end ended
      | inr (c, rest, e, other) ↦
          let chars = subst AreChars e (skip_slashes-AreChars path h) in
          let (passed, left) = element-AreChars (c ∷ rest) chars in
          let less = (first_part c rest other).1 in
          rw e (
            skipped (take 14 (element (c ∷ rest)).0) (element (c ∷ rest)).1
              (omega (arith, length-take 14 (element (c ∷ rest)).0))
              (omega (arith, less, shorter, ap length e))
              (take-AreChars 14 (element (c ∷ rest)).0 passed)
              (skip_slashes-AreChars (element (c ∷ rest)).1 left))
    ]

pub is_end-names :
    (rounds : ℕ) (p : List ℕ)
    → is_end (names (suc rounds) (skip_slashes p)) ≡ is_end (skip_slashes p)
unfolding names
is_end-names rounds p =
    let (same, shorter, ends) = nonempty-skip_slashes p in
    elim ends [
      | inl end ↦ rw (end, skip_nil) refl
      | inr (c, rest, e, other) ↦ rw (e, skip_none c rest other) refl
    ]
