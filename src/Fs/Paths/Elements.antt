-- ===== src/Fs/Paths/Elements.antt =====
-- kernel/fs.c: the elements of a path against the parts between its slashes.
use os_prioritypipes.Prelude.{
  ℕ, zero, suc, ◌≤◌, ◌<◌, ◌≡◌, refl, sym, ap, ◌∙◌, ◌⊎◌, inl, inr, true, false, List, [], ◌∷◌, map,
  length, take, ◌==◌, if◌then◌else◌, Bool-cases, arith,
}
use os_prioritypipes.Fs.Paths.{slash, dirsiz, skip_slashes, element, names}

-- The parts of a path: what stands before, between and after its slashes.
abbrev add_first : ℕ → List (List ℕ) → List (List ℕ)
add_first c [] = (c ∷ []) ∷ []
add_first c (p ∷ ps) = (c ∷ p) ∷ ps

unfoldable pub parts : List ℕ → List (List ℕ)
parts [] = [] ∷ []
parts (c ∷ path) = if c == slash then [] ∷ parts path else add_first c (parts path)

-- The parts that are not empty.
abbrev pub nonempty : List (List ℕ) → List (List ℕ)
nonempty [] = []
nonempty ([] ∷ ps) = nonempty ps
nonempty ((c ∷ p) ∷ ps) = (c ∷ p) ∷ nonempty ps

abbrev after : List ℕ → List (List ℕ)
after [] = []
after (c ∷ path) = parts path

parts_nil : parts [] ≡ [] ∷ []
unfolding parts
parts_nil = refl

pub element_nil : element [] ≡ ([], [])
unfolding element
element_nil = refl

pub skip_nil : skip_slashes [] ≡ []
unfolding skip_slashes
skip_nil = refl

module _ (c : ℕ) (path : List ℕ) where
  parts-slash : (c == slash) ≡ true → parts (c ∷ path) ≡ [] ∷ parts path
  unfolding parts
  parts-slash here = rw here refl

  parts_cons : (c == slash) ≡ false → parts (c ∷ path) ≡ add_first c (parts path)
  unfolding parts
  parts_cons other = rw other refl

  pub element-slash : (c == slash) ≡ true → element (c ∷ path) ≡ ([], c ∷ path)
  unfolding element
  element-slash here = rw here refl

  pub element_cons :
      (c == slash) ≡ false → element (c ∷ path) ≡ (c ∷ (element path).0, (element path).1)
  unfolding element
  element_cons other = rw other refl

  pub skip-slash : (c == slash) ≡ true → skip_slashes (c ∷ path) ≡ skip_slashes path
  unfolding skip_slashes
  skip-slash here = rw here refl

  pub skip_none : (c == slash) ≡ false → skip_slashes (c ∷ path) ≡ c ∷ path
  unfolding skip_slashes
  skip_none other = rw other refl

-- An element ends where the path does, or at a slash.
parts-element :
    (path : List ℕ)
    → (parts path ≡ (element path).0 ∷ after (element path).1)
      × (nonempty (after (element path).1) ≡ nonempty (parts (element path).1))
      × (length (element path).1 ≤ length path)
parts-element [] = rw (element_nil, parts_nil) (refl, refl, omega arith)
parts-element (c ∷ path) = elim (Bool-cases (c == slash)) [
  | inl here ↦ rw (element-slash c path here, parts-slash c path here) (refl, refl, omega arith)
  | inr other ↦
      let (split, same, shorter) = parts-element path in
      rw (element_cons c path other, parts_cons c path other)
        (ap (add_first c) split, same, omega (arith, shorter))
]

-- After the slashes the path is at its end, or at a character that is none.
pub nonempty-skip_slashes :
    (path : List ℕ)
    → (nonempty (parts (skip_slashes path)) ≡ nonempty (parts path))
      × (length (skip_slashes path) ≤ length path)
      × ((skip_slashes path ≡ [])
          ⊎ ((c : ℕ) × (rest : List ℕ) × (skip_slashes path ≡ c ∷ rest) × ((c == slash) ≡ false)))
nonempty-skip_slashes [] = rw skip_nil (refl, omega arith, inl refl)
nonempty-skip_slashes (c ∷ path) = elim (Bool-cases (c == slash)) [
  | inl here ↦
      let (same, shorter, ends) = nonempty-skip_slashes path in
      rw (skip-slash c path here, parts-slash c path here) (same, omega (arith, shorter), ends)
  | inr other ↦ rw (skip_none c path other) (refl, omega arith, inr (c, path, refl, other))
]

-- A path that starts with no slash is its first element and then a path.
pub first_part :
    (c : ℕ) (path : List ℕ)
    → (c == slash) ≡ false
    → (nonempty (parts (c ∷ path))
        ≡ (element (c ∷ path)).0 ∷ nonempty (parts (skip_slashes (element (c ∷ path)).1)))
      × (length (skip_slashes (element (c ∷ path)).1) ≤ length path)
first_part c path other =
    let (split, same, shorter) = parts-element path in
    let skipped = nonempty-skip_slashes (element path).1 in
    let whole = parts_cons c path other in
    rw (element_cons c path other) (
      ap nonempty (whole ∙ ap (add_first c) split)
          ∙ ap (λ ps. (c ∷ (element path).0) ∷ ps) (same ∙ sym skipped.0),
      omega (arith, skipped.1, shorter),
    )

-- The loop of `namex` sees the parts of the path that are not empty, each cut after 14 characters, in
-- their order, and it sees them all in fewer rounds than the path has characters, and one.
pub names-parts :
    (rounds : ℕ) (path : List ℕ)
    → length path < rounds
    → names rounds path ≡ map (take dirsiz) (nonempty (parts path))
unfolding names parts
names-parts zero path lt = absurd (omega (arith, lt))
names-parts (suc rounds) path lt =
    let (same, shorter, ends) = nonempty-skip_slashes path in
    elim ends [
      | inl end ↦
          rw (end) (
            ap (λ p. map (take dirsiz) (nonempty (parts p))) (sym end)
            ∙ ap (map (take dirsiz)) same)
      | inr (c, rest, e, other) ↦
          let (first, less) = first_part c rest other in
          let whole = ap (λ p. nonempty (parts p)) (sym e) ∙ same in
          rw (e) (
            ap (λ ns. take dirsiz (element (c ∷ rest)).0 ∷ ns)
              (names-parts rounds (skip_slashes (element (c ∷ rest)).1)
                (omega (arith, less, lt, shorter, ap length e)))
            ∙ ap (map (take dirsiz)) (sym first ∙ whole))
    ]
