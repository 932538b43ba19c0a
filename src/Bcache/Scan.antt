-- ===== src/Bcache/Scan.antt =====
-- kernel/bio.c: the two loops of `bget`, forward and backward over the list of buffers.
use os_prioritypipes.Prelude.{
  ℕ, zero, suc, ◌<◌, ◌≡◌, refl, sym, ap, inl, inr, Bool, true, false, List, [], ◌∷◌, ◌++◌,
  append_assoc, append-nil, length, length-append, arith, if◌then◌else◌, Bool-cases,
}
use os_prioritypipes.Prelude.Sets.{◌∉◌, has, has-append}
use os_prioritypipes.Bcache.{scan}
use os_prioritypipes.Bcache.Ring.{Segment}

abbrev pub reverse : List ℕ → List ℕ
reverse [] = []
reverse (x ∷ xs) = reverse xs ++ x ∷ []

-- the first buffer of the list that passes the test, or 0
abbrev pub first : (ℕ → Bool) → List ℕ → ℕ
first test [] = 0
first test (x ∷ xs) = if test x then x else first test xs

-- The loop over the list finds its first buffer that passes the test.
pub scan-first :
    (step back : ℕ → ℕ) (test : ℕ → Bool) (k p : ℕ) (xs : List ℕ)
    → Segment step back p xs 0
    → 0 ∉ xs
    → length xs < k
    → scan step test k (step p) ≡ first test xs
unfolding scan
scan-first step back test zero p xs s z lt = absurd (omega arith)
scan-first step back test (suc k) p [] s z lt = rw s.0 refl
scan-first step back test (suc k) p (x ∷ xs) s z lt =
    rw (s.0, scan-first step back test k x xs s.2 (ground arith) (omega arith)) (ground arith)

Segment-snoc :
    (step back : ℕ → ℕ) (p : ℕ) (xs : List ℕ) (x q : ℕ)
    → Segment step back p xs x
    → step x ≡ q
    → back q ≡ x
    → Segment step back p (xs ++ x ∷ []) q
Segment-snoc step back p [] x q s e f = (s.0, s.1, (e, f))
Segment-snoc step back p (y ∷ xs) x q s e f = (s.0, s.1, Segment-snoc step back y xs x q s.2 e f)

-- Backward, the links lead through the reverse of the list.
pub Segment-reverse :
    (step back : ℕ → ℕ) (p : ℕ) (xs : List ℕ) (q : ℕ)
    → Segment step back p xs q
    → Segment back step q (reverse xs) p
Segment-reverse step back p [] q s = (s.1, s.0)
Segment-reverse step back p (x ∷ xs) q s =
    Segment-snoc back step q (reverse xs) x p (Segment-reverse step back x xs q s.2) s.1 s.0

pub length-reverse : (xs : List ℕ) → length (reverse xs) ≡ length xs
length-reverse [] = refl
length-reverse (x ∷ xs) = omega (arith, length-append (reverse xs) (x ∷ []), length-reverse xs)

pub has-reverse : (a : ℕ) (xs : List ℕ) → has a (reverse xs) ≡ has a xs
has-reverse a [] = refl
has-reverse a (x ∷ xs) = ground (arith, has-append a (reverse xs) (x ∷ []), has-reverse a xs)

pub reverse-append : (xs ys : List ℕ) → reverse (xs ++ ys) ≡ reverse ys ++ reverse xs
reverse-append [] ys = sym (append-nil (reverse ys))
reverse-append (x ∷ xs) ys =
    rw (reverse-append xs ys) (append_assoc (reverse ys) (reverse xs) (x ∷ []))

pub reverse-reverse : (xs : List ℕ) → reverse (reverse xs) ≡ xs
reverse-reverse [] = refl
reverse-reverse (x ∷ xs) = rw (reverse-append (reverse xs) (x ∷ []), reverse-reverse xs)

-- A search fails on every buffer, or finds one behind others that fail.
pub data Found (test : ℕ → Bool) (xs : List ℕ) : ℕ → Type 0 where
  nowhere : ((a : ℕ) → has a xs ≡ true → test a ≡ false) → Found test xs 0
  at :
      (before : List ℕ) (b : ℕ) (after : List ℕ)
      → xs ≡ before ++ b ∷ after
      → test b ≡ true
      → ((a : ℕ) → has a before ≡ true → test a ≡ false)
      → Found test xs b

pub first-Found : (test : ℕ → Bool) (xs : List ℕ) → Found test xs (first test xs)
first-Found test [] = nowhere (λ a h. absurd (ground arith))
first-Found test (x ∷ xs) = elim (Bool-cases (test x)) [
  | inl hit ↦ rw hit (at [] x xs refl hit (λ a h. absurd (ground arith)))
  | inr miss ↦ rw miss (later miss (first-Found test xs))
]
  where
    later : test x ≡ false → {b : ℕ} → Found test xs b → Found test (x ∷ xs) b
    later miss (nowhere none) = nowhere (λ a h. ground (arith, none a))
    later miss (at before b after e hit none) =
        at (x ∷ before) b after (ap (λ l. x ∷ l) e) hit (λ a h. ground (arith, none a))
