-- ===== src/Prelude/Sets.antt =====
-- Membership of a number in a list as a Boolean, and lists without repetition.
use Prim.Native.Nat.{ℕ}
use mathlib.Core.Path.{◌≡◌, refl}
use mathlib.Core.Bool.{Bool, true, false, ◌||◌, or_assoc}
use mathlib.Core.Logic.{◌≢◌}
use mathlib.Core.List.{List, [], ◌∷◌, ◌++◌}
use native.Mathlib.Omega.{arith}
use os_prioritypipes.Prelude.Tests.{◌==◌}

abbrev pub has : ℕ → List ℕ → Bool
has a [] = false
has a (x ∷ xs) = (a == x) || has a xs

infix 40 ◌∈◌ ◌∉◌
abbrev pub ◌∈◌ : ℕ → List ℕ → Type 0
a ∈ xs = has a xs ≡ true

abbrev pub ◌∉◌ : ℕ → List ℕ → Type 0
a ∉ xs = has a xs ≡ false

abbrev pub Distinct : List ℕ → Type 0
Distinct [] = Unit {0}
Distinct (x ∷ xs) = (x ∉ xs) × Distinct xs

pub has-append : (a : ℕ) (xs ys : List ℕ) → has a (xs ++ ys) ≡ (has a xs || has a ys)
has-append a [] ys = refl
has-append a (x ∷ xs) ys = rw (has-append a xs ys, or_assoc)

-- `xs` without its first `a`.
abbrev pub remove : ℕ → List ℕ → List ℕ
remove a [] = []
remove a (x ∷ xs) = elim (a == x) [ true ↦ xs | false ↦ x ∷ remove a xs ]

pub not-mem-remove : (b a : ℕ) (xs : List ℕ) → b ∉ xs → b ∉ remove a xs
not-mem-remove b a [] h = refl
not-mem-remove b a (x ∷ xs) h = ground (arith, not-mem-remove b a xs)

pub not-mem-remove_self : (a : ℕ) (xs : List ℕ) → Distinct xs → a ∉ remove a xs
not-mem-remove_self a [] d = refl
not-mem-remove_self a (x ∷ xs) d = ground (arith, not-mem-remove_self a xs d.1)

pub remove-Distinct : (a : ℕ) (xs : List ℕ) → Distinct xs → Distinct (remove a xs)
remove-Distinct a [] d = tt
remove-Distinct a (x ∷ xs) d = ground (arith, remove-Distinct a xs d.1, not-mem-remove x a xs)

pub ne_of_not-mem : (a b : ℕ) (xs : List ℕ) → a ∈ xs → b ∉ xs → b ≢ a
ne_of_not-mem a b [] h k = cc
ne_of_not-mem a b (x ∷ xs) h k = ground (arith, ne_of_not-mem a b xs)
