-- ===== src/Prelude/Results.antt =====
-- A computation that may panic: the kernel stops, or goes on with a value and a new state.
use mathlib.Core.Path.{◌≡◌, refl}
use mathlib.Core.Bool.{Bool, true, false}

pub data Result {ℓ} (A : Type ℓ) : Type ℓ where
  ok : A → Result A
  panic : Result A

-- `abbrev`, so that a chain computes as far as its first unknown result.
infixl 5 ◌>>=◌
abbrev pub ◌>>=◌ {ℓ κ} : {A : Type ℓ} {B : Type κ} → Result A → (A → Result B) → Result B
panic >>= next = panic
ok value >>= next = next value

infixl 5 ◌>>◌
abbrev pub ◌>>◌ {κ} : {B : Type κ} → Result (Unit {0}) → Result B → Result B
check >> rest = check >>= λ done. rest

-- `if (bad) panic(...)`
abbrev pub panic_if : Bool → Result (Unit {0})
panic_if bad = elim bad [ false ↦ ok tt | true ↦ panic ]

-- Total correctness: the computation does not panic, and its value has the property.
pub data Returns {ℓ κ} {A : Type ℓ} (P : A → Type κ) : Result A → Type (ℓ ⊔ κ) where
  returns : {a : A} → P a → Returns P (ok a)

module _ {ℓ κ} {A : Type ℓ} {P : A → Type κ} where
  pub bind {μ ν} :
      {B : Type μ} {Q : B → Type ν} {r : Result A} {f : A → Result B}
      → Returns P r
      → ((a : A) → P a → Returns Q (f a))
      → Returns Q (r >>= f)
  bind (returns p) next = next _ p

  pub mono {μ} : {Q : A → Type μ} {r : Result A} → Returns P r → ((a : A) → P a → Q a) → Returns Q r
  mono (returns p) weaken = returns (weaken _ p)

  -- what a returning computation returns
  pub Returns-ok : {r : Result A} → Returns P r → (a : A) × (r ≡ ok a) × P a
  Returns-ok (returns p) = (_, refl, p)

  pub both {ν} :
      {Q : A → Type ν} {r : Result A} → Returns P r → Returns Q r → Returns (λ a. P a × Q a) r
  both (returns p) (returns q) = returns (p, q)
