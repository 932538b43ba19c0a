-- ===== src/Prelude/Maps.antt =====
-- Functions from numbers as memories, and the effect of a sequence of writes on one.
use Prim.Native.Nat.{ℕ, zero, suc}
use mathlib.Core.Path.{◌≡◌, refl, ◌∙◌}
use mathlib.Core.Logic.{◌⊎◌, inl, inr}
use mathlib.Core.Bool.{Bool, true, false}
use mathlib.Core.List.{List, [], ◌∷◌, ◌++◌}
use native.Mathlib.Omega.{arith}
use os_prioritypipes.Prelude.Tests.{◌==◌, if◌then◌else◌}
use os_prioritypipes.Prelude.Lists.{take, All}
use os_prioritypipes.Prelude.Sets.{has}

module _ {ℓ} {A : Type ℓ} where
  abbrev pub update : (ℕ → A) → ℕ → A → ℕ → A
  update f k v q = if q == k then v else f q

  -- the writes in order, oldest first
  abbrev pub apply : List (ℕ × A) → (ℕ → A) → ℕ → A
  apply [] d = d
  apply ((b, x) ∷ ws) d = apply ws (update d b x)

  abbrev pub keys : List (ℕ × A) → List ℕ
  keys [] = []
  keys ((b, x) ∷ ws) = b ∷ keys ws

  pub apply-append : (vs ws : List (ℕ × A)) (d : ℕ → A) → apply (vs ++ ws) d ≡ apply ws (apply vs d)
  apply-append [] ws d = refl
  apply-append ((b, x) ∷ vs) ws d = apply-append vs ws (update d b x)

  -- A place that no write goes to keeps its value.
  pub apply-not-mem :
      (ws : List (ℕ × A)) (d : ℕ → A) (b : ℕ) → has b (keys ws) ≡ false → apply ws d b ≡ d b
  apply-not-mem [] d b h = refl
  apply-not-mem ((c, x) ∷ ws) d b h = ground (arith, apply-not-mem ws (update d c x) b)

  -- Where every write to a place `b` writes `f b`, so does the sequence.
  pub apply-mem :
      (f : ℕ → A) (ws : List (ℕ × A)) (d : ℕ → A) (b : ℕ)
      → All (λ w. w.1 ≡ f w.0) ws
      → has b (keys ws) ≡ true
      → apply ws d b ≡ f b
  apply-mem f [] d b all h = cc
  apply-mem f ((c, x) ∷ ws) d b all h = elim (again (has b (keys ws))) [
    | inl more ↦ apply-mem f ws (update d c x) b all.1 more
    | inr last ↦ apply-not-mem ws (update d c x) b last ∙ ground (arith, all.0)
  ]
    where
      again : (t : Bool) → (t ≡ true) ⊎ (t ≡ false)
      again true = inl refl
      again false = inr refl

  pub has-take :
      (k b : ℕ) (ws : List (ℕ × A)) → has b (keys ws) ≡ false → has b (keys (take k ws)) ≡ false
  has-take zero b ws h = refl
  has-take (suc k) b [] h = refl
  has-take (suc k) b ((c, x) ∷ ws) h = ground (arith, has-take k b ws)
