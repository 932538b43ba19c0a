-- ===== src/Prelude/Loops.antt =====
-- Counted loops as a function of their own, with one invariant rule.
use Prim.Native.Nat.{ℕ, zero, suc, ◌+◌}
use mathlib.Core.Path.{◌≡◌, subst}
use native.Mathlib.Omega.{arith}

module _ {ℓ} {S : Type ℓ} (body : ℕ → S → S) where
  -- `for (int k = first; rounds > 0; k++, rounds--) s = body k s`
  unfoldable pub rounds : ℕ → ℕ → S → S
  rounds zero first s = s
  rounds (suc left) first s = rounds left (first + 1) (body first s)

  -- What every round carries from `k` to `k + 1` holds at the end of the loop if it holds at its
  -- first round.
  pub rounds_keep {κ} :
      (Q : ℕ → S → Type κ)
      → ((k : ℕ) (s : S) → Q k s → Q (k + 1) (body k s))
      → (left first last : ℕ) (s : S) → Q first s
      → last ≡ first + left
      → Q last (rounds left first s)
  unfolding rounds
  rounds_keep Q carry zero first last s q e = subst (λ k. Q k s) (omega arith) q
  rounds_keep Q carry (suc left) first last s q e =
      rounds_keep Q carry left (first + 1) last (body first s) (carry first s q) (omega arith)
