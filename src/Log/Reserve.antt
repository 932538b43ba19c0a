-- ===== src/Log/Reserve.antt =====
-- kernel/log.c: the log space that `begin_op` reserves, and what `log_write` makes of it.
use os_prioritypipes.Prelude.{
  ℕ, zero, suc, ◌+◌, ◌*◌, ◌≤◌, ◌<◌, ◌≡◌, ◌≢◌, refl, false, inl, inr, ◌⊎◌, some, List, [], ◌∷◌,
  arith, ltb, ◌==◌, Bool-cases, length, All, get_elem?, set,
}
use os_prioritypipes.Log.{max_op_blocks, log_size, Log, sleeps, begins, begin_op, find_block}

-- what is left to each operation in progress of the blocks that it may write
abbrev pub total : List ℕ → ℕ
total [] = 0
total (b ∷ bs) = b + total bs

-- the list without its element `i`
abbrev pub delete : List ℕ → ℕ → List ℕ
delete [] i = []
delete (b ∷ bs) zero = bs
delete (b ∷ bs) (suc i) = b ∷ delete bs i

-- The log has room for all that the operations in progress may still write, and logs no block
-- twice.
pub record Reserved (log : Log) (left : List ℕ) : Type 0 where
  pub count : log.outstanding ≡ length left
  pub each : All (λ b. b ≤ max_op_blocks) left
  pub room : log.n + total left ≤ log_size
  pub idle : log.committing ≡ false
  pub distinct : (i j : ℕ) → i < j → j < log.n → log.block i ≢ log.block j

total-le :
    (left : List ℕ) → All (λ b. b ≤ max_op_blocks) left → total left ≤ length left * max_op_blocks
total-le [] h = omega arith
total-le (b ∷ bs) h = omega (arith, total-le bs h.1)

pub total-set :
    (left : List ℕ) (i m : ℕ)
    → get_elem? left i ≡ some (suc m)
    → suc (total (set left i m)) ≡ total left
total-set [] i m e = cc
total-set (b ∷ bs) zero m e = ground arith
total-set (b ∷ bs) (suc i) m e = omega (arith, total-set bs i m e)

pub length-set_lem : (left : List ℕ) (i m : ℕ) → length (set left i m) ≡ length left
length-set_lem [] i m = refl
length-set_lem (b ∷ bs) zero m = refl
length-set_lem (b ∷ bs) (suc i) m = omega (arith, length-set_lem bs i m)

pub each-set :
    (left : List ℕ) (i m : ℕ)
    → get_elem? left i ≡ some (suc m)
    → All (λ b. b ≤ max_op_blocks) left
    → All (λ b. b ≤ max_op_blocks) (set left i m)
each-set [] i m e h = tt
each-set (b ∷ bs) zero m e h = ground arith
each-set (b ∷ bs) (suc i) m e h = (h.0, each-set bs i m e h.1)

pub total-delete :
    (left : List ℕ) (i m : ℕ) → get_elem? left i ≡ some m → total (delete left i) + m ≡ total left
total-delete [] i m e = cc
total-delete (b ∷ bs) zero m e = ground arith
total-delete (b ∷ bs) (suc i) m e = omega (arith, total-delete bs i m e)

pub length-delete :
    (left : List ℕ) (i m : ℕ)
    → get_elem? left i ≡ some m
    → suc (length (delete left i)) ≡ length left
length-delete [] i m e = cc
length-delete (b ∷ bs) zero m e = refl
length-delete (b ∷ bs) (suc i) m e = omega (arith, length-delete bs i m e)

pub each-delete :
    (left : List ℕ) (i : ℕ)
    → All (λ b. b ≤ max_op_blocks) left
    → All (λ b. b ≤ max_op_blocks) (delete left i)
each-delete [] i h = tt
each-delete (b ∷ bs) zero h = h.1
each-delete (b ∷ bs) (suc i) h = (h.0, each-delete bs i h.1)

-- An operation begins exactly when nobody commits and the log has room for MAXOPBLOCKS blocks for
-- each operation in progress and for this one; then it has that many blocks left.
pub begin_op-Reserved :
    (log : Log) (left : List ℕ)
    → Reserved log left
    → ((log_size < log.n + (log.outstanding + 1) * max_op_blocks) × (begin_op log ≡ sleeps))
      ⊎ ((log' : Log) × (begin_op log ≡ begins log') × Reserved log' (max_op_blocks ∷ left))
unfolding begin_op
begin_op-Reserved log left r =
    elim (Bool-cases (ltb log_size (log.n + (log.outstanding + 1) * max_op_blocks))) [
      | inl full ↦ inl (ground arith, rw (r.idle, full))
      | inr room ↦ inr (
        record log { outstanding = log.outstanding + 1 },
        rw (r.idle, room),
        record {
          count = omega (arith, r.count);
          each = (omega arith, r.each);
          room = ground (arith, total-le left r.each, r.count);
          idle = r.idle;
          distinct = r.distinct;
        },
      )
    ]

-- `find_block` ends at the block's first place, or at the end.
pub find_block_lem :
    (k i b : ℕ) (block : ℕ → ℕ)
    → (find_block k block b i ≤ i + k)
      × (find_block k block b i < i + k → block (find_block k block b i) ≡ b)
      × ((j : ℕ) → i ≤ j → j < find_block k block b i → block j ≢ b)
unfolding find_block
find_block_lem zero i b block =
    (omega arith, λ lt. absurd (omega arith), λ j lo hi. absurd (omega arith))
find_block_lem (suc k) i b block = elim (Bool-cases (block i == b)) [
  | inl hit ↦ rw hit (omega arith, λ lt. ground arith, λ j lo hi. absurd (omega arith))
  | inr miss ↦
      let (le, at, before) = find_block_lem k (i + 1) b block in
      rw miss (
        omega arith,
        λ lt. at (omega arith),
        λ j lo hi. elim (Bool-cases (i == j)) [
          | inl same ↦ ground arith
          | inr other ↦ before j (ground arith) hi
        ],
      )
]
