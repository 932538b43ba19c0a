-- ===== src/Log/Commit.antt =====
-- kernel/log.c: what `commit` writes, and what it makes of the disk.
use os_prioritypipes.Prelude.{
  ℕ, zero, suc, ◌+◌, ◌-◌, ◌≤◌, ◌<◌, ◌≡◌, ◌≢◌, refl, ap, ◌∙◌, Bool, true, false, inl, inr, List, [],
  ◌∷◌, ◌++◌, arith, ◌==◌, Bool-cases, All, length,
}
use os_prioritypipes.Prelude.Maps.{apply, keys, apply-mem}
use os_prioritypipes.Prelude.Sets.{◌∈◌, ◌∉◌}
use os_prioritypipes.Log.{Block, Log, Disk, install_trans, write_log, head_words}
use os_prioritypipes.Log.Copy.{copies, Copied, loop-Copied}

-- the log block of the transaction's block `i`
abbrev pub slot : Log → ℕ → ℕ
slot log i = log.start + i + 1

-- outside the header and the log blocks
abbrev pub IsHome : Log → ℕ → Type 0
IsHome log b = (i : ℕ) → i ≤ log.n → b ≢ log.start + i

-- The transaction writes home blocks only.
abbrev pub IsApart : Log → Type 0
IsApart log = (i : ℕ) → i < log.n → IsHome log (log.block i)

module _ (log : Log) (view : ℕ → Block) where
  -- the writes of `write_log`, then of `install_trans`
  abbrev pub log_writes : List (ℕ × Block)
  log_writes = copies log.block (slot log) view log.n 0

  pub home_writes : ℕ → ℕ → List (ℕ × Block)
  home_writes zero i = []
  home_writes (suc n) i = (log.block i, view (log.block i)) ∷ home_writes n (i + 1)

-- all that `commit` writes, in order, if the header block held the words `old`
abbrev pub commit_writes : Log → (ℕ → Block) → List (ℕ × Block)
commit_writes log view =
    let head = head_words log (view log.start) in
    log_writes log view
    ++ (log.start, head)
      ∷ (home_writes log view log.n 0 ++ (log.start, head_words (record log { n = 0 }) head) ∷ [])

slots-not-mem :
    (log : Log) (view : ℕ → Block) (n i b : ℕ)
    → ((j : ℕ) → j < i + n → b ≢ slot log j)
    → b ∉ keys (copies log.block (slot log) view n i)
slots-not-mem log view zero i b h = refl
slots-not-mem log view (suc n) i b h =
    ground (arith, h i, slots-not-mem log view n (i + 1) b (λ j lt. h j (omega arith)))

-- A home block and the header are not written by `write_log`.
pub log_writes_home :
    (log : Log) (view : ℕ → Block) (b : ℕ) → IsHome log b → b ∉ keys (log_writes log view)
log_writes_home log view b h =
    slots-not-mem log view log.n 0 b (λ j lt e. h (j + 1) (omega arith) (omega arith))

pub log_writes_head : (log : Log) (view : ℕ → Block) → log.start ∉ keys (log_writes log view)
log_writes_head log view = slots-not-mem log view log.n 0 log.start (λ j lt e. omega arith)

home-not-mem :
    (log : Log) (view : ℕ → Block) (n i b : ℕ)
    → ((j : ℕ) → j < i + n → b ≢ log.block j)
    → b ∉ keys (home_writes log view n i)
unfolding home_writes
home-not-mem log view zero i b h = refl
home-not-mem log view (suc n) i b h =
    ground (arith, h i, home-not-mem log view n (i + 1) b (λ j lt. h j (omega arith)))

home_writes-All :
    (log : Log) (view : ℕ → Block) (n i : ℕ) → All (λ w. w.1 ≡ view w.0) (home_writes log view n i)
unfolding home_writes
home_writes-All log view zero i = tt
home_writes-All log view (suc n) i = (refl, home_writes-All log view n (i + 1))

pub home_writes-mem :
    (log : Log) (view : ℕ → Block) (n i j : ℕ)
    → i ≤ j
    → j < i + n
    → log.block j ∈ keys (home_writes log view n i)
unfolding home_writes
home_writes-mem log view zero i j lo hi = absurd (omega arith)
home_writes-mem log view (suc n) i j lo hi = elim (Bool-cases (i == j)) [
  | inl same ↦ ground arith
  | inr other ↦ ground (arith, home_writes-mem log view n (i + 1) j)
]

-- Installing puts the cached contents of the transaction's blocks in place, whatever was there.
pub apply-home_writes :
    (log : Log) (view base : ℕ → Block) (i : ℕ)
    → i < log.n
    → apply (home_writes log view log.n 0) base (log.block i) ≡ view (log.block i)
apply-home_writes log view base i lt =
    apply-mem view (home_writes log view log.n 0) base (log.block i)
      (home_writes-All log view log.n 0)
      (home_writes-mem log view log.n 0 i (omega arith) (omega arith))

-- It leaves every other block alone.
pub home_writes-out :
    (log : Log) (view : ℕ → Block) (b : ℕ)
    → ((i : ℕ) → i < log.n → b ≢ log.block i)
    → b ∉ keys (home_writes log view log.n 0)
home_writes-out log view b h = home-not-mem log view log.n 0 b (λ j lt. h j (omega arith))

slots-All :
    (log : Log) (view : ℕ → Block) (n i : ℕ)
    → All (λ w. w.1 ≡ view (log.block (w.0 - log.start - 1))) (copies log.block (slot log) view n i)
slots-All log view zero i = tt
slots-All log view (suc n) i =
    (ap (λ k. view (log.block k)) (omega arith), slots-All log view n (i + 1))

slots-mem :
    (log : Log) (view : ℕ → Block) (n i j : ℕ)
    → i ≤ j
    → j < i + n
    → slot log j ∈ keys (copies log.block (slot log) view n i)
slots-mem log view zero i j lo hi = absurd (omega arith)
slots-mem log view (suc n) i j lo hi = elim (Bool-cases (i == j)) [
  | inl same ↦ ground arith
  | inr other ↦ ground (arith, slots-mem log view n (i + 1) j)
]

-- After `write_log` the log blocks hold the transaction.
pub apply-log_writes :
    (log : Log) (view base : ℕ → Block) (i : ℕ)
    → i < log.n
    → apply (log_writes log view) base (slot log i) ≡ view (log.block i)
apply-log_writes log view base i lt =
    apply-mem (λ b. view (log.block (b - log.start - 1))) (log_writes log view) base (slot log i)
      (slots-All log view log.n 0) (slots-mem log view log.n 0 i (omega arith) (omega arith))
    ∙ ap (λ k. view (log.block k)) (omega arith)

pub slots-home_writes :
    (log : Log) (view held : ℕ → Block) (n i : ℕ)
    → ((j : ℕ) → j < i + n → held (slot log j) ≡ view (log.block j))
    → copies (slot log) log.block held n i ≡ home_writes log view n i
unfolding home_writes
slots-home_writes log view held zero i h = refl
slots-home_writes log view held (suc n) i h =
    ground (arith, h i, slots-home_writes log view held n (i + 1) (λ j lt. h j (omega arith)))

module _ (log : Log) (d : Disk) (apart : IsApart log) where
  pub write_log-Copied : Copied (log_writes log d.view) d (write_log log d)
  unfolding write_log
  write_log-Copied =
      loop-Copied log.block (slot log) _ log.n 0 d (λ j e. (refl, refl, refl))
        (λ j k lo hi e. apart j (omega arith) (k + 1) (omega arith) (omega arith))

  -- The state at the loop of `install_trans` holds the transaction in its log blocks.
  pub install_trans-Copied :
      (recovering : Bool) (view : ℕ → Block)
      → ((j : ℕ) → j < log.n → d.view (slot log j) ≡ view (log.block j))
      → Copied (home_writes log view log.n 0) d (install_trans recovering log d)
  unfolding install_trans
  install_trans-Copied true view h =
      rw (← slots-home_writes log view d.view log.n 0 (λ j lt. h j (omega arith))) (
        loop-Copied (slot log) log.block _ log.n 0 d (λ j e. (refl, refl, refl))
          (λ j k lo hi e. apart k (omega arith) (j + 1) (omega arith) (omega arith)))
  install_trans-Copied false view h =
      rw (← slots-home_writes log view d.view log.n 0 (λ j lt. h j (omega arith))) (
        loop-Copied (slot log) log.block _ log.n 0 d (λ j e. (refl, refl, refl))
          (λ j k lo hi e. apart k (omega arith) (j + 1) (omega arith) (omega arith)))

pub length-log_writes :
    (log : Log) (view : ℕ → Block) (n i : ℕ) → length (copies log.block (slot log) view n i) ≡ n
length-log_writes log view zero i = refl
length-log_writes log view (suc n) i = ap suc (length-log_writes log view n (i + 1))

pub length-home_writes :
    (log : Log) (view : ℕ → Block) (n i : ℕ) → length (home_writes log view n i) ≡ n
unfolding home_writes
length-home_writes log view zero i = refl
length-home_writes log view (suc n) i = ap suc (length-home_writes log view n (i + 1))
