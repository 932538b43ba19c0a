-- ===== src/Proc/Search.antt =====
-- kernel/proc.c: the loops over the table that stop at a process.
use os_prioritypipes.Prelude.{
  ℕ, zero, suc, ◌+◌, ◌≤◌, ◌<◌, ◌≡◌, refl, ◌⊎◌, inl, inr, Bool, true, false, ◌==◌, Bool-cases, arith,
}
use os_prioritypipes.Proc.{nproc, find_proc}
use os_prioritypipes.Proc.Inv.{InTable}

-- A search from `p` on finds the first process that passes, or none does.
pub data Search (test : ℕ → Bool) (p last : ℕ) : ℕ → Type 0 where
  absent : ((q : ℕ) → p ≤ q → q < last → test q ≡ false) → Search test p last 0
  present :
      {f : ℕ}
      → p ≤ f
      → f < last
      → test f ≡ true
      → ((q : ℕ) → p ≤ q → q < f → test q ≡ false)
      → Search test p last f

pub find_proc-Search :
    (test : ℕ → Bool) (k p last : ℕ) → last ≡ p + k → Search test p last (find_proc test k p)
unfolding find_proc
find_proc-Search test zero p last e = absent (λ q lo hi. absurd (omega arith))
find_proc-Search test (suc k) p last e = elim (Bool-cases (test p)) [
  | inl here ↦ rw here (present (omega arith) (omega arith) here (λ q lo hi. absurd (omega arith)))
  | inr not_here ↦ rw not_here (later not_here (find_proc-Search test k (p + 1) last (omega arith)))
]
  where
    later : test p ≡ false → {f : ℕ} → Search test (p + 1) last f → Search test p last f
    later missed (absent none_of) = absent (λ q lo hi. ground (arith, none_of q))
    later missed (present lo hi hit before) =
        present (omega arith) hi hit (λ q lo' hi'. ground (arith, before q))

-- over the whole table, for `rw` with the result
pub whole_table :
    (test : ℕ → Bool)
    → ((find_proc test nproc 1 ≡ 0) × ((q : ℕ) → InTable q → test q ≡ false))
      ⊎ ((f : ℕ) × (find_proc test nproc 1 ≡ f)
          × InTable f
          × ((f == 0) ≡ false)
          × (test f ≡ true)
          × ((q : ℕ) → InTable q → q < f → test q ≡ false))
whole_table test = go (find_proc-Search test nproc 1 65 refl)
  where
    go :
        {g : ℕ}
        → Search test 1 65 g
        → ((g ≡ 0) × ((q : ℕ) → InTable q → test q ≡ false))
          ⊎ ((f : ℕ) × (g ≡ f)
              × InTable f
              × ((f == 0) ≡ false)
              × (test f ≡ true)
              × ((q : ℕ) → InTable q → q < f → test q ≡ false))
    go (absent none_of) = inl (refl, λ q i. none_of q i.0 (omega (arith, i.1)))
    go (present {f} lo hi hit before) =
        inr (f, refl, (lo, omega (arith, hi)), ground (arith, lo), hit, λ q i lt. before q i.0 lt)
