-- ===== src/Proc/Boot.antt =====
-- kernel/proc.c: `procinit` and `userinit`.
use os_prioritypipes.Prelude.{ℕ, ◌≤◌, ◌<◌, ◌≡◌, refl, inl, inr, true, false, arith}
use os_prioritypipes.Prelude.Int.{pos}
use os_prioritypipes.Prelude.Loops.{rounds_keep}
use os_prioritypipes.Proc.{nproc, unused, is_unused, Table, System, allocproc, procinit, userinit}
use os_prioritypipes.Proc.Inv.{InTable, Inv}
use os_prioritypipes.Proc.Search.{whole_table}
use os_prioritypipes.Proc.Steps.{Steps, Steps-Inv}

-- A table that holds zeros, and the system before `userinit`.
abbrev pub blank : Table
blank p = record {
  state = unused;
  chan = 0;
  killed = false;
  xstate = pos 0;
  pid = 0;
  cpu_mask = pos 0;
  parent = 0;
}

abbrev pub boot : System
boot = record { table = procinit blank; nextpid = 1; initproc = 0; cpu = λ c. 0 }

-- Nothing is in the table.
record IsEmpty (t : Table) : Type 0 where
  free : (p : ℕ) → InTable p → is_unused (t p).state ≡ true
  no_pid : (p : ℕ) → (t p).pid ≡ 0
  no_parent : (p : ℕ) → (t p).parent ≡ 0

procinit-IsEmpty : IsEmpty (procinit blank)
unfolding procinit
procinit-IsEmpty = record {
  free = λ p i. freed p i.0 (omega (arith, i.1));
  no_pid =
      rounds_keep _ (λ k t. (p : ℕ) → (t p).pid ≡ 0) (λ k t h p. ground (arith, h p)) nproc 1 65
        blank (λ p. refl) refl;
  no_parent =
      rounds_keep _ (λ k t. (p : ℕ) → (t p).parent ≡ 0) (λ k t h p. ground (arith, h p)) nproc 1 65
        blank (λ p. refl) refl;
}
  where
    freed : (p : ℕ) → 1 ≤ p → p < 65 → is_unused (procinit blank p).state ≡ true
    freed =
        rounds_keep _ (λ k t. (p : ℕ) → 1 ≤ p → p < k → is_unused (t p).state ≡ true)
          (λ k t h p lo hi. ground (arith, h p)) nproc 1 65 blank (λ p lo hi. absurd (omega arith))
          refl

userinit-Inv :
    (s : System) → IsEmpty s.table → 0 < s.nextpid → ((c : ℕ) → s.cpu c ≡ 0) → Inv (userinit s)
unfolding userinit allocproc
userinit-Inv s empty begun idle = elim (whole_table (λ p. is_unused (s.table p).state)) [
  | inl (e, full) ↦ absurd (ground (arith, full 1, empty.free 1))
  | inr (p, e, i, nz, free, before) ↦
      rw (userinit, allocproc, e, nz)
        record {
          init_live = (i, ground arith, ground arith);
          free_pid = λ q j u. ground (arith, empty.no_pid q);
          live_pid = λ q j u. ground (arith, empty.free q, begun);
          distinct = λ q q' j j' ne u. ground (arith, empty.free q, empty.no_pid q', begun);
          parents = λ q q' j par nz'. ground (arith, empty.no_parent q);
          has_parent = λ q j u v ni. ground (arith, empty.free q);
          awaited = λ q q' j par nz' z sl. ground (arith, empty.no_parent q);
          on_cpu = λ c on. ground (arith, idle c);
          one_cpu = λ c d on same. ground (arith, idle c);
        }
]

-- After `userinit`, whatever the processes, schedulers and interrupts do in whatever order, the
-- table stays in order: identifiers differ, parents are alive, no parent sleeps in `wait` over a
-- zombie child, and no two CPUs run the same process.
pub boot-Inv : {t : System} → Steps (userinit boot) t → Inv t
boot-Inv run = Steps-Inv run (userinit-Inv boot procinit-IsEmpty (omega arith) (λ c. refl))
