-- ===== src/Proc/Killing.antt =====
-- kernel/proc.c: `kill`.
use os_prioritypipes.Prelude.{
  ℕ, ◌+◌, ◌<◌, ◌≡◌, ◌≢◌, refl, inl, inr, Bool, true, false, ◌==◌, if◌then◌else◌, arith,
}
use os_prioritypipes.Prelude.Maps.{update}
use os_prioritypipes.Proc.{
  used, runnable, is_unused, is_sleeping, Table, System, allocproc, fork, kill,
}
use os_prioritypipes.Proc.Inv.{InTable, Inv}
use os_prioritypipes.Proc.Search.{whole_table}

-- The outcomes of `kill` of the process identifier `n`: nothing has it, or the one process `p` that
-- does is marked, and woken up if it sleeps.
pub data Killed (n : ℕ) (t : Table) : Bool × Table → Type 0 where
  no_such : ((q : ℕ) → InTable q → (t q).pid ≢ n) → Killed n t (false, t)
  marked :
      {t' : Table} (p : ℕ)
      → InTable p
      → (t p).pid ≡ n
      → ((q : ℕ) → InTable q → (t q).pid ≡ n → q ≡ p)
      → (t' p).killed ≡ true
      → is_sleeping (t' p).state ≡ false
      → ((q : ℕ) → q ≢ p → t' q ≡ t q)
      → Killed n t (true, t')

-- `kill` of the identifier of a process marks that process alone, and wakes it up if it sleeps; for
-- an identifier that no process has, it returns -1 and changes nothing.
pub kill-Killed : (s : System) (n : ℕ) → n ≢ 0 → Inv s → Killed n s.table (kill n s.table)
unfolding kill
kill-Killed s n nz h = elim (whole_table (λ p. (s.table p).pid == n)) [
  | inl (e, absent) ↦ rw (kill, e) (no_such (λ q j same. ground (arith, absent q)))
  | inr (p, e, i, some, hit, before) ↦
      let has_n : (s.table p).pid ≡ n = ground (arith, hit) in
      rw (kill, e, some)
        (marked p i has_n (λ q j same. ground (arith, h.distinct p q, h.free_pid p)) (ground arith)
          (ground arith) (λ q ne. rw (differs q p ne) refl))
]
  where
    differs : (q p : ℕ) → q ≢ p → (q == p) ≡ false
    differs q p ne = ground (arith, ne)

-- `fork` takes the first free process of the table.
fork_first :
    (s : System) (p : ℕ)
    → InTable p
    → is_unused (s.table p).state ≡ true
    → ((q : ℕ) → InTable q → q < p → is_unused (s.table q).state ≡ false)
    → fork true true s ≡ (
      p,
      record s {
        nextpid = s.nextpid + 1;
        table = update s.table p (record (s.table p) { pid = s.nextpid; state = used });
      },
    )
unfolding fork allocproc
fork_first s p i un before = elim (whole_table (λ q. is_unused (s.table q).state)) [
  | inl (e, full) ↦ absurd (ground (arith, full p, un))
  | inr (f, e, j, some, hit, before') ↦
      let same : f ≡ p = ground (arith, before f j, before' p i) in
      rw (fork, allocproc, e, some, some, same) refl
]

-- If the process table has a free place, `kill` of the identifier 0 returns 0, as if there were such
-- a process, and the next process that `fork` makes, if its memory is allocated, is born killed.
pub kill_zero :
    (s : System) (p : ℕ)
    → InTable p
    → is_unused (s.table p).state ≡ true
    → Inv s
    → let t = (kill 0 s.table).1 in
      let forked = fork true true (record s { table = t }) in
      ((kill 0 s.table).0 ≡ true) × InTable forked.0 × ((forked.1.table forked.0).killed ≡ true)
unfolding kill fork allocproc
kill_zero s p i un h = elim (whole_table (λ q. (s.table q).pid == 0)) [
  | inl (e, absent) ↦ absurd (ground (arith, absent p, h.free_pid p))
  | inr (k, e, j, some, hit, before) ↦
      let free_k : is_unused (s.table k).state ≡ true = ground (arith, h.live_pid k) in
      let kept = s.table k in
      let t = update s.table k (record kept {
        killed = true;
        state = if is_sleeping kept.state then runnable else kept.state;
      }) in
      let first =
        fork_first (record s { table = t }) k j (ground (arith, free_k))
          (λ q i' lt. ground (arith, before q, h.free_pid q)) in
      rw (kill, e, some, first) (refl, j, ground arith)
]
