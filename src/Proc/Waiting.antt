-- ===== src/Proc/Waiting.antt =====
-- kernel/proc.c: `sleep` and `wait`.
use os_prioritypipes.Prelude.{
  ℕ, ◌≡◌, ◌≢◌, refl, ◌⊎◌, inl, inr, Bool, true, false, ◌&&◌, ◌==◌, Bool-cases, arith,
}
use os_prioritypipes.Proc.{
  is_zombie, System, freeproc, sleep, Waited, no_child, bad_address, reaped, waits, wait,
}
use os_prioritypipes.Proc.Inv.{InTable, Inv}
use os_prioritypipes.Proc.Search.{whole_table}
use os_prioritypipes.Proc.Forking.{freeproc-Inv}

-- A running process can go to sleep, but on itself only if it has no zombie child.
pub sleep-Inv :
    (s : System) (c p chan : ℕ)
    → s.cpu c ≡ p
    → p ≢ 0
    → (chan ≡ p
        → (q : ℕ) → InTable q
        → (s.table q).parent ≡ p
        → is_zombie (s.table q).state ≡ false)
    → Inv s
    → Inv (sleep c p chan s)
unfolding sleep
sleep-Inv s c p chan on nz quiet h = record {
  init_live = ground (arith, h.init_live);
  free_pid = λ q j e. ground (arith, h.free_pid q, h.on_cpu c);
  live_pid = λ q j e. ground (arith, h.live_pid q, h.on_cpu c);
  distinct = λ q q' j j' ne e. ground (arith, h.distinct q q', h.on_cpu c);
  parents = λ q q' j e nz'. ground (arith, h.parents q q', h.on_cpu c);
  has_parent = λ q j e e' ni. ground (arith, h.has_parent q, h.on_cpu c);
  awaited = λ q q' j e nz' z sl same. elim (Bool-cases (q' == p)) [
    | inl caller ↦ let in_wait : chan ≡ p = ground arith in ground (arith, quiet in_wait q j)
    | inr other ↦ ground (arith, h.awaited q q')
  ];
  on_cpu = λ d e. ground (arith, h.on_cpu d, h.one_cpu c d);
  one_cpu = λ d d' e e'. ground (arith, h.one_cpu d d');
}

-- The ends of a pass of `wait`.
pub data Ends (s : System) (c p : ℕ) (delivers : Bool) : Waited × System → Type 0 where
  reaps :
      (d : ℕ)
      → delivers ≡ true
      → InTable d
      → (s.table d).parent ≡ p
      → is_zombie (s.table d).state ≡ true
      → Inv (record s { table = freeproc d s.table })
      → Ends s c p delivers (reaped (s.table d).pid, record s { table = freeproc d s.table })
  faults :
      (d : ℕ)
      → delivers ≡ false
      → InTable d
      → (s.table d).parent ≡ p
      → is_zombie (s.table d).state ≡ true
      → Ends s c p delivers (bad_address, s)
  gives_up :
      ((q : ℕ) → InTable q → (s.table q).parent ≡ p → is_zombie (s.table q).state ≡ false)
      → (((q : ℕ) → InTable q → (s.table q).parent ≢ p) ⊎ ((s.table p).killed ≡ true))
      → Ends s c p delivers (no_child, s)
  sleeps :
      (d : ℕ)
      → InTable d
      → (s.table d).parent ≡ p
      → ((q : ℕ) → InTable q → (s.table q).parent ≡ p → is_zombie (s.table q).state ≡ false)
      → (s.table p).killed ≡ false
      → Inv (sleep c p p s)
      → Ends s c p delivers (waits, sleep c p p s)

-- A pass of `wait` reaps a zombie child, if there is one and its status can be copied; without a
-- zombie child it returns -1 if there is no child or the caller is killed, and else sleeps. The
-- table stays in order.
pub wait-Ends :
    (s : System) (c p : ℕ) (delivers : Bool)
    → s.cpu c ≡ p
    → p ≢ 0
    → Inv s
    → Ends s c p delivers (wait c delivers p s)
unfolding wait
wait-Ends s c p delivers on nz h =
    elim (whole_table (λ q. ((s.table q).parent == p) && is_zombie (s.table q).state)) [
      | inl (e, none_dead) ↦
          let alive : (q : ℕ)
              → InTable q
              → (s.table q).parent ≡ p
              → is_zombie (s.table q).state ≡ false =
            λ q j par. ground (arith, none_dead q) in
          elim (whole_table (λ q. (s.table q).parent == p)) [
            | inl (e', childless) ↦
                rw (wait, e, e') (gives_up alive (inl (λ q j par. ground (arith, childless q))))
            | inr (d, e', i, some, par, before) ↦ elim (Bool-cases (s.table p).killed) [
              | inl dying ↦ rw (wait, e, e', some, dying) (gives_up alive (inr dying))
              | inr going ↦
                  rw (wait, e, e', some, going)
                    (sleeps d i (ground (arith, par)) alive going
                      (sleep-Inv s c p p on nz (λ same. alive) h))
            ]
          ]
      | inr (d, e, i, some, test, before) ↦
          let zombie_d : is_zombie (s.table d).state ≡ true = ground (arith, test) in
          let par : (s.table d).parent ≡ p = ground (arith, test) in
          let childless : (q : ℕ) → InTable q → (s.table q).parent ≢ d =
            λ q j child. ground (arith, h.parents q d j child, i) in
          elim (Bool-cases delivers) [
            | inl copied ↦
                rw (wait, e, some, copied)
                  (reaps d refl i par zombie_d (
                    freeproc-Inv s d i (ground (arith, h.init_live)) (ground (arith, zombie_d))
                      childless h))
            | inr lost ↦ rw (wait, e, some, lost) (faults d refl i par zombie_d)
          ]
    ]
