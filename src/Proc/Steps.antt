-- ===== src/Proc/Steps.antt =====
-- kernel/proc.c: every interleaving of the steps of the processes, of the schedulers and of the
-- interrupts on the CPUs.
use os_prioritypipes.Prelude.{
  ℕ, ◌≡◌, ◌≢◌, refl, subst, inl, inr, Bool, true, ◌&&◌, ◌==◌, Bool-cases, arith,
}
use os_prioritypipes.Prelude.Int.{ℤ}
use os_prioritypipes.Prelude.Maps.{update}
use os_prioritypipes.Prelude.Results.{ok, Returns, returns}
use os_prioritypipes.Proc.{
  runnable, is_sleeping, is_runnable, System, wakeup, fork, fork_parent, fork_ready, exit, sleep,
  awake, yield, Waited, wait, kill, setkilled, Table, allowed, schedule, sys_set_cpu_affinity,
  period_callback, sys_wait_until_next_period,
}
use os_prioritypipes.Proc.Inv.{Roused, InTable, Inv, is_used, Roused-Inv, wakeup-Roused}
use os_prioritypipes.Proc.Search.{whole_table}
use os_prioritypipes.Proc.Forking.{
  Allocated, refused, granted, fork-Allocated, fork_parent-Inv, fork_ready-Inv,
}
use os_prioritypipes.Proc.Exiting.{exit-Inv}
use os_prioritypipes.Proc.Waiting.{Ends, reaps, faults, gives_up, sleeps, wait-Ends, sleep-Inv}

-- A step by the process that the CPU `c` runs, by a scheduler that has none, or by an interrupt.
pub data Step (s : System) : System → Type 0 where
  forks : (fits copied : Bool) → Step s (fork fits copied s).1
  sets_parent :
      (c np : ℕ)
      → s.cpu c ≢ 0
      → InTable np
      → is_used (s.table np).state ≡ true
      → Step s (record s { table = fork_parent (s.cpu c) np s.table })
  readies :
      (np : ℕ)
      → InTable np
      → is_used (s.table np).state ≡ true
      → (s.table np).parent ≢ 0
      → Step s (record s { table = fork_ready np s.table })
  exits :
      {t : System} (c : ℕ) (status : ℤ)
      → s.cpu c ≢ 0
      → s.cpu c ≢ s.initproc
      → exit c (s.cpu c) status s ≡ ok t
      → Step s t
  looks : (c : ℕ) (delivers : Bool) → s.cpu c ≢ 0 → Step s (wait c delivers (s.cpu c) s).1
  -- `sleep` on anything but a process
  sleeps_on : (c chan : ℕ) → s.cpu c ≢ 0 → chan ≢ s.cpu c → Step s (sleep c (s.cpu c) chan s)
  goes_on : (c : ℕ) → s.cpu c ≢ 0 → Step s (record s { table = awake (s.cpu c) s.table })
  yields : (c : ℕ) → s.cpu c ≢ 0 → Step s (yield c (s.cpu c) s)
  -- a process that is not in `sleep`, whose channel is 0
  dozes :
      (c : ℕ)
      → s.cpu c ≢ 0
      → (s.table (s.cpu c)).chan ≡ 0
      → Step s (sys_wait_until_next_period c (s.cpu c) s)
  schedules : (c p : ℕ) → s.cpu c ≡ 0 → InTable p → Step s (schedule c p s)
  wakes : (me chan : ℕ) → Step s (record s { table = wakeup me chan s.table })
  rings : (p : ℕ) → Step s (record s { table = period_callback p s.table })
  kills : (pid : ℕ) → Step s (record s { table = (kill pid s.table).1 })
  marks : (p : ℕ) → InTable p → Step s (record s { table = setkilled p s.table })
  pins : (p : ℕ) (mask : ℤ) → Step s (record s { table = sys_set_cpu_affinity p mask s.table })

pub data Steps : System → System → Type 0 where
  start : {s : System} → Steps s s
  then_step : {s t u : System} → Steps s t → Step t u → Steps s u

-- A process that is not running can be changed in what the invariant does not read, and woken up.
touch-Inv :
    (s : System) (p : ℕ) (killed : Bool) (mask : ℤ)
    → Inv s
    → Inv (record s {
      table = update s.table p (record (s.table p) { killed = killed; cpu_mask = mask });
    })
touch-Inv s p killed mask h = record {
  init_live = ground (arith, h.init_live);
  free_pid = λ q j e. ground (arith, h.free_pid q);
  live_pid = λ q j e. ground (arith, h.live_pid q);
  distinct = λ q q' j j' ne e. ground (arith, h.distinct q q');
  parents = λ q q' j e nz. ground (arith, h.parents q q');
  has_parent = λ q j e e' ni. ground (arith, h.has_parent q);
  awaited = λ q q' j e nz z sl. ground (arith, h.awaited q q');
  on_cpu = λ d e. ground (arith, h.on_cpu d);
  one_cpu = h.one_cpu;
}

awake-Inv :
    (s : System) (c p : ℕ)
    → s.cpu c ≡ p
    → p ≢ 0
    → Inv s
    → Inv (record s { table = awake p s.table })
awake-Inv s c p on nz h = record {
  init_live = ground (arith, h.init_live);
  free_pid = λ q j e. ground (arith, h.free_pid q);
  live_pid = λ q j e. ground (arith, h.live_pid q);
  distinct = λ q q' j j' ne e. ground (arith, h.distinct q q');
  parents = λ q q' j e nz'. ground (arith, h.parents q q');
  has_parent = λ q j e e' ni. ground (arith, h.has_parent q);
  awaited = λ q q' j e nz' z sl. ground (arith, h.awaited q q');
  on_cpu = λ d e. ground (arith, h.on_cpu d);
  one_cpu = h.one_cpu;
}

yield-Inv : (s : System) (c p : ℕ) → s.cpu c ≡ p → p ≢ 0 → Inv s → Inv (yield c p s)
unfolding yield
yield-Inv s c p on nz h = record {
  init_live = ground (arith, h.init_live);
  free_pid = λ q j e. ground (arith, h.free_pid q, h.on_cpu c);
  live_pid = λ q j e. ground (arith, h.live_pid q, h.on_cpu c);
  distinct = λ q q' j j' ne e. ground (arith, h.distinct q q', h.on_cpu c);
  parents = λ q q' j e nz'. ground (arith, h.parents q q', h.on_cpu c);
  has_parent = λ q j e e' ni. ground (arith, h.has_parent q, h.on_cpu c);
  awaited = λ q q' j e nz' z sl. ground (arith, h.awaited q q');
  on_cpu = λ d e. ground (arith, h.on_cpu d, h.one_cpu c d);
  one_cpu = λ d d' e e'. ground (arith, h.one_cpu d d');
}

pub schedule-Inv : (s : System) (c p : ℕ) → s.cpu c ≡ 0 → InTable p → Inv s → Inv (schedule c p s)
unfolding schedule
schedule-Inv s c p idle i h =
    elim (Bool-cases (is_runnable (s.table p).state && allowed c (s.table p).cpu_mask)) [
      | inr stays ↦ rw stays h
      | inl runs ↦
          let ready : is_runnable (s.table p).state ≡ true = ground (arith, runs) in
          rw runs record {
            init_live = ground (arith, h.init_live);
            free_pid = λ q j e. ground (arith, h.free_pid q);
            live_pid = λ q j e. ground (arith, h.live_pid q);
            distinct = λ q q' j j' ne e. ground (arith, h.distinct q q');
            parents = λ q q' j e nz'. ground (arith, h.parents q q');
            has_parent = λ q j e e' ni. ground (arith, h.has_parent q);
            awaited = λ q q' j e nz' z sl. ground (arith, h.awaited q q');
            on_cpu = λ d e. ground (arith, h.on_cpu d);
            one_cpu = λ d d' e e'. ground (arith, h.one_cpu d d', h.on_cpu d, h.on_cpu d');
          }
    ]

doze-Inv :
    (s : System) (c p : ℕ)
    → s.cpu c ≡ p
    → p ≢ 0
    → (s.table p).chan ≡ 0
    → Inv s
    → Inv (sys_wait_until_next_period c p s)
unfolding sys_wait_until_next_period
doze-Inv s c p on nz ch h = record {
  init_live = ground (arith, h.init_live);
  free_pid = λ q j e. ground (arith, h.free_pid q, h.on_cpu c);
  live_pid = λ q j e. ground (arith, h.live_pid q, h.on_cpu c);
  distinct = λ q q' j j' ne e. ground (arith, h.distinct q q', h.on_cpu c);
  parents = λ q q' j e nz'. ground (arith, h.parents q q', h.on_cpu c);
  has_parent = λ q j e e' ni. ground (arith, h.has_parent q, h.on_cpu c);
  awaited = λ q q' j e nz' z sl. ground (arith, h.awaited q q');
  on_cpu = λ d e. ground (arith, h.on_cpu d, h.one_cpu c d);
  one_cpu = λ d d' e e'. ground (arith, h.one_cpu d d');
}

pub period_callback-Roused : (p : ℕ) (t : Table) → Roused t (period_callback p t)
unfolding period_callback
period_callback-Roused p t q = ground (arith, t q)

-- `kill` wakes its victim up.
rouse_killed-Inv :
    (s : System) (p : ℕ)
    → is_sleeping (s.table p).state ≡ true
    → Inv s
    → Inv (record s {
      table = update s.table p (record (s.table p) { killed = true; state = runnable });
    })
rouse_killed-Inv s p sl h = record {
  init_live = ground (arith, h.init_live);
  free_pid = λ q j e. ground (arith, h.free_pid q);
  live_pid = λ q j e. ground (arith, h.live_pid q);
  distinct = λ q q' j j' ne e. ground (arith, h.distinct q q');
  parents = λ q q' j e nz. ground (arith, h.parents q q');
  has_parent = λ q j e e' ni. ground (arith, h.has_parent q);
  awaited = λ q q' j e nz z sl'. ground (arith, h.awaited q q');
  on_cpu = λ d e. ground (arith, h.on_cpu d);
  one_cpu = h.one_cpu;
}

kill-Inv : (s : System) (pid : ℕ) → Inv s → Inv (record s { table = (kill pid s.table).1 })
unfolding kill
kill-Inv s pid h = elim (whole_table (λ p. (s.table p).pid == pid)) [
  | inl (e, no_such) ↦ rw (kill, e) h
  | inr (p, e, i, some, hit, before) ↦ elim (Bool-cases (is_sleeping (s.table p).state)) [
    | inl asleep ↦ rw (kill, e, some, asleep) (rouse_killed-Inv s p asleep h)
    | inr up ↦ rw (kill, e, some, up) (touch-Inv s p true (s.table p).cpu_mask h)
  ]
]

-- Every step keeps the invariant.
Step-Inv : {s t : System} → Step s t → Inv s → Inv t
Step-Inv {s} (forks fits copied) h = of_fork (fork-Allocated fits copied s h)
  where
    of_fork : {r : ℕ × System} → Allocated s r → Inv r.1
    of_fork (refused h') = h'
    of_fork (granted i free ne same us pid par childless h') = h'
Step-Inv {s} (sets_parent c np on i us) h = fork_parent-Inv s c (s.cpu c) np refl on i us h
Step-Inv {s} (readies np i us par) h = fork_ready-Inv s np i us par h
Step-Inv {s} {t} (exits c status on ne e) h =
    of_exit (subst (λ r. Returns (λ t. Inv t) r) e (exit-Inv s c (s.cpu c) status ne on refl h))
  where
    of_exit : Returns (λ u. Inv u) (ok t) → Inv t
    of_exit (returns h') = h'
Step-Inv {s} (looks c delivers on) h = of_wait (wait-Ends s c (s.cpu c) delivers refl on h)
  where
    of_wait : {r : Waited × System} → Ends s c (s.cpu c) delivers r → Inv r.1
    of_wait (reaps d good i par z h') = h'
    of_wait (faults d bad i par z) = h
    of_wait (gives_up alive why) = h
    of_wait (sleeps d i par alive going h') = h'
Step-Inv {s} (sleeps_on c chan on ne) h =
    sleep-Inv s c (s.cpu c) chan refl on (λ same. absurd (ne same)) h
Step-Inv {s} (goes_on c on) h = awake-Inv s c (s.cpu c) refl on h
Step-Inv {s} (yields c on) h = yield-Inv s c (s.cpu c) refl on h
Step-Inv {s} (dozes c on ch) h = doze-Inv s c (s.cpu c) refl on ch h
Step-Inv {s} (schedules c p idle i) h = schedule-Inv s c p idle i h
Step-Inv {s} (wakes me chan) h = Roused-Inv s _ (wakeup-Roused me chan s.table) h
Step-Inv {s} (rings p) h = Roused-Inv s _ (period_callback-Roused p s.table) h
Step-Inv {s} (kills pid) h = kill-Inv s pid h
Step-Inv {s} (marks p i) h = touch-Inv s p true (s.table p).cpu_mask h
Step-Inv {s} (pins p mask) h = touch-Inv s p (s.table p).killed mask h

-- Along every sequence of steps of the processes, schedulers and interrupts, the table stays in
-- order: identifiers differ, parents are alive, no parent sleeps in `wait` over a zombie child, and
-- no two CPUs run the same process.
pub Steps-Inv : {s t : System} → Steps s t → Inv s → Inv t
Steps-Inv start h = h
Steps-Inv (then_step before step) h = Step-Inv step (Steps-Inv before h)
