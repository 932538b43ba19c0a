-- ===== src/Proc/Forking.antt =====
-- kernel/proc.c: `allocproc`, `freeproc` and the parts of `fork`.
use os_prioritypipes.Prelude.{
  ℕ, ◌+◌, ◌<◌, ◌≡◌, ◌≢◌, refl, ◌∙◌, inl, inr, Bool, true, false, ◌==◌, if◌then◌else◌, Bool-cases,
  arith,
}
use os_prioritypipes.Prelude.Maps.{update}
use os_prioritypipes.Proc.{
  used, is_unused, is_running, System, freeproc, allocproc, fork, fork_parent, fork_ready,
}
use os_prioritypipes.Proc.Inv.{InTable, Inv, is_used}
use os_prioritypipes.Proc.Search.{whole_table}

-- An unused process gets the next identifier.
claim-Inv :
    (s : System) (p : ℕ)
    → InTable p
    → is_unused (s.table p).state ≡ true
    → Inv s
    → Inv (record s {
      nextpid = s.nextpid + 1;
      table = update s.table p (record (s.table p) { pid = s.nextpid; state = used });
    })
claim-Inv s p i un h =
    let begun : 0 < s.nextpid = omega (arith, h.live_pid s.initproc h.init_live.0 h.init_live.1) in
    record {
      init_live = ground (arith, h.init_live);
      free_pid = λ q j e. ground (arith, h.free_pid q);
      live_pid = λ q j e. ground (arith, h.live_pid q, h.live_pid s.initproc, h.init_live);
      distinct = λ q q' j j' ne e.
          ground (arith, h.distinct q q', h.live_pid q, h.live_pid q', h.free_pid q', begun);
      parents = λ q q' j e nz. ground (arith, h.parents q q');
      has_parent = λ q j e e' ni. ground (arith, h.has_parent q);
      awaited = λ q q' j e nz z sl. ground (arith, h.awaited q q');
      on_cpu = λ c e. ground (arith, h.on_cpu c);
      one_cpu = h.one_cpu;
    }

-- A process that no CPU runs and that has no children is freed: it is new or a zombie.
pub freeproc-Inv :
    (s : System) (p : ℕ)
    → InTable p
    → p ≢ s.initproc
    → is_running (s.table p).state ≡ false
    → ((q : ℕ) → InTable q → (s.table q).parent ≢ p)
    → Inv s
    → Inv (record s { table = freeproc p s.table })
unfolding freeproc
freeproc-Inv s p i ne idle childless h = record {
  init_live = ground (arith, h.init_live);
  free_pid = λ q j e. ground (arith, h.free_pid q);
  live_pid = λ q j e. ground (arith, h.live_pid q);
  distinct = λ q q' j j' ne e. ground (arith, h.distinct q q', h.live_pid q);
  parents = λ q q' j e nz. ground (arith, h.parents q q', childless q);
  has_parent = λ q j e e' ni. ground (arith, h.has_parent q);
  awaited = λ q q' j e nz z sl. ground (arith, h.awaited q q');
  on_cpu = λ c e. ground (arith, h.on_cpu c);
  one_cpu = h.one_cpu;
}

-- What an allocation of a process comes to.
pub data Allocated (s : System) : ℕ × System → Type 0 where
  refused : {s' : System} → Inv s' → Allocated s (0, s')
  granted :
      {p : ℕ} {s' : System}
      → InTable p
      → is_unused (s.table p).state ≡ true
      → p ≢ s.initproc
      → s'.initproc ≡ s.initproc
      → is_used (s'.table p).state ≡ true
      → (s'.table p).pid ≡ s.nextpid
      → (s'.table p).parent ≡ 0
      → ((q : ℕ) → InTable q → (s'.table q).parent ≢ p)
      → Inv s'
      → Allocated s (p, s')

allocproc-Allocated : (fits : Bool) (s : System) → Inv s → Allocated s (allocproc fits s)
unfolding allocproc
allocproc-Allocated fits s h = elim (whole_table (λ p. is_unused (s.table p).state)) [
  | inl (e, full) ↦ rw (allocproc, e) (refused h)
  | inr (p, e, i, nz, free, before) ↦
      let claimed = claim-Inv s p i free h in
      let ne : p ≢ s.initproc = ground (arith, h.init_live, free) in
      let childless : (q : ℕ) → InTable q → (s.table q).parent ≢ p =
        λ q j. ground (arith, h.parents q p j, i) in
      let orphan : (s.table p).parent ≡ 0 = ground (arith, h.parents p (s.table p).parent) in
      elim (Bool-cases fits) [
        | inl yes_fits ↦
            rw (allocproc, e, nz, yes_fits)
              (granted i free ne refl (ground arith) (ground arith) (ground (arith, orphan))
                (λ q j. ground (arith, childless q j)) claimed)
        | inr short ↦
            rw (allocproc, e, nz, short)
              (refused (
                freeproc-Inv _ p i ne (ground arith) (λ q j. ground (arith, childless q j))
                  claimed))
      ]
]

-- `fork` gives a new process that is not yet to be run, or leaves the table without one.
pub fork-Allocated : (fits copied : Bool) (s : System) → Inv s → Allocated s (fork fits copied s)
unfolding fork
fork-Allocated fits copied s h = go (allocproc fits s) (allocproc-Allocated fits s h)
  where
    rest : ℕ × System → ℕ × System
    rest r =
        if r.0 == 0
        then (0, r.1)
        else if copied
        then r
        else (0, record r.1 { table = freeproc r.0 r.1.table })

    go : (r : ℕ × System) → Allocated s r → Allocated s (rest r)
    go _ (refused h') = refused h'
    go _ (granted {p} {s'} i free ne same us pid par childless h') =
        let nz : (p == 0) ≡ false = ground (arith, i) in
        elim (Bool-cases copied) [
          | inl all ↦ rw (nz, all) (granted i free ne same us pid par childless h')
          | inr failed ↦
              rw (nz, failed)
                (refused
                  (freeproc-Inv s' p i (λ e. ne (e ∙ same)) (ground (arith, us)) childless h'))
        ]

pub fork_parent-Inv :
    (s : System) (c p np : ℕ)
    → s.cpu c ≡ p
    → p ≢ 0
    → InTable np
    → is_used (s.table np).state ≡ true
    → Inv s
    → Inv (record s { table = fork_parent p np s.table })
fork_parent-Inv s c p np on nz i us h =
    let run = h.on_cpu c in
    record {
      init_live = ground (arith, h.init_live);
      free_pid = λ q j e. ground (arith, h.free_pid q);
      live_pid = λ q j e. ground (arith, h.live_pid q);
      distinct = λ q q' j j' ne e. ground (arith, h.distinct q q');
      parents = λ q q' j e nz'. ground (arith, h.parents q q', h.on_cpu c);
      has_parent = λ q j e e' ni. ground (arith, h.has_parent q);
      awaited = λ q q' j e nz' z sl. ground (arith, h.awaited q q');
      on_cpu = λ d e. ground (arith, h.on_cpu d);
      one_cpu = h.one_cpu;
    }

pub fork_ready-Inv :
    (s : System) (np : ℕ)
    → InTable np
    → is_used (s.table np).state ≡ true
    → (s.table np).parent ≢ 0
    → Inv s
    → Inv (record s { table = fork_ready np s.table })
fork_ready-Inv s np i us par h = record {
  init_live = ground (arith, h.init_live);
  free_pid = λ q j e. ground (arith, h.free_pid q);
  live_pid = λ q j e. ground (arith, h.live_pid q);
  distinct = λ q q' j j' ne e. ground (arith, h.distinct q q');
  parents = λ q q' j e nz. ground (arith, h.parents q q');
  has_parent = λ q j e e' ni. ground (arith, h.has_parent q);
  awaited = λ q q' j e nz z sl. ground (arith, h.awaited q q');
  on_cpu = λ c e. ground (arith, h.on_cpu c);
  one_cpu = h.one_cpu;
}
