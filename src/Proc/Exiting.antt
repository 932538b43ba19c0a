-- ===== src/Proc/Exiting.antt =====
-- kernel/proc.c: `reparent` and `exit`.
use os_prioritypipes.Prelude.{
  ℕ, ◌+◌, ◌≤◌, ◌<◌, ◌≡◌, ◌≢◌, refl, sym, inl, inr, true, false, ◌==◌, Bool-cases, arith,
}
use os_prioritypipes.Prelude.Int.{ℤ}
use os_prioritypipes.Prelude.Loops.{rounds_keep}
use os_prioritypipes.Prelude.Maps.{update}
use os_prioritypipes.Prelude.Results.{Returns, returns}
use os_prioritypipes.Proc.{
  nproc, zombie, is_running, Table, System, wakeup, reparent_one, reparent, exit,
}
use os_prioritypipes.Proc.Inv.{InTable, Inv, Roused, Roused-Inv, wakeup-Roused, wakeup_wakes}

-- One child of `p` is handed to `initproc`, which is woken up.
adopt-Inv :
    (s : System) (p pp : ℕ)
    → Inv s
    → InTable pp
    → p ≢ s.initproc
    → (s.table pp).parent ≡ p
    → p ≢ 0
    → Inv (record s {
      table = wakeup p s.initproc (update s.table pp (record (s.table pp) { parent = s.initproc }));
    })
adopt-Inv s p pp h i ne child nz =
    let u = update s.table pp (record (s.table pp) { parent = s.initproc }) in
    let r : Roused u (wakeup p s.initproc u) = wakeup-Roused p s.initproc u in
    let w = wakeup_wakes p s.initproc u s.initproc h.init_live.0 (λ e. ne (sym e)) in
    record {
      init_live = ground (arith, r s.initproc, h.init_live);
      free_pid = λ q j un. ground (arith, r q, h.free_pid q);
      live_pid = λ q j un. ground (arith, r q, h.live_pid q);
      distinct = λ q q' j j' ne' un. ground (arith, r q, r q', h.distinct q q');
      parents =
          λ q q' j e nz'. ground (arith, r q, r q', h.parents q q', h.parents pp p, h.init_live);
      has_parent = λ q j un us ni. ground (arith, r q, h.has_parent q, h.init_live);
      awaited = λ q q' j e nz' z sl. ground (arith, r q, r q', h.awaited q q', w);
      on_cpu = λ c e. ground (arith, r (s.cpu c), h.on_cpu c);
      one_cpu = h.one_cpu;
    }

-- What the loop of `reparent` has done before the process `k`.
record Adopted (s : System) (p k : ℕ) (t : Table) : Type 0 where
  inv : Inv (record s { table = t })
  runs : is_running (t p).state ≡ true
  none_left : (q : ℕ) → 1 ≤ q → q < k → (t q).parent ≢ p

reparent-Adopted :
    (s : System) (p : ℕ)
    → InTable p
    → p ≢ s.initproc
    → is_running (s.table p).state ≡ true
    → Inv s
    → Adopted s p 65 (reparent s.initproc p s.table)
unfolding reparent
reparent-Adopted s p i ne run h =
    (rounds_keep (reparent_one s.initproc p) (λ k t. (1 ≤ k) × (k ≤ 65 → Adopted s p k t))
        (λ k t a. (omega arith, λ le. again k t a.0 (omega arith) (a.1 (omega arith)))) nproc 1 65
        s.table
        (
          omega arith,
          λ le. record { inv = h; runs = run; none_left = λ q lo hi. absurd (omega arith) },
        )
        refl).1
      (omega arith)
  where
    again :
        (k : ℕ) (t : Table)
        → 1 ≤ k
        → k ≤ nproc
        → Adopted s p k t
        → Adopted s p (k + 1) (reparent_one s.initproc p k t)
    again k t lo hi a = elim (Bool-cases ((t k).parent == p)) [
      | inl child ↦
          let u = update t k (record (t k) { parent = s.initproc }) in
          let r : Roused u (wakeup p s.initproc u) = wakeup-Roused p s.initproc u in
          rw child record {
            inv =
                adopt-Inv (record s { table = t }) p k a.inv (lo, hi) ne (ground (arith, child))
                  (omega (arith, i.0));
            runs = ground (arith, r p, a.runs);
            none_left = λ q lo' hi'. ground (arith, r q, a.none_left q, ne);
          }
      | inr other ↦ rw other record {
        inv = a.inv;
        runs = a.runs;
        none_left = λ q lo' hi'. ground (arith, a.none_left q, other);
      }
    ]

-- A running process without children becomes a zombie, and its parent has been woken up.
zombie-Inv :
    (s : System) (c p : ℕ) (status : ℤ)
    → InTable p
    → p ≢ s.initproc
    → s.cpu c ≡ p
    → is_running (s.table p).state ≡ true
    → ((q : ℕ) → 1 ≤ q → q < 65 → (s.table q).parent ≢ p)
    → Inv s
    → let t = wakeup p (s.table p).parent s.table in
      Inv (record s {
        table = update t p (record (t p) { xstate = status; state = zombie });
        cpu = update s.cpu c 0;
      })
zombie-Inv s c p status i ne on run childless h =
    let t = wakeup p (s.table p).parent s.table in
    let r : Roused s.table t = wakeup-Roused p (s.table p).parent s.table in
    let h' = Roused-Inv s t r h in
    let w = wakeup_wakes p (s.table p).parent s.table in
    record {
      init_live = ground (arith, h'.init_live);
      free_pid = λ q j un. ground (arith, h'.free_pid q);
      live_pid = λ q j un. ground (arith, r p, h'.live_pid q);
      distinct = λ q q' j j' ne' un. ground (arith, r p, h'.distinct q q');
      parents = λ q q' j e nz. ground (arith, r q, r p, childless q, h'.parents q q');
      has_parent = λ q j un us ni. ground (arith, r p, h'.has_parent q);
      awaited = λ q q' j e nz z sl.
          ground (arith, r p, r q, w q', h'.awaited q q', h'.parents q q', h.parents p q');
      on_cpu = λ d e. ground (arith, h'.on_cpu d, h.one_cpu c d);
      one_cpu = λ d d' e e'. ground (arith, h.one_cpu d d');
    }

-- `exit` by a running process keeps the invariant, if it is not `initproc`.
pub exit-Inv :
    (s : System) (c p : ℕ) (status : ℤ)
    → p ≢ s.initproc
    → p ≢ 0
    → s.cpu c ≡ p
    → Inv s
    → Returns (λ s'. Inv s') (exit c p status s)
unfolding exit
exit-Inv s c p status ne nz on h =
    let i : InTable p = ground (arith, h.on_cpu c) in
    let run : is_running (s.table p).state ≡ true = ground (arith, h.on_cpu c) in
    let a = reparent-Adopted s p i ne run h in
    rw (differs) (
      returns (
        zombie-Inv (record s { table = reparent s.initproc p s.table }) c p status i ne on a.runs
          a.none_left a.inv))
  where
    differs : (p == s.initproc) ≡ false
    differs = ground (arith, ne)
