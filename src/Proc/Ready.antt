-- ===== src/Proc/Ready.antt =====
-- kernel/proc.c: a parent that may run, and its child that has exited, while others go on.
use os_prioritypipes.Prelude.{
  ℕ, ◌≡◌, ◌≢◌, refl, subst, sym, ap, ◌∙◌, inl, inr, Bool, true, false, ◌&&◌, not, ◌==◌, Bool-cases,
  arith,
}
use os_prioritypipes.Prelude.Int.{ℤ}
use os_prioritypipes.Prelude.Maps.{update}
use os_prioritypipes.Prelude.Results.{ok, Returns, returns}
use os_prioritypipes.Proc.{
  is_unused, is_runnable, is_zombie, Table, System, wakeup, reparent, freeproc, allocproc, fork,
  exit, sleep, yield, Waited, wait, kill, schedule, sys_wait_until_next_period,
}
use os_prioritypipes.Proc.Inv.{Inv, Roused, wakeup-Roused}
use os_prioritypipes.Proc.Search.{whole_table}
use os_prioritypipes.Proc.Waiting.{Ends, reaps, faults, gives_up, sleeps, wait-Ends}
use os_prioritypipes.Proc.Waking.{reparent-Handed}
use os_prioritypipes.Proc.Steps.{
  Step, Steps, start, then_step, forks, sets_parent, readies, exits, looks, sleeps_on, goes_on,
  yields, dozes, schedules, wakes, rings, kills, marks, pins, Steps-Inv, period_callback-Roused,
}

abbrev pub runs_process : ℕ → {s t : System} → Step s t → Bool
runs_process p (schedules c r idle i) = r == p
runs_process p _ = false

-- No scheduler comes to the process.
abbrev pub passed_over : ℕ → {s t : System} → Steps s t → Bool
passed_over p start = true
passed_over p (then_step before step) = not (runs_process p step) && passed_over p before

-- The process `p` may run, and its child `q` has exited.
pub record Ready (p q : ℕ) (t : Table) : Type 0 where
  pub up : is_runnable (t p).state ≡ true
  pub dead : is_zombie (t q).state ≡ true
  pub parent : (t q).parent ≡ p

Roused-Ready : (p q : ℕ) (t t' : Table) → Roused t t' → Ready p q t → Ready p q t'
Roused-Ready p q t t' w h = record {
  up = ground (arith, w p, h.up);
  dead = ground (arith, w q, h.dead);
  parent = ground (arith, w q, h.dead, h.parent);
}

-- `fork` takes a place that is not in use.
fork_other :
    (fits copied : Bool) (s : System) (r : ℕ)
    → is_unused (s.table r).state ≡ false
    → (fork fits copied s).1.table r ≡ s.table r
unfolding fork allocproc freeproc
fork_other fits copied s r live = elim (whole_table (λ p. is_unused (s.table p).state)) [
  | inl (e, full) ↦ rw (fork, allocproc, e) refl
  | inr (p, e, i, nz, free, before) ↦
      let ne : (r == p) ≡ false = elim (Bool-cases (r == p)) [
        | inr other ↦ other
        | inl same ↦
            let e' : r ≡ p = ground (arith, same) in
            let free' : is_unused (s.table r).state ≡ true =
              subst (λ x. is_unused (s.table x).state ≡ true) (sym e') free in
            absurd (ground (arith, live, free'))
      ] in
      elim (Bool-cases fits) [
        | inr short ↦ rw (fork, allocproc, e, nz, short, ne) refl
        | inl memory ↦ elim (Bool-cases copied) [
          | inl done ↦ rw (fork, allocproc, e, nz, memory, nz, done, ne) refl
          | inr failed ↦ rw (fork, allocproc, e, nz, memory, nz, failed, ne) refl
        ]
      ]
]

live_of_runnable :
    (s : System) (p : ℕ)
    → is_runnable (s.table p).state ≡ true
    → is_unused (s.table p).state ≡ false
live_of_runnable s p up = ground (arith, up)

live_of_zombie :
    (s : System) (p : ℕ) → is_zombie (s.table p).state ≡ true → is_unused (s.table p).state ≡ false
live_of_zombie s p dead = ground (arith, dead)

module _ (p q : ℕ) (s : System) (h : Inv s) (y : Ready p q s.table) where
  same-Ready : (t : Table) → t p ≡ s.table p → t q ≡ s.table q → Ready p q t
  same-Ready t ep eq = record {
    up = ap (λ x. is_runnable x.state) ep ∙ y.up;
    dead = ap (λ x. is_zombie x.state) eq ∙ y.dead;
    parent = ap (λ x. x.parent) eq ∙ y.parent;
  }

  -- A process that runs is neither of the two.
  apart : (c : ℕ) → s.cpu c ≢ 0 → (p ≢ s.cpu c) × (q ≢ s.cpu c)
  apart c on = (
    λ e.
        absurd
          (ground (arith, subst (λ x. is_runnable (s.table x).state ≡ true) e y.up, h.on_cpu c)),
    λ e.
        absurd
          (ground (arith, subst (λ x. is_zombie (s.table x).state ≡ true) e y.dead, h.on_cpu c)),
  )

  changed-Ready : (r : ℕ) (x : Table) → p ≢ r → q ≢ r → Ready p q (update s.table r (x r))
  changed-Ready r x np nq = same-Ready _ (ground (arith, np)) (ground (arith, nq))

  freed-Ready : (d : ℕ) → q ≢ d → p ≢ d → Ready p q (freeproc d s.table)
  unfolding freeproc
  freed-Ready d nq np = same-Ready _ (ground (arith, np)) (ground (arith, nq))

  slept-Ready : (c chan : ℕ) → s.cpu c ≢ 0 → Ready p q (sleep c (s.cpu c) chan s).table
  unfolding sleep
  slept-Ready c chan on =
      let (np, nq) = apart c on in same-Ready _ (ground (arith, np)) (ground (arith, nq))

  exit-Ready :
      (c : ℕ) (status : ℤ)
      → s.cpu c ≢ 0
      → s.cpu c ≢ s.initproc
      → Returns (λ t. Ready p q t.table) (exit c (s.cpu c) status s)
  unfolding exit
  exit-Ready c status on ne =
      let r = s.cpu c in
      let u = reparent s.initproc r s.table in
      let w : Roused u (wakeup r (u r).parent u) = wakeup-Roused r (u r).parent u in
      let a = reparent-Handed s.initproc r s.table in
      let (np, nq) = apart c on in
      let differs : (s.cpu c == s.initproc) ≡ false = ground (arith, ne) in
      rw differs (
        returns record {
          up = ground (arith, w p, a p, np, y.up);
          dead = ground (arith, w q, a q, nq, y.dead);
          parent = ground (arith, w q, a q, nq, np, y.dead, y.parent);
        })

  wait-Ready :
      (c : ℕ) (delivers : Bool) → s.cpu c ≢ 0 → Ready p q (wait c delivers (s.cpu c) s).1.table
  wait-Ready c delivers on = of_wait (wait-Ends s c (s.cpu c) delivers refl on h)
    where
      of_wait : {r : Waited × System} → Ends s c (s.cpu c) delivers r → Ready p q r.1.table
      of_wait (reaps d good i par z h') =
          freed-Ready d (λ e. (apart c on).0 (sym y.parent ∙ ap (λ x. (s.table x).parent) e ∙ par))
            (λ e.
              absurd (ground (arith, z, subst (λ x. is_runnable (s.table x).state ≡ true) e y.up)))
      of_wait (faults d bad i par z) = y
      of_wait (gives_up alive why) = y
      of_wait (sleeps d i par alive going h') = slept-Ready c (s.cpu c) on

  yield-Ready : (c : ℕ) → s.cpu c ≢ 0 → Ready p q (yield c (s.cpu c) s).table
  unfolding yield
  yield-Ready c on =
      let (np, nq) = apart c on in same-Ready _ (ground (arith, np)) (ground (arith, nq))

  doze-Ready : (c : ℕ) → s.cpu c ≢ 0 → Ready p q (sys_wait_until_next_period c (s.cpu c) s).table
  unfolding sys_wait_until_next_period
  doze-Ready c on =
      let (np, nq) = apart c on in same-Ready _ (ground (arith, np)) (ground (arith, nq))

  schedule-Ready : (c r : ℕ) → (r == p) ≡ false → Ready p q (schedule c r s).table
  unfolding schedule
  schedule-Ready c r other = record {
    up = ground (arith, other, y.up);
    dead = ground (arith, y.dead);
    parent = ground (arith, y.parent);
  }

  kill-Ready : (pid : ℕ) → Ready p q (kill pid s.table).1
  unfolding kill
  kill-Ready pid = record {
    up = ground (arith, y.up);
    dead = ground (arith, y.dead);
    parent = ground (arith, y.parent);
  }

-- Both stay so in every step but one in which a scheduler comes to the parent.
Step-Ready :
    (p q : ℕ) {s t : System} (step : Step s t)
    → runs_process p step ≡ false
    → Inv s
    → Ready p q s.table
    → Ready p q t.table
Step-Ready p q {s} (forks fits copied) other h y =
    same-Ready p q s h y _ (fork_other fits copied s p (live_of_runnable s p y.up))
      (fork_other fits copied s q (live_of_zombie s q y.dead))
Step-Ready p q {s} (sets_parent c np on i us) other h y = record {
  up = ground (arith, y.up);
  dead = ground (arith, y.dead);
  parent = ground (arith, us, y.dead, y.parent);
}
Step-Ready p q {s} (readies np i us par) other h y = record {
  up = ground (arith, y.up);
  dead = ground (arith, us, y.dead);
  parent = ground (arith, y.parent);
}
Step-Ready p q {s} {t} (exits c status on ne e) other h y =
    of_exit
      (subst (λ r. Returns (λ t. Ready p q t.table) r) e (exit-Ready p q s h y c status on ne))
  where
    of_exit : Returns (λ u. Ready p q u.table) (ok t) → Ready p q t.table
    of_exit (returns y') = y'
Step-Ready p q {s} (looks c delivers on) other h y = wait-Ready p q s h y c delivers on
Step-Ready p q {s} (sleeps_on c chan on ne) other h y = slept-Ready p q s h y c chan on
Step-Ready p q {s} (goes_on c on) other h y =
    let (np, nq) = apart p q s h y c on in
    same-Ready p q s h y _ (ground (arith, np)) (ground (arith, nq))
Step-Ready p q {s} (yields c on) other h y = yield-Ready p q s h y c on
Step-Ready p q {s} (dozes c on ch) other h y = doze-Ready p q s h y c on
Step-Ready p q {s} (schedules c r idle i) other h y = schedule-Ready p q s h y c r other
Step-Ready p q {s} (wakes me chan) other h y =
    Roused-Ready p q s.table _ (wakeup-Roused me chan s.table) y
Step-Ready p q {s} (rings r) other h y =
    Roused-Ready p q s.table _ (period_callback-Roused r s.table) y
Step-Ready p q {s} (kills pid) other h y = kill-Ready p q s h y pid
Step-Ready p q {s} (marks r i) other h y = record {
  up = ground (arith, y.up);
  dead = ground (arith, y.dead);
  parent = ground (arith, y.parent);
}
Step-Ready p q {s} (pins r mask) other h y = record {
  up = ground (arith, y.up);
  dead = ground (arith, y.dead);
  parent = ground (arith, y.parent);
}

pub Steps-Ready :
    (p q : ℕ) {s t : System} (run : Steps s t)
    → passed_over p run ≡ true
    → Inv s
    → Ready p q s.table
    → Ready p q t.table
Steps-Ready p q start over h y = y
Steps-Ready p q (then_step before step) over h y =
    Step-Ready p q step (ground (arith, over)) (Steps-Inv before h)
      (Steps-Ready p q before (ground (arith, over)) h y)
