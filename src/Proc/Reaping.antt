-- ===== src/Proc/Reaping.antt =====
-- kernel/proc.c: a parent in `wait` and the `exit` of its child.
use os_prioritypipes.Prelude.{
  ℕ, ◌≡◌, ◌≢◌, refl, subst, sym, ap, ◌∙◌, Bool, true, if◌then◌else◌, arith,
}
use os_prioritypipes.Prelude.Int.{ℤ}
use os_prioritypipes.Prelude.Results.{Result, ok, panic, Returns-ok, both}
use os_prioritypipes.Proc.{
  is_sleeping, is_runnable, is_zombie, System, exit, Waited, bad_address, reaped, wait, schedule,
  allowed,
}
use os_prioritypipes.Proc.Inv.{InTable, Inv}
use os_prioritypipes.Proc.Exiting.{exit-Inv}
use os_prioritypipes.Proc.Waiting.{Ends, reaps, faults, gives_up, sleeps, wait-Ends}
use os_prioritypipes.Proc.Waking.{exit-Left, schedule-Runs}
use os_prioritypipes.Proc.Steps.{Steps, schedule-Inv, Steps-Inv}
use os_prioritypipes.Proc.Ready.{Ready, passed_over, Steps-Ready}

-- The state that a call leaves, and the old one if it panics.
abbrev pub state_after : System → Result System → System
state_after s panic = s
state_after s (ok t) = t

-- What `wait` of the process `p` returns: a child of `p` that has exited, or -1 if its status cannot be copied.
pub record Reaped (delivers : Bool) (p : ℕ) (u : System) (answer : Waited) : Type 0 where
  pub child : ℕ
  pub parent : (u.table child).parent ≡ p
  pub dead : is_zombie (u.table child).state ≡ true
  pub answers : answer ≡ (if delivers then reaped (u.table child).pid else bad_address)

-- `wait` of a parent that a CPU takes up, while one of its children has exited.
wait-Reaped :
    (u : System) (d p q : ℕ) (delivers : Bool)
    → p ≢ 0
    → InTable q
    → u.cpu d ≡ 0
    → allowed d (u.table p).cpu_mask ≡ true
    → Inv u
    → Ready p q u.table
    → Reaped delivers p u (wait d delivers p (schedule d p u)).0
wait-Reaped u d p q delivers nz iq idle fit h y =
    of_wait (wait-Ends (schedule d p u) d p delivers runs.0 nz inv)
  where
    runs : ((schedule d p u).cpu d ≡ p) × ((r : ℕ) → r ≢ p → (schedule d p u).table r ≡ u.table r)
    runs = schedule-Runs u d p y.up fit

    inv : Inv (schedule d p u)
    inv = schedule-Inv u d p idle (h.parents q p iq y.parent nz).1 h

    exited :
        ((schedule d p u).table q).parent ≡ p × (is_zombie ((schedule d p u).table q).state ≡ true)
    exited =
        let ne : q ≢ p = λ e. absurd (
          ground (arith, y.dead, subst (λ x. is_runnable (u.table x).state ≡ true) (sym e) y.up)) in
        rw (runs.1 q ne) (y.parent, y.dead)

    same_child :
        (z : ℕ)
        → is_zombie ((schedule d p u).table z).state ≡ true
        → (schedule d p u).table z ≡ u.table z
    same_child z dead = runs.1 z (λ e. absurd (
        ground (
          arith,
          inv.on_cpu d,
          runs.0,
          nz,
          subst (λ x. is_zombie ((schedule d p u).table x).state ≡ true) e dead,
        )))

    of_wait : {r : Waited × System} → Ends (schedule d p u) d p delivers r → Reaped delivers p u r.0
    of_wait (reaps z good i par dead kept) =
        let e = same_child z dead in
        record {
          child = z;
          parent = sym (ap (λ x. x.parent) e) ∙ par;
          dead = sym (ap (λ x. is_zombie x.state) e) ∙ dead;
          answers = rw good (ap (λ x. reaped x.pid) e);
        }
    of_wait (faults z bad i par dead) =
        let e = same_child z dead in
        record {
          child = z;
          parent = sym (ap (λ x. x.parent) e) ∙ par;
          dead = sym (ap (λ x. is_zombie x.state) e) ∙ dead;
          answers = rw bad refl;
        }
    of_wait (gives_up alive why) = absurd (ground (arith, alive q iq exited.0, exited.1))
    of_wait (sleeps z i par alive going kept) =
        absurd (ground (arith, alive q iq exited.0, exited.1))

-- If a process sleeps in `wait` and a child of it exits, then `exit` does not panic, and after any steps of
-- the processes, schedulers and interrupts in which no scheduler comes to the process, it is runnable; and if
-- then an idle CPU that its affinity allows comes to it, its `wait` returns a child that has exited, or -1 if
-- the status of the child cannot be copied.
pub exit_ends_wait :
    {u : System} (s : System) (c d p q : ℕ) (status : ℤ) (delivers : Bool)
    (run : Steps (state_after s (exit c q status s)) u)
    → s.cpu c ≡ q
    → q ≢ 0
    → q ≢ s.initproc
    → (s.table q).parent ≡ p
    → p ≢ 0
    → is_sleeping (s.table p).state ≡ true
    → (s.table p).chan ≡ p
    → Inv s
    → passed_over p run ≡ true
    → u.cpu d ≡ 0
    → allowed d (u.table p).cpu_mask ≡ true
    → (exit c q status s ≡ ok (state_after s (exit c q status s)))
      × (is_runnable (u.table p).state ≡ true)
      × Reaped delivers p u (wait d delivers p (schedule d p u)).0
exit_ends_wait {u} s c d p q status delivers run on nz ni par pnz sl ch h over idle fit =
    let iq : InTable q = subst InTable on (h.on_cpu c (λ e. absurd (nz (sym on ∙ e)))).0 in
    let ne : p ≢ q = ground (arith, h.on_cpu c) in
    let (t, e, (h', l)) =
      Returns-ok (both (exit-Inv s c q status ni nz on h) (exit-Left s c p q status ni ne par)) in
    let after : state_after s (exit c q status s) ≡ t = ap (state_after s) e in
    let y : Ready p q t.table = record {
      up = ground (arith, l.state_kept, l.chan_kept, l.dead, l.same_parent, h'.awaited q p, iq);
      dead = l.dead;
      parent = l.same_parent;
    } in
    let inv = subst Inv (sym after) h' in
    let y' = Steps-Ready p q run over inv (subst (λ x. Ready p q x.table) (sym after) y) in
    (
      e ∙ ap ok (sym after),
      y'.up,
      wait-Reaped u d p q delivers pnz iq idle fit (Steps-Inv run inv) y',
    )
