-- ===== src/Timer/Periods.antt =====
-- kernel/trap.c: when `clockintr` wakes a periodic process up.
use os_prioritypipes.Prelude.{
  ℕ, ◌+◌, ◌*◌, ◌^◌, ◌≤◌, ◌<◌, ◌≡◌, ◌≢◌, refl, subst, true, false, ltb, none, some, arith,
}
use os_prioritypipes.Prelude.Int.{pos}
use os_prioritypipes.Prelude.Loops.{rounds, rounds_keep}
use os_prioritypipes.Prelude.Maps.{update}
use os_prioritypipes.Proc.{nproc, Table, is_sleeping, wakeup}
use os_prioritypipes.Proc.Inv.{InTable, Roused, wakeup-Roused, wakeup_other}
use os_prioritypipes.Timer.{Clock, plus, sys_setperiod, check_timer, clockintr}
use os_prioritypipes.Timer.Rounds.{Own, Armed, Rung, Early, Due, check_timer-Early, check_timer-Due}

-- A `clockintr` before the time leaves the process asleep.
clockintr-Early :
    (me channel p n due : ℕ) (c : Clock)
    → channel ≢ 0
    → plus c.ticks 1 < due
    → Own c
    → Armed p n due c
    → Early p n due (plus c.ticks 1) 0 (clockintr me channel c)
unfolding clockintr
clockintr-Early me channel p n due c nz lt own a =
    let c0 = record c { ticks = plus c.ticks 1 } in
    let c1 = rounds check_timer nproc 1 c0 in
    let h =
      rounds_keep check_timer (Early p n due (plus c.ticks 1))
        (check_timer-Early p n due (plus c.ticks 1) lt) nproc 1 65 c0
        (record {
          own = own;
          now = refl;
          armed = record { asleep = a.asleep; off_channels = a.off_channels; set = a.set };
        })
        refl in
    let kept = wakeup_other me channel c1.table p (ground (arith, h.armed.off_channels, nz)) in
    record {
      own = h.own;
      now = h.now;
      armed = record {
        asleep = ground (arith, kept, h.armed.asleep);
        off_channels = ground (arith, kept, h.armed.off_channels);
        set = h.armed.set;
      };
    }

-- The one at the time wakes it up, and sets its timer anew.
clockintr-Rung :
    (me channel p n due : ℕ) (c : Clock)
    → InTable p
    → due ≤ plus c.ticks 1
    → Own c
    → Armed p n due c
    → Rung p n (plus (plus c.ticks 1) n) (clockintr me channel c)
unfolding clockintr
clockintr-Rung me channel p n due c i le own a =
    let ticks = plus c.ticks 1 in
    let c0 = record c { ticks = ticks } in
    let c1 = rounds check_timer nproc 1 c0 in
    let h =
      rounds_keep check_timer (Due p n due ticks) (check_timer-Due p n due ticks le) nproc 1 65 c0
        (record {
          own = own;
          now = refl;
          before = λ lo. record { asleep = a.asleep; off_channels = a.off_channels; set = a.set };
          after = λ lt. absurd (omega (arith, i.0, lt));
        })
        refl in
    let rung = h.after (omega (arith, i.1)) in
    let w : Roused c1.table (wakeup me channel c1.table) = wakeup-Roused me channel c1.table in
    record { awake = ground (arith, w p, rung.awake); set = rung.set }

-- from any clock at which the timer is set up and the process asleep
wakes_on_time :
    (me channel p n due k : ℕ) (c : Clock)
    → InTable p
    → channel ≢ 0
    → due + n < 2 ^ 32
    → c.ticks + (k + 1) ≡ due
    → Own c
    → Armed p n due c
    → let before = rounds (λ i. clockintr me channel) k 0 c in
      Armed p n due before × Rung p n (due + n) (clockintr me channel before)
wakes_on_time me channel p n due k c i nz fits reach own a =
    let h =
      rounds_keep (λ i. clockintr me channel) (λ j d. j ≤ k → Early p n due (c.ticks + j) 0 d)
        (λ j d g lt. again j d (g (omega arith)) lt) k 0 k c
        (λ lo. record { own = own; now = omega arith; armed = a }) (omega arith) (omega arith) in
    let before = rounds (λ i. clockintr me channel) k 0 c in
    let now : plus before.ticks 1 ≡ due = omega (arith, h.now, reach, fits) in
    let next : plus (plus before.ticks 1) n ≡ due + n = omega (arith, now, fits) in
    (
      h.armed,
      subst (λ m. Rung p n m (clockintr me channel before)) next
          (clockintr-Rung me channel p n due before i (omega (arith, now)) h.own h.armed),
    )
  where
    again :
        (j : ℕ) (d : Clock)
        → Early p n due (c.ticks + j) 0 d
        → j + 1 ≤ k
        → Early p n due (c.ticks + (j + 1)) 0 (clockintr me channel d)
    again j d g lt =
        let now : plus d.ticks 1 ≡ c.ticks + (j + 1) = omega (arith, g.now, reach, fits) in
        subst (λ m. Early p n due m 0 (clockintr me channel d)) now
          (clockintr-Early me channel p n due d nz (omega (arith, now, reach)) g.own g.armed)

-- The first `setperiod` of a process.
setperiod_first :
    (k p : ℕ) (c : Clock)
    → c.timer p ≡ none
    → c.ticks + (k + 1) < 2 ^ 32
    → (sys_setperiod (pos (k + 1)) true p c).1 ≡ record c {
      timer = update c.timer p (
          some
            (record { expiry = k + 1; next_tick = c.ticks + (k + 1); proc = p; callback = true }));
    }
unfolding sys_setperiod
setperiod_first k p c unset fits = rw (positive, unset, now) refl
  where
    positive : ltb (k + 1) 1 ≡ false
    positive = ground arith

    now : plus c.ticks (k + 1) ≡ c.ticks + (k + 1)
    now = omega (arith, fits)

-- If a process without a timer sets the period `k + 1` at the tick `c.ticks` and then sleeps in
-- `wait_until_next_period`, then after `k` clock interrupts it sleeps still, and the next one makes
-- it runnable and sets the timer to ring a period later, if `kalloc` has a page and no tick overflows.
pub period_wakes :
    (me channel p k : ℕ) (c : Clock) (t : Table)
    → InTable p
    → channel ≢ 0
    → c.ticks + 2 * (k + 1) < 2 ^ 32
    → c.timer p ≡ none
    → Own c
    → is_sleeping (t p).state ≡ true
    → (t p).chan ≡ 0
    → let due = c.ticks + (k + 1) in
      let start = record (sys_setperiod (pos (k + 1)) true p c).1 { table = t } in
      let before = rounds (λ i. clockintr me channel) k 0 start in
      Armed p (k + 1) due before × Rung p (k + 1) (due + (k + 1)) (clockintr me channel before)
period_wakes me channel p k c t i nz fits unset own sl ch =
    let timer = update c.timer p (
      some (record { expiry = k + 1; next_tick = c.ticks + (k + 1); proc = p; callback = true })) in
    rw (setperiod_first k p c unset (omega (arith, fits))) (
      wakes_on_time me channel p (k + 1) (c.ticks + (k + 1)) k
        (record c { table = t; timer = timer }) i nz (omega (arith, fits)) refl
        (λ q u e. ground (arith, own q u, e))
        record { asleep = sl; off_channels = ch; set = ground arith })
