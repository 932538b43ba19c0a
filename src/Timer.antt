-- ===== src/Timer.antt =====
-- kernel/trap.c `clockintr` and proj3/kernel/timer.c, periodic_tasks.c: the timers of the processes.
use os_prioritypipes.Prelude.{
  ℕ, zero, suc, ◌+◌, ◌%◌, ◌^◌, Bool, true, false, ◌&&◌, not, ltb, leb, if◌then◌else◌, Option, none,
  some,
}
use os_prioritypipes.Prelude.Int.{ℤ, pos, negsuc}
use os_prioritypipes.Prelude.Loops.{rounds}
use os_prioritypipes.Prelude.Maps.{update}
use os_prioritypipes.Proc.{nproc, is_unused, Table, wakeup, period_callback}
pub mod Rounds
pub mod Periods
mod Tests

-- `struct xv6timer_t`: `callback` says whether it is set, since the only one is `period_callback`.
-- A timer that is not set up has the expiry 0, and `setperiod` refuses another that is not positive.
pub record Xv6timer : Type 0 where
  pub expiry : ℕ
  pub next_tick : ℕ
  pub proc : ℕ
  pub callback : Bool

-- `ticks`, the process table and the timer of each process, if it has one.
pub record Clock : Type 0 where
  pub ticks : ℕ
  pub table : Table
  pub timer : ℕ → Option Xv6timer

-- the sum of two numbers of type `uint`
abbrev pub plus : ℕ → ℕ → ℕ
plus m n = (m + n) % 2 ^ 32

abbrev pub xv6timer_init : ℕ → Xv6timer
xv6timer_init p = record { proc = p; expiry = 0; next_tick = 0; callback = false }

abbrev pub xv6timer_forward : ℕ → ℕ → Xv6timer → Xv6timer
xv6timer_forward ticks expiry t = record t { expiry = expiry; next_tick = plus ticks expiry }

abbrev pub xv6timer_register_callback : Xv6timer → Xv6timer
xv6timer_register_callback t = record t { callback = true }

-- `sys_setperiod` by the process `p`, with whether it returns 0. `fits` says that `kalloc` has a page.
unfoldable pub sys_setperiod : ℤ → Bool → ℕ → Clock → Bool × Clock
sys_setperiod (negsuc n) fits p c = (false, c)
sys_setperiod (pos period) fits p c = if ltb period 1 then (false, c) else with_timer (c.timer p)
  where
    forwarded : Xv6timer → Bool × Clock
    forwarded t =
        (true, record c { timer = update c.timer p (some (xv6timer_forward c.ticks period t)) })

    with_timer : Option Xv6timer → Bool × Clock
    with_timer (some t) = forwarded t
    with_timer none =
        if fits then forwarded (xv6timer_register_callback (xv6timer_init p)) else (false, c)

-- The body of the loop of `clockintr` at the process `p`.
unfoldable pub check_timer : ℕ → Clock → Clock
check_timer p c = at_timer (c.timer p)
  where
    at_timer : Option Xv6timer → Clock
    at_timer none = c
    at_timer (some t) =
        if not (is_unused (c.table p).state) && leb t.next_tick c.ticks && t.callback
        then record c {
          table = period_callback t.proc c.table;
          timer = update c.timer p (some (record t { next_tick = plus c.ticks t.expiry }));
        }
        else c

-- `clockintr` on the CPU 0 while it runs the process `me`, or none; `channel` is `&ticks`.
unfoldable pub clockintr : ℕ → ℕ → Clock → Clock
clockintr me channel c =
    let c1 = rounds check_timer nproc 1 (record c { ticks = plus c.ticks 1 }) in
    record c1 { table = wakeup me channel c1.table }
