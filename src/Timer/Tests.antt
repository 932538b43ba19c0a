-- ===== src/Timer/Tests.antt =====
-- kernel/trap.c: its theorem at a process with the period 10.
use os_prioritypipes.Prelude.{refl, true, none, arith}
use os_prioritypipes.Prelude.Int.{pos}
use os_prioritypipes.Prelude.Loops.{rounds}
use os_prioritypipes.Prelude.Maps.{update}
use os_prioritypipes.Proc.{Table, sleeping}
use os_prioritypipes.Proc.Boot.{blank}
use os_prioritypipes.Timer.{Clock, sys_setperiod, clockintr}
use os_prioritypipes.Timer.Rounds.{Armed, Rung}
use os_prioritypipes.Timer.Periods.{period_wakes}

-- Process 3 sleeps since the tick 100.
abbrev dozing : Table
dozing = update blank 3 (record (blank 3) { state = sleeping; pid = 3; parent = 1 })

abbrev at_100 : Clock
at_100 = record { ticks = 100; table = dozing; timer = λ p. none }

period_wakes_example :
    let start = record (sys_setperiod (pos 10) true 3 at_100).1 { table = dozing } in
    let before = rounds (λ i. clockintr 0 0x80008000) 9 0 start in
    Armed 3 10 110 before × Rung 3 10 120 (clockintr 0 0x80008000 before)
period_wakes_example =
    period_wakes 0 0x80008000 3 9 at_100 dozing (omega arith, omega arith)
      (λ e. absurd (omega (arith, e))) (omega arith) refl (λ q t e. absurd (ground (arith, e))) refl
      refl
