-- ===== src/Proc/Tests.antt =====
-- kernel/proc.c: its theorems at the first process, which forks, and waits for its child.
use os_prioritypipes.Prelude.{◌≡◌, refl, true, arith}
use os_prioritypipes.Prelude.Int.{pos}
use os_prioritypipes.Prelude.Loops.{rounds}
use os_prioritypipes.Prelude.Results.{ok}
use os_prioritypipes.Proc.{
  System, is_runnable, find_proc, allocproc, fork, fork_parent, fork_ready, exit, sleep, wait, kill,
  schedule, wakeup, reparent, procinit, userinit,
}
use os_prioritypipes.Proc.Inv.{Inv, InTable}
use os_prioritypipes.Proc.Steps.{
  Steps, start, then_step, forks, sets_parent, readies, looks, schedules, wakes,
}
use os_prioritypipes.Proc.Waiting.{Ends, wait-Ends}
use os_prioritypipes.Proc.Reaping.{state_after, Reaped, exit_ends_wait}
use os_prioritypipes.Proc.Killing.{kill_zero}
use os_prioritypipes.Proc.Affinity.{only_first_cpu}
use os_prioritypipes.Proc.Boot.{boot, boot-Inv}

-- `initproc` runs, forks process 2, and waits; process 2 runs.
unfoldable s0 : System
s0 = userinit boot

unfoldable s1 : System
s1 = schedule 0 1 s0

unfoldable s2 : System
s2 = (fork true true s1).1

unfoldable s3 : System
s3 = record s2 { table = fork_parent 1 2 s2.table }

unfoldable s4 : System
s4 = record s3 { table = fork_ready 2 s3.table }

unfoldable s5 : System
s5 = (wait 0 true 1 s4).1

unfoldable s6 : System
s6 = schedule 0 2 s5

run1 : Steps s0 s1
unfolding s1 s0 userinit allocproc find_proc procinit rounds
run1 = then_step start (schedules 0 1 refl (omega arith, omega arith))

run2 : Steps s0 s2
unfolding s2
run2 = then_step run1 (forks true true)

run3 : Steps s0 s3
unfolding s3 s2 s1 s0 schedule fork userinit allocproc find_proc procinit rounds
run3 =
    then_step run2
      (sets_parent 0 2 (λ e. absurd (omega (arith, e))) (omega arith, omega arith) refl)

run4 : Steps s0 s4
unfolding s4 s3 s2 s1 s0 schedule fork userinit allocproc find_proc procinit rounds
run4 = then_step run3 (readies 2 (omega arith, omega arith) refl (λ e. absurd (omega (arith, e))))

run5 : Steps s0 s5
unfolding s5 s4 s3 s2 s1 s0 schedule fork userinit allocproc find_proc procinit rounds
run5 = then_step run4 (looks 0 true (λ e. absurd (omega (arith, e))))

run6 : Steps s0 s6
unfolding s6 s5 s4 s3 s2 s1 s0 schedule wait sleep fork userinit allocproc find_proc procinit rounds
run6 = then_step run5 (schedules 0 2 refl (omega arith, omega arith))

boot-Inv_example : Inv s6
unfolding s0
boot-Inv_example = boot-Inv run6

inv4 : Inv s4
unfolding s0
inv4 = boot-Inv run4

inv6 : Inv s6
unfolding s0
inv6 = boot-Inv run6

-- The child is alive, and its parent goes to sleep.
wait-Ends_example : Ends s4 0 1 true (wait 0 true 1 s4)
unfolding s4 s3 s2 s1 s0 schedule fork userinit allocproc find_proc procinit rounds
wait-Ends_example = wait-Ends s4 0 1 true refl (λ e. absurd (omega (arith, e))) inv4

-- The child exits with the status 7.
unfoldable s7 : System
s7 = state_after s6 (exit 0 2 (pos 7) s6)

-- A wakeup of others comes first, and then the CPU 0 takes up the parent.
unfoldable s8 : System
s8 = record s7 { table = wakeup 3 9 s7.table }

run8 : Steps s7 s8
unfolding s8
run8 = then_step start (wakes 3 9)

exit_ends_wait_example :
    (exit 0 2 (pos 7) s6 ≡ ok s7)
    × (is_runnable (s8.table 1).state ≡ true)
    × Reaped true 1 s8 (wait 0 true 1 (schedule 0 1 s8)).0
unfolding run8 s8 s7 s6 s5 s4 s3 s2 s1 s0 schedule wait sleep fork userinit allocproc find_proc
    procinit rounds exit reparent wakeup
exit_ends_wait_example =
    exit_ends_wait s6 0 0 1 2 (pos 7) true run8 refl (λ e. absurd (omega (arith, e)))
      (λ e. absurd (omega (arith, e))) refl (λ e. absurd (omega (arith, e))) refl refl inv6 refl
      refl refl

kill_zero_example :
    let t = (kill 0 s6.table).1 in
    let forked = fork true true (record s6 { table = t }) in
    ((kill 0 s6.table).0 ≡ true) × InTable forked.0 × ((forked.1.table forked.0).killed ≡ true)
unfolding s6 s5 s4 s3 s2 s1 s0 schedule wait sleep fork userinit allocproc find_proc procinit rounds
kill_zero_example = kill_zero s6 3 (omega arith, omega arith) refl inv6

only_first_cpu_example : s6.cpu 2 ≡ 0
unfolding s6 s5 s4 s3 s2 s1 s0 schedule wait sleep fork userinit allocproc find_proc procinit rounds
    run1 run2 run3 run4 run5 run6
only_first_cpu_example = only_first_cpu run6 2 refl (λ e. absurd (omega (arith, e)))
