-- ===== src/Proc.antt =====
-- kernel/proc.c: the process table. A process is its number in `proc`, from 1 to NPROC, and 0 is
-- the null pointer; a channel is an address, and the channel of a process in `wait` is the process
-- itself. A function that holds one lock throughout is one step; where the code gives up its locks
-- and goes on, there are several. What the memory of a process holds is not in the table: whether
-- its allocation succeeds is an argument.
use os_prioritypipes.Prelude.{
  ℕ, zero, suc, ◌+◌, Bool, true, false, ◌&&◌, ◌||◌, not, ◌==◌, if◌then◌else◌,
}
use os_prioritypipes.Prelude.Int.{ℤ, pos, negsuc}
use os_prioritypipes.Prelude.Loops.{rounds}
use os_prioritypipes.Prelude.Maps.{update}
use os_prioritypipes.Prelude.Results.{Result, ok, panic}
pub mod Inv
pub mod Search
pub mod Exiting
pub mod Forking
pub mod Waiting
pub mod Steps
pub mod Boot
pub mod Killing
pub mod Waking
pub mod Ready
pub mod Reaping
pub mod Affinity
mod Tests

-- NPROC
abbrev pub nproc : ℕ
nproc = 64

pub data State : Type 0 where
  unused : State
  used : State
  sleeping : State
  runnable : State
  running : State
  zombie : State

abbrev pub is_unused : State → Bool
is_unused unused = true
is_unused _ = false

abbrev pub is_sleeping : State → Bool
is_sleeping sleeping = true
is_sleeping _ = false

abbrev pub is_runnable : State → Bool
is_runnable runnable = true
is_runnable _ = false

abbrev pub is_running : State → Bool
is_running running = true
is_running _ = false

abbrev pub is_zombie : State → Bool
is_zombie zombie = true
is_zombie _ = false

-- `struct proc` as far as the table needs it
pub record Proc : Type 0 where
  pub state : State
  pub chan : ℕ
  pub killed : Bool
  pub xstate : ℤ
  pub pid : ℕ
  pub cpu_mask : ℤ
  pub parent : ℕ

abbrev pub Table : Type 0
Table = ℕ → Proc

-- `freeproc`, which leaves `cpu_mask` as it is
abbrev pub freed : Proc → Proc
freed p = record p { state = unused; chan = 0; killed = false; xstate = pos 0; pid = 0; parent = 0 }

unfoldable pub freeproc : ℕ → Table → Table
freeproc p t = update t p (freed (t p))

-- The first process from `p` on, of `k` to try, that passes the test, or 0.
unfoldable pub find_proc : (ℕ → Bool) → ℕ → ℕ → ℕ
find_proc test zero p = 0
find_proc test (suc k) p = let later = find_proc test k (p + 1) in if test p then p else later

-- The table, the next process identifier, `initproc`, and the process of each CPU, 0 for none.
pub record System : Type 0 where
  pub table : Table
  pub nextpid : ℕ
  pub initproc : ℕ
  pub cpu : ℕ → ℕ

-- `allocpid`. An `int` overflows after 2^31 processes, which the model leaves out.
abbrev pub allocpid : System → ℕ × System
allocpid s = (s.nextpid, record s { nextpid = s.nextpid + 1 })

-- `allocproc`: the process, or 0. `fits` says that its trapframe and page table were allocated.
unfoldable pub allocproc : Bool → System → ℕ × System
allocproc fits s =
    let p = find_proc (λ p. is_unused (s.table p).state) nproc 1 in
    let (pid, s1) = allocpid s in
    let t1 = update s1.table p (record (s1.table p) { pid = pid; state = used }) in
    if p == 0
    then (0, s)
    else if fits
    then (p, record s1 { table = t1 })
    else (0, record s1 { table = freeproc p t1 })

-- `wakeup` by the process `me`
abbrev pub woken : ℕ → ℕ → ℕ → Table → Table
woken me chan p t =
    if not (p == me) && is_sleeping (t p).state && ((t p).chan == chan)
    then update t p (record (t p) { state = runnable })
    else t

unfoldable pub wakeup : ℕ → ℕ → Table → Table
wakeup me chan t = rounds (woken me chan) nproc 1 t

-- `fork` up to its first `release`: the child or 0. `copied` says that `uvmcopy` and `shmem_fork`
-- succeed.
unfoldable pub fork : Bool → Bool → System → ℕ × System
fork fits copied s =
    let (np, s1) = allocproc fits s in
    if np == 0
    then (0, s1)
    else if copied
    then (np, s1)
    else (0, record s1 { table = freeproc np s1.table })

-- `np->parent = p`, under `wait_lock`
abbrev pub fork_parent : ℕ → ℕ → Table → Table
fork_parent p np t = update t np (record (t np) { parent = p })

-- `np->state = RUNNABLE`, under the child's lock
abbrev pub fork_ready : ℕ → Table → Table
fork_ready np t = update t np (record (t np) { state = runnable })

abbrev pub reparent_one : ℕ → ℕ → ℕ → Table → Table
reparent_one initproc p pp t =
    if (t pp).parent == p
    then wakeup p initproc (update t pp (record (t pp) { parent = initproc }))
    else t

-- `reparent`, which `p` itself calls
unfoldable pub reparent : ℕ → ℕ → Table → Table
reparent initproc p t = rounds (reparent_one initproc p) nproc 1 t

-- `exit` of the process `p` on the CPU `c`: the test for `initproc`, and what follows
-- `acquire(&wait_lock)`, to the switch to the scheduler. Its files are closed before.
unfoldable pub exit : ℕ → ℕ → ℤ → System → Result System
exit c p status s =
    let t1 = reparent s.initproc p s.table in
    let t2 = wakeup p (t1 p).parent t1 in
    let t3 = update t2 p (record (t2 p) { xstate = status; state = zombie }) in
    if p == s.initproc then panic else ok (record s { table = t3; cpu = update s.cpu c 0 })

-- The first half of `sleep` on the CPU `c`, to the switch to the scheduler, by a caller that does not
-- hold the lock of the process itself.
unfoldable pub sleep : ℕ → ℕ → ℕ → System → System
sleep c p chan s = record s {
  table = update s.table p (record (s.table p) { chan = chan; state = sleeping });
  cpu = update s.cpu c 0;
}

-- `p->chan = 0;` when `sleep` goes on
abbrev pub awake : ℕ → Table → Table
awake p t = update t p (record (t p) { chan = 0 })

unfoldable pub yield : ℕ → ℕ → System → System
yield c p s = record s {
  table = update s.table p (record (s.table p) { state = runnable });
  cpu = update s.cpu c 0;
}

-- `sys_wait_until_next_period` of proj3/kernel/periodic_tasks.c for a process with a timer, to the
-- switch to the scheduler: the channel stays as it is.
unfoldable pub sys_wait_until_next_period : ℕ → ℕ → System → System
sys_wait_until_next_period c p s = record s {
  table = update s.table p (record (s.table p) { state = sleeping });
  cpu = update s.cpu c 0;
}

-- `period_callback` of proj3/kernel/timer.c for the timer of the process `p`
unfoldable pub period_callback : ℕ → Table → Table
period_callback p t =
    if is_sleeping (t p).state then update t p (record (t p) { state = runnable }) else t

-- How a pass of the loop of `wait` ends: -1, the child's identifier, or asleep on the caller.
pub data Waited : Type 0 where
  no_child : Waited
  bad_address : Waited
  reaped : ℕ → Waited
  waits : Waited

-- A pass of `wait`, under `wait_lock`. The scan stops at the first zombie child; `delivers` says
-- that `copyout` of its status succeeds, or that none is wanted.
unfoldable pub wait : ℕ → Bool → ℕ → System → Waited × System
wait c delivers p s =
    let child = find_proc (λ pp. (s.table pp).parent == p) nproc 1 in
    let dead =
      find_proc (λ pp. ((s.table pp).parent == p) && is_zombie (s.table pp).state) nproc 1 in
    if not (dead == 0)
    then (if delivers
        then (reaped (s.table dead).pid, record s { table = freeproc dead s.table })
        else (bad_address, s))
    else if (child == 0) || (s.table p).killed
    then (no_child, s)
    else (waits, sleep c p p s)

-- `kill`, with whether it returns 0
unfoldable pub kill : ℕ → Table → Bool × Table
kill pid t =
    let p = find_proc (λ p. (t p).pid == pid) nproc 1 in
    let state = if is_sleeping (t p).state then runnable else (t p).state in
    if p == 0
    then (false, t)
    else (true, update t p (record (t p) { killed = true; state = state }))

abbrev pub setkilled : ℕ → Table → Table
setkilled p t = update t p (record (t p) { killed = true })

-- `p->cpu_mask == -1 || p->cpu_mask == cpuid()`
abbrev pub allowed : ℕ → ℤ → Bool
allowed c (pos m) = m == c
allowed c (negsuc m) = m == 0

-- The body of the loop of `scheduler` on the CPU `c` at the process `p`, up to its `swtch`.
unfoldable pub schedule : ℕ → ℕ → System → System
schedule c p s =
    let switched = record s {
      table = update s.table p (record (s.table p) { state = running });
      cpu = update s.cpu c p;
    } in
    if is_runnable (s.table p).state && allowed c (s.table p).cpu_mask then switched else s

-- `procinit`, and `userinit` with the memory that it needs
unfoldable pub procinit : Table → Table
procinit t = rounds (λ p t. update t p (record (t p) { state = unused })) nproc 1 t

unfoldable pub userinit : System → System
userinit s =
    let (p, s1) = allocproc true s in
    record s1 { initproc = p; table = update s1.table p (record (s1.table p) { state = runnable }) }

-- `sys_set_cpu_affinity` of proj3/kernel/cpu_affinity.c
abbrev pub sys_set_cpu_affinity : ℕ → ℤ → Table → Table
sys_set_cpu_affinity p mask t = update t p (record (t p) { cpu_mask = mask })
