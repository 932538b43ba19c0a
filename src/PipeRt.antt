-- ===== src/PipeRt.antt =====
-- proj2/kernel/pipe_rt.c: a pipe that hands out the task of highest priority first. A call runs
-- with the pipe's lock held, so each is one step, up to the point where a reader sleeps. `copied`
-- is what `copyin` has copied from user memory, and `delivers` whether `copyout` succeeds.
use os_prioritypipes.Prelude.{
  ℕ, zero, suc, Bool, true, false, ◌&&◌, ◌||◌, not, Option, none, some, ◌==◌, if◌then◌else◌,
  Bool-cases,
}
use os_prioritypipes.Prelude.Int.{ℤ, pos, negsuc, ◌-ℤ◌}
use os_prioritypipes.Prelude.Results.{Result, ok, panic, ◌>>=◌}
use os_prioritypipes.Kalloc.Interface.{Allocator}
use os_prioritypipes.Task.{Task, Store, Nodes, load, write, set_next, link_loop, gt_int, ge_int}
use os_prioritypipes.Task.Cells.{node}
use os_prioritypipes.Task.Order.{above}
pub mod Queue
pub mod Messages
pub mod Ends
mod Tests

-- `struct task_t task = {0};`
abbrev pub zero_task : Task
zero_task = record {
  priority = pos 0;
  pid = pos 0;
  x = pos 0;
  y = pos 0;
  op = 0;
  result = 0;
  error = 0;
}

-- `sizeof(struct task_t)` on RISC-V with 64-bit pointers
abbrev pub task_size : ℤ
task_size = pos 40

-- the return value -1
abbrev pub failure : ℤ
failure = negsuc 0

-- `struct pipe_rt` less its lock. `active` is tested for zero only.
pub record Pipe : Type 0 where
  pub head : ℕ
  pub nwrite : ℤ
  pub nread : ℤ
  pub active : Bool

-- The first half of `pipe_rt_close`, which counts an end down.
unfoldable pub close_end : Pipe → Bool → Pipe
close_end p writable =
    if writable
    then record p { nwrite = p.nwrite -ℤ pos 1 }
    else record p { nread = p.nread -ℤ pos 1 }

abbrev pub is_zero : ℤ → Bool
is_zero a = not (gt_int a (pos 0)) && ge_int a (pos 0)

module _ (pages : Allocator) where
  -- The pointer to the first node, and the store, after an insertion. The loop runs on fuel.
  unfoldable pub pq_insert : ℕ → ℕ → Task → Store pages → Result (ℕ × Store pages)
  pq_insert fuel head task s =
      let (p, memory) = pages.alloc s.memory in
      let nodes = write p (some (node task 0)) s.nodes in
      let in_front =
        (set_next p head nodes >>= λ after. ok (p, record { memory = memory; nodes = after })) in
      let behind =
        (link_loop above fuel head p task nodes >>= λ after.
        ok (head, record { memory = memory; nodes = after })) in
      let compared =
        (load head nodes >>= λ h.
        if gt_int task.priority h.task.priority then in_front else behind) in
      if p == 0
      then ok (head, record { memory = memory; nodes = s.nodes })
      else if head == 0
      then in_front
      else compared

  -- The task, the pointer to the first node, and the store, after a removal.
  unfoldable pub pq_remove : ℕ → Store pages → Result (Task × ℕ × Store pages)
  pq_remove head s =
      let taken =
        (load head s.nodes >>= λ n. pages.release head s.memory >>= λ memory.
        ok (n.task, n.next, record { memory = memory; nodes = write head none s.nodes })) in
      if head == 0 then ok (zero_task, 0, s) else taken

  -- What a call leaves behind: its return value, the pipe and the store, and whether it called
  -- `wakeup(&p->nread)`.
  pub record Answer : Type 0 where
    pub value : ℤ
    pub pipe : Pipe
    pub store : Store pages
    pub wakes : Bool

  unfoldable pub pipe_rt_write : ℕ → Pipe → Option Task → Store pages → Result Answer
  pipe_rt_write fuel p copied s =
      let refused : Answer = record { value = failure; pipe = p; store = s; wakes = false } in
      if not p.active || not (gt_int p.nread (pos 0)) then ok refused else elim copied [
        | none ↦ ok refused
        | some task ↦ pq_insert fuel p.head task s >>= λ r. ok (record {
          value = task_size;
          pipe = record p { head = r.0 };
          store = r.1;
          wakes = true;
        })
      ]

  -- A reader sleeps, or returns with the task that it has copied to its user, if any.
  pub data Read : Type 0 where
    sleeps : Read
    reads : Answer → Option Task → Read

  -- A pass of the loop of `pipe_rt_read`; a reader that slept makes another when it wakes up.
  unfoldable pub pipe_rt_read : Pipe → Bool → Store pages → Result Read
  pipe_rt_read p delivers s =
      if p.head == 0
      then (if p.active && gt_int p.nwrite (pos 0)
          then ok sleeps
          else ok (reads (record { value = failure; pipe = p; store = s; wakes = false }) none))
      else (pq_remove p.head s >>= λ r. ok (
          reads
            (record {
              value = if delivers then task_size else failure;
              pipe = record p { head = r.1 };
              store = r.2;
              wakes = false;
            })
            (if delivers then some r.0 else none)))

  -- `while (p->head) pq_remove(&p->head);`, one unit of fuel for a round
  unfoldable pub drain_loop : ℕ → ℕ → Store pages → Result (ℕ × Store pages)
  drain_loop zero head s = panic
  drain_loop (suc k) head s =
      let rest = (pq_remove head s >>= λ r. drain_loop k r.1 r.2) in
      if head == 0 then ok (head, s) else rest

  -- `pipe_rt_close` returns nothing: the value of its answer is 0.
  unfoldable pub pipe_rt_close : ℕ → Pipe → Bool → Store pages → Result Answer
  pipe_rt_close fuel p writable s =
      let p' = close_end p writable in
      let drained =
        (drain_loop fuel p'.head s >>= λ r. ok (record {
          value = pos 0;
          pipe = record p' { head = r.0; active = false };
          store = r.1;
          wakes = writable;
        })) in
      if is_zero p'.nwrite && is_zero p'.nread
      then drained
      else ok (record { value = pos 0; pipe = p'; store = s; wakes = writable })
