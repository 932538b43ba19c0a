-- ===== src/Pqueue.antt =====
-- proj2/kernel/pqueue.c: a queue of tasks behind a pointer to a lock. The lock makes a call one
-- step; `lock` says whether the pointer is set, since `acquire` faults at the null pointer.
use os_prioritypipes.Prelude.{
  ℕ, zero, suc, ◌+◌, Bool, true, false, ◌&&◌, not, Option, none, some, ◌==◌, if◌then◌else◌,
}
use os_prioritypipes.Prelude.Int.{ℤ, pos}
use os_prioritypipes.Prelude.Results.{Result, ok, panic, ◌>>=◌, ◌>>◌, panic_if}
use os_prioritypipes.Kalloc.Interface.{Allocator}
use os_prioritypipes.Task.{Task, Store, load, write, set_next, link_loop, gt_int}
use os_prioritypipes.Task.Cells.{node}
use os_prioritypipes.Task.Order.{not_below}
pub mod Fifo
mod Tests

-- `struct pqueue`
pub record Pqueue : Type 0 where
  pub head : ℕ
  pub lock : Bool

unfoldable pub pqueue_init : Pqueue
pqueue_init = record { head = 0; lock = false }

-- `acquire(pq->lock)`
abbrev pub acquire : Pqueue → Result (Unit {0})
acquire pq = panic_if (not pq.lock)

module _ (pages : Allocator) where
  -- The result of `kalloc` is stored through unchecked: with no page free, at the null pointer.
  -- The value returned is 0 on every path.
  unfoldable pub pqueue_push : ℕ → Pqueue → Task → Store pages → Result (Pqueue × Store pages)
  pqueue_push fuel pq task s =
      let (p, memory) = pages.alloc s.memory in
      let nodes = write p (some (node task 0)) s.nodes in
      let in_front =
        (set_next p pq.head nodes >>= λ after.
        ok (record pq { head = p }, record { memory = memory; nodes = after })) in
      let behind =
        (link_loop not_below fuel pq.head p task nodes >>= λ after.
        ok (pq, record { memory = memory; nodes = after })) in
      let compared =
        (load pq.head nodes >>= λ h.
        if gt_int task.priority h.task.priority then in_front else behind) in
      panic_if (p == 0) >> (acquire pq >> (if pq.head == 0 then in_front else compared))

  -- The pointer that is returned, null for an empty queue, else into the node that was freed.
  unfoldable pub pqueue_pop : Pqueue → Store pages → Result (ℕ × Pqueue × Store pages)
  pqueue_pop pq s =
      let popped =
        (load pq.head s.nodes >>= λ n. pages.release pq.head s.memory >>= λ memory. ok (
          pq.head,
          record pq { head = n.next },
          record { memory = memory; nodes = write pq.head none s.nodes },
        )) in
      acquire pq >> (if pq.head == 0 then ok (0, pq, s) else popped)

  unfoldable pub pqueue_empty : Pqueue → Result Bool
  pqueue_empty pq = acquire pq >> ok (pq.head == 0)
