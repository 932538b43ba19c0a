-- ===== src/PipeRt/Messages.antt =====
-- proj2/kernel/pipe_rt.c: what `pipe_rt_write` and `pipe_rt_read` do on each branch.
use os_prioritypipes.Prelude.{
  ℕ, ◌≤◌, ◌≡◌, refl, Bool, true, false, ◌&&◌, Option, none, some, List, [], ◌∷◌, arith, ◌==◌,
  if◌then◌else◌, length, All, ◌⊎◌,
}
use os_prioritypipes.Prelude.Int.{pos, ◌≤ℤ◌}
use os_prioritypipes.Prelude.Results.{ok, Returns, returns, bind}
use os_prioritypipes.Kalloc.Interface.{Allocator}
use os_prioritypipes.Task.{Task, Store, gt_int}
use os_prioritypipes.Task.Cells.{Cells}
use os_prioritypipes.Task.Order.{above, above-IsOrder, insert, IsSorted, insert-IsSorted}
use os_prioritypipes.Task.Pages.{IsQueue}
use os_prioritypipes.PipeRt.{
  task_size, failure, Pipe, Answer, pipe_rt_write, sleeps, reads, pipe_rt_read,
}
use os_prioritypipes.PipeRt.Queue.{pq_insert-IsQueue, pq_insert_full, pq_remove-IsQueue}

module _ (pages : Allocator) where
  -- the pipe holds the cells, sorted, while the pages `free` are free
  pub record Holds (p : Pipe) (s : Store pages) (cells : Cells) (free : List ℕ) : Type 0 where
    pub queue : IsQueue pages s p.head cells free
    pub sorted : IsSorted cells

  -- If a page is free, an open pipe with a reader takes a task that could be copied: it links it in
  -- its place on that page, keeps the queue sorted, wakes the readers and returns the size of a task.
  -- Only `head` changes in the pipe.
  pub pipe_rt_write_stores :
      (fuel a : ℕ) (p : Pipe) (t : Task) (s : Store pages) (cells : Cells) (free : List ℕ)
      → p.active ≡ true
      → gt_int p.nread (pos 0) ≡ true
      → Holds p s cells (a ∷ free)
      → length cells ≤ fuel
      → Returns
          (λ r.
            (r.value ≡ task_size)
            × Holds r.pipe r.store (insert above (a, t) cells) free
            × (r.pipe ≡ record p { head = r.pipe.head })
            × (r.wakes ≡ true))
          (pipe_rt_write pages fuel p (some t) s)
  unfolding pipe_rt_write
  pipe_rt_write_stores fuel a p t s cells free act rd h le =
      rw (act, rd)
        (bind (pq_insert-IsQueue pages fuel p.head a t s cells free h.queue le) λ r q. returns (
          refl,
          record { queue = q; sorted = insert-IsSorted above (a, t) above-IsOrder cells h.sorted },
          refl,
          refl,
        ))

  -- With no page free the task is lost: the pipe and the store are unchanged, and still the call
  -- returns the size of a task and wakes the readers.
  pub pipe_rt_write_loses :
      (fuel : ℕ) (p : Pipe) (t : Task) (s : Store pages) (cells : Cells)
      → p.active ≡ true
      → gt_int p.nread (pos 0) ≡ true
      → Holds p s cells []
      → pipe_rt_write pages fuel p (some t) s
        ≡ ok (record { value = task_size; pipe = p; store = s; wakes = true })
  unfolding pipe_rt_write
  pipe_rt_write_loses fuel p t s cells act rd h =
      rw (act, rd, pq_insert_full pages fuel p.head t s cells h.queue)

  -- A pipe that is not active, or has no reader, or a failed copy: -1 and no change, for any queue.
  pub pipe_rt_write_refuses :
      (fuel : ℕ) (p : Pipe) (copied : Option Task) (s : Store pages)
      → (p.active ≡ false) ⊎ (gt_int p.nread (pos 0) ≡ false) ⊎ (copied ≡ none)
      → pipe_rt_write pages fuel p copied s
        ≡ ok (record { value = failure; pipe = p; store = s; wakes = false })
  unfolding pipe_rt_write
  pipe_rt_write_refuses fuel p none s h = ground arith
  pipe_rt_write_refuses fuel p (some t) s h = ground arith

  -- A pipe with tasks never puts its reader to sleep. It gives up the first task, which no task in
  -- the queue exceeds in priority, and frees its page; the task is delivered if the copy to the
  -- user succeeds, and otherwise it is gone and the call returns -1.
  pub pipe_rt_read_highest :
      (a : ℕ) (t : Task) (p : Pipe) (delivers : Bool) (s : Store pages) (cells : Cells)
      (free : List ℕ)
      → Holds p s ((a, t) ∷ cells) free
      → All (λ d. d.1.priority ≤ℤ t.priority) cells
        × Returns
            (λ r.
              (ans : Answer pages) × (r ≡ reads ans (if delivers then some t else none))
              × (ans.value ≡ (if delivers then task_size else failure))
              × Holds ans.pipe ans.store cells (a ∷ free)
              × (ans.pipe ≡ record p { head = ans.pipe.head }))
            (pipe_rt_read pages p delivers s)
  unfolding pipe_rt_read
  pipe_rt_read_highest a t p delivers s cells free h =
      let some_head : (p.head == 0) ≡ false = ground (arith, h.queue.head_first, h.queue.linked) in
      (
        h.sorted.0,
        rw some_head (
            bind (pq_remove-IsQueue pages p.head a t s cells free h.queue) λ r (e, q). returns (
              record {
                value = if delivers then task_size else failure;
                pipe = record p { head = r.1 };
                store = r.2;
                wakes = false;
              },
              rw e,
              refl,
              record { queue = q; sorted = h.sorted.1 },
              refl,
            )),
      )

  -- On an empty queue a reader sleeps exactly while the pipe is active and has a writer; otherwise
  -- the call returns -1, and nothing changes either way.
  pub pipe_rt_read_empty :
      (p : Pipe) (delivers : Bool) (s : Store pages) (free : List ℕ)
      → Holds p s [] free
      → pipe_rt_read pages p delivers s ≡ (
          if p.active && gt_int p.nwrite (pos 0)
          then ok sleeps
          else ok (reads (record { value = failure; pipe = p; store = s; wakes = false }) none))
  unfolding pipe_rt_read
  pipe_rt_read_empty p delivers s free h = rw h.queue.head_first
