-- ===== src/PipeRt/Ends.antt =====
-- proj2/kernel/pipe_rt.c: `pipe_rt_close`.
use os_prioritypipes.Prelude.{
  ℕ, zero, suc, ◌<◌, ◌≡◌, refl, Bool, true, false, ◌&&◌, not, inl, inr, List, [], ◌∷◌, arith, ◌==◌,
  if◌then◌else◌, Bool-cases, length,
}
use os_prioritypipes.Prelude.Results.{Returns, returns, bind}
use os_prioritypipes.Kalloc.Interface.{Allocator}
use os_prioritypipes.Task.{Store}
use os_prioritypipes.Task.Cells.{Cells}
use os_prioritypipes.Task.Pages.{IsQueue}
use os_prioritypipes.PipeRt.{Pipe, drain_loop, close_end, is_zero, pipe_rt_close}
use os_prioritypipes.PipeRt.Queue.{pq_remove-IsQueue}

-- the free pages after the pages of the cells are freed in order
unfoldable pub released : Cells → List ℕ → List ℕ
released [] free = free
released (c ∷ cs) free = released cs (c.0 ∷ free)

close_end_keeps :
    (p : Pipe) (writable : Bool)
    → ((close_end p writable).head ≡ p.head) × ((close_end p writable).active ≡ p.active)
unfolding close_end
close_end_keeps p writable = ground arith

module _ (pages : Allocator) where
  drain_loop-IsQueue :
      (k head : ℕ) (s : Store pages) (cells : Cells) (free : List ℕ)
      → IsQueue pages s head cells free
      → length cells < k
      → Returns
          (λ r. (r.0 ≡ 0) × IsQueue pages r.1 r.0 [] (released cells free))
          (drain_loop pages k head s)
  unfolding drain_loop released
  drain_loop-IsQueue zero head s cells free q le = absurd (omega arith)
  drain_loop-IsQueue (suc k) head s [] free q le =
      let test : (head == 0) ≡ true = ground (arith, q.head_first) in
      rw test (returns (q.head_first, q))
  drain_loop-IsQueue (suc k) head s ((a, t) ∷ cs) free q le =
      let test : (head == 0) ≡ false = ground (arith, q.head_first, q.linked) in
      rw test (
        bind (pq_remove-IsQueue pages head a t s cs free q)
          λ r (e, q'). drain_loop-IsQueue k r.1 r.2 cs (a ∷ free) q' (omega arith))

  -- Closing counts one end down. While an end is left, the queue and `active` stay; when none is,
  -- every task is dropped, the pages of all nodes are free again, and the pipe is no longer active.
  -- Readers are woken when a writer closes.
  pub pipe_rt_close-IsQueue :
      (fuel : ℕ) (p : Pipe) (writable : Bool) (s : Store pages) (cells : Cells) (free : List ℕ)
      → IsQueue pages s p.head cells free
      → length cells < fuel
      → let p' = close_end p writable in
        let last = is_zero p'.nwrite && is_zero p'.nread in
        Returns
          (λ r.
            (r.wakes ≡ writable)
            × (r.pipe.nwrite ≡ p'.nwrite)
            × (r.pipe.nread ≡ p'.nread)
            × (r.pipe.active ≡ (p.active && not last))
            × IsQueue pages r.store r.pipe.head
                (if last then [] else cells)
                (if last then released cells free else free))
          (pipe_rt_close pages fuel p writable s)
  unfolding pipe_rt_close
  pipe_rt_close-IsQueue fuel p writable s cells free q le =
      let p' = close_end p writable in
      let (eh, ea) = close_end_keeps p writable in
      elim (Bool-cases (is_zero p'.nwrite && is_zero p'.nread)) [
        | inl last ↦
            rw (last, eh)
              (bind (drain_loop-IsQueue fuel p.head s cells free q le)
                λ r (e, q'). returns (refl, refl, refl, ground arith, q'))
        | inr more ↦ rw more (returns (refl, refl, refl, ground (arith, ea), rw eh q))
      ]
