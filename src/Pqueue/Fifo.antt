-- ===== src/Pqueue/Fifo.antt =====
-- proj2/kernel/pqueue.c: first in, first out among tasks of one priority, and what goes wrong.
use os_prioritypipes.Prelude.{
  ℕ, ◌≤◌, ◌≡◌, refl, true, false, inl, inr, none, some, List, [], ◌∷◌, arith, ◌==◌, Bool-cases,
  length, ◌++◌,
}
use os_prioritypipes.Prelude.Int.{ℤ}
use os_prioritypipes.Prelude.Sets.{ne_of_not-mem}
use os_prioritypipes.Prelude.Results.{panic, Returns, returns, mono, bind}
use os_prioritypipes.Kalloc.Interface.{Allocator}
use os_prioritypipes.Task.{Task, Store, Nodes, load, write, gt_int}
use os_prioritypipes.Task.Cells.{
  Cells, addresses, first, node, Linked, Linked-write, load-ok, set_next-ok,
}
use os_prioritypipes.Task.Link.{link_loop-Linkage}
use os_prioritypipes.Task.Order.{
  not_below, not_below-IsOrder, insert, insert-nil, insert_front, insert_back, IsSorted,
  insert-IsSorted, of_priority, insert-fifo,
}
use os_prioritypipes.Task.Pages.{IsQueue, fresh, inserted-IsQueue}
use os_prioritypipes.Pqueue.{Pqueue, pqueue_init, pqueue_push, pqueue_pop, pqueue_empty}

-- a queue whose lock is set
abbrev pub locked : ℕ → Pqueue
locked head = record { head = head; lock = true }

module _ (pages : Allocator) where
  pqueue_push-IsQueue :
      (fuel p : ℕ) (head : ℕ) (t : Task) (s : Store pages) (cells : Cells) (free : List ℕ)
      → IsQueue pages s head cells (p ∷ free)
      → length cells ≤ fuel
      → Returns
          (λ r. IsQueue pages r.1 r.0.head (insert not_below (p, t) cells) free × (r.0.lock ≡ true))
          (pqueue_push pages fuel (locked head) t s)
  unfolding pqueue_push write
  pqueue_push-IsQueue fuel p head t s [] free q le =
      let (e, nz, valid, out, f) = pages.alloc_cons s.memory p free q.free_list in
      let test : (p == 0) ≡ false = ground arith in
      let n : Nodes = write p (some (node t 0)) s.nodes in
      let at : n p ≡ some (node t 0) = ground arith in
      rw (e, test, q.head_first, set_next-ok n p 0 t nz at 0)
        (returns (
          inserted-IsQueue pages not_below s head p t [] free q p _ _ (rw (insert-nil not_below))
              (rw (insert-nil not_below) (nz, ground arith, tt)) f valid out,
          refl,
        ))
  pqueue_push-IsQueue fuel p head t s ((a, u) ∷ cs) free q le =
      let (e, nz, valid, out, f) = pages.alloc_cons s.memory p free q.free_list in
      let test : (p == 0) ≡ false = ground arith in
      let test2 : (a == 0) ≡ false = ground (arith, q.linked) in
      let n : Nodes = write p (some (node t 0)) s.nodes in
      let at : n p ≡ some (node t 0) = ground arith in
      let away = fresh pages not_below s head p t ((a, u) ∷ cs) free q in
      let l : Linked n ((a, u) ∷ cs) =
        Linked-write s.nodes p (some (node t 0)) ((a, u) ∷ cs) away q.linked in
      rw (e, test, q.head_first, test2, load-ok n a (first cs) u l.0 l.1)
        (elim (Bool-cases (gt_int t.priority u.priority)) [
          | inl front ↦
              rw (front, set_next-ok n p 0 t nz at a)
                (returns (
                  inserted-IsQueue pages not_below s head p t ((a, u) ∷ cs) free q p _ _
                      (rw (insert_front not_below (p, t) (a, u) cs front))
                      (rw (insert_front not_below (p, t) (a, u) cs front)
                        (nz, ground arith, Linked-write n p (some (node t a)) ((a, u) ∷ cs) away l))
                      f valid out,
                  refl,
                ))
          | inr behind ↦ rw behind (
              bind
                (link_loop-Linkage not_below p t nz fuel n a 0 u cs l q.distinct away at
                  (omega arith))
                λ now k. returns (
                  inserted-IsQueue pages not_below s head p t ((a, u) ∷ cs) free q a _ _
                      (rw (insert_back not_below (p, t) (a, u) cs behind))
                      (rw (insert_back not_below (p, t) (a, u) cs behind) k.linked) f valid out,
                  refl,
                ))
        ])

  -- With the lock set and a page free, `pqueue_push` puts the task on that page into the queue,
  -- keeps the queue sorted by priority, and keeps the tasks of each priority in their order of
  -- arrival, the new one last.
  pub pqueue_push-fifo :
      (fuel p : ℕ) (head : ℕ) (t : Task) (s : Store pages) (cells : Cells) (free : List ℕ)
      → IsQueue pages s head cells (p ∷ free)
      → IsSorted cells
      → length cells ≤ fuel
      → Returns
          (λ r.
            (after : Cells) × IsQueue pages r.1 r.0.head after free
            × IsSorted after
            × ((q : ℤ) → of_priority q after ≡ of_priority q cells ++ of_priority q ((p, t) ∷ [])))
          (pqueue_push pages fuel (locked head) t s)
  pqueue_push-fifo fuel p head t s cells free q so le =
      mono (pqueue_push-IsQueue fuel p head t s cells free q le) λ r (q', _). (
        insert not_below (p, t) cells,
        q',
        insert-IsSorted not_below (p, t) not_below-IsOrder cells so,
        λ k. insert-fifo k (p, t) cells so,
      )

  -- With the lock set, `pqueue_pop` takes the first task off, and the pointer that it returns is
  -- to the page that it has just freed: to load the task through it is a fault.
  pub pqueue_pop_dangles :
      (a : ℕ) (t : Task) (head : ℕ) (s : Store pages) (cells : Cells) (free : List ℕ)
      → IsQueue pages s head ((a, t) ∷ cells) free
      → Returns
          (λ r.
            IsQueue pages r.2 r.1.head cells (a ∷ free) × (r.0 ≡ a) × (load r.0 r.2.nodes ≡ panic))
          (pqueue_pop pages (locked head) s)
  unfolding pqueue_pop load write
  pqueue_pop_dangles a t head s cells free q =
      let (nz, at, rest) = q.linked in
      let test : (a == 0) ≡ false = ground arith in
      rw (q.head_first, test)
        (rw at (
          bind
            (pages.release_free a s.memory free q.valid.0 (ground (arith, q.apart a)) q.free_list)
            λ memory f. returns (
              record {
                head_first = refl;
                linked = Linked-write s.nodes a none cells q.distinct.0 rest;
                distinct = q.distinct.1;
                valid = q.valid.1;
                free_list = f;
                apart = λ b i.
                    ground (arith, q.apart b, ne_of_not-mem b a (addresses cells) i q.distinct.0);
              },
              refl,
              ground arith,
            )))

  -- A queue as `pqueue_init` leaves it has no lock, and every operation on it faults.
  pub pqueue_init_faults :
      (fuel : ℕ) (t : Task) (s : Store pages)
      → (pqueue_push pages fuel pqueue_init t s ≡ panic)
        × (pqueue_pop pages pqueue_init s ≡ panic)
        × (pqueue_empty pages pqueue_init ≡ panic)
  unfolding pqueue_init pqueue_push pqueue_pop pqueue_empty
  pqueue_init_faults fuel t s = (ground arith, refl, refl)

  -- With no page free, `pqueue_push` writes through the null pointer.
  pub pqueue_push_faults :
      (fuel : ℕ) (pq : Pqueue) (t : Task) (s : Store pages)
      → pages.Free s.memory []
      → pqueue_push pages fuel pq t s ≡ panic
  unfolding pqueue_push
  pqueue_push_faults fuel pq t s f = rw (pages.alloc_nil s.memory f)
