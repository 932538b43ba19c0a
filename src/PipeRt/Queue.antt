-- ===== src/PipeRt/Queue.antt =====
-- proj2/kernel/pipe_rt.c: `pq_insert` and `pq_remove` on the linked nodes.
use os_prioritypipes.Prelude.{
  ℕ, ◌≤◌, ◌≡◌, refl, false, inl, inr, none, some, List, [], ◌∷◌, arith, ◌==◌, Bool-cases, length,
}
use os_prioritypipes.Prelude.Sets.{ne_of_not-mem}
use os_prioritypipes.Prelude.Results.{ok, Returns, returns, bind}
use os_prioritypipes.Kalloc.Interface.{Allocator}
use os_prioritypipes.Task.{Task, Store, Nodes, write, gt_int}
use os_prioritypipes.Task.Cells.{
  Cells, addresses, first, node, Linked, Linked-write, load-ok, set_next-ok,
}
use os_prioritypipes.Task.Link.{link_loop-Linkage}
use os_prioritypipes.Task.Order.{above, insert, insert-nil, insert_front, insert_back}
use os_prioritypipes.Task.Pages.{IsQueue, fresh, inserted-IsQueue}
use os_prioritypipes.PipeRt.{zero_task, pq_insert, pq_remove}

module _ (pages : Allocator) where
  -- With the first free page for the new node, `pq_insert` links the task in its place.
  pub pq_insert-IsQueue :
      (fuel head p : ℕ) (t : Task) (s : Store pages) (cells : Cells) (free : List ℕ)
      → IsQueue pages s head cells (p ∷ free)
      → length cells ≤ fuel
      → Returns
          (λ r. IsQueue pages r.1 r.0 (insert above (p, t) cells) free)
          (pq_insert pages fuel head t s)
  unfolding pq_insert write
  pq_insert-IsQueue fuel head p t s [] free q le =
      let (e, nz, valid, out, f) = pages.alloc_cons s.memory p free q.free_list in
      let test : (p == 0) ≡ false = ground arith in
      let n : Nodes = write p (some (node t 0)) s.nodes in
      let at : n p ≡ some (node t 0) = ground arith in
      rw (e, test, q.head_first, set_next-ok n p 0 t nz at 0)
        (returns (
          inserted-IsQueue pages above s head p t [] free q p _ _ (rw (insert-nil above))
            (rw (insert-nil above) (nz, ground arith, tt)) f valid out))
  pq_insert-IsQueue fuel head p t s ((a, u) ∷ cs) free q le =
      let (e, nz, valid, out, f) = pages.alloc_cons s.memory p free q.free_list in
      let test : (p == 0) ≡ false = ground arith in
      let test2 : (a == 0) ≡ false = ground (arith, q.linked) in
      let n : Nodes = write p (some (node t 0)) s.nodes in
      let at : n p ≡ some (node t 0) = ground arith in
      let away = fresh pages above s head p t ((a, u) ∷ cs) free q in
      let l : Linked n ((a, u) ∷ cs) =
        Linked-write s.nodes p (some (node t 0)) ((a, u) ∷ cs) away q.linked in
      rw (e, test, q.head_first, test2, load-ok n a (first cs) u l.0 l.1)
        (elim (Bool-cases (gt_int t.priority u.priority)) [
          | inl front ↦
              rw (front, set_next-ok n p 0 t nz at a)
                (returns (
                  inserted-IsQueue pages above s head p t ((a, u) ∷ cs) free q p _ _
                    (rw (insert_front above (p, t) (a, u) cs front))
                    (rw (insert_front above (p, t) (a, u) cs front)
                      (nz, ground arith, Linked-write n p (some (node t a)) ((a, u) ∷ cs) away l))
                    f valid out))
          | inr behind ↦ rw behind (
              bind
                (link_loop-Linkage above p t nz fuel n a 0 u cs l q.distinct away at (omega arith))
                λ now k. returns (
                  inserted-IsQueue pages above s head p t ((a, u) ∷ cs) free q a _ _
                    (rw (insert_back above (p, t) (a, u) cs behind))
                    (rw (insert_back above (p, t) (a, u) cs behind) k.linked) f valid out))
        ])

  -- When no page is free the task is dropped, and nothing else changes.
  pub pq_insert_full :
      (fuel head : ℕ) (t : Task) (s : Store pages) (cells : Cells)
      → IsQueue pages s head cells []
      → pq_insert pages fuel head t s ≡ ok (head, s)
  unfolding pq_insert
  pq_insert_full fuel head t s cells q = rw (pages.alloc_nil s.memory q.free_list)

  -- `pq_remove` returns the first task, unlinks its node and frees the page.
  pub pq_remove-IsQueue :
      (head a : ℕ) (t : Task) (s : Store pages) (cells : Cells) (free : List ℕ)
      → IsQueue pages s head ((a, t) ∷ cells) free
      → Returns (λ r. (r.0 ≡ t) × IsQueue pages r.2 r.1 cells (a ∷ free)) (pq_remove pages head s)
  unfolding pq_remove
  pq_remove-IsQueue head a t s cells free q =
      let (nz, at, rest) = q.linked in
      let test : (a == 0) ≡ false = ground arith in
      rw (q.head_first, test, load-ok s.nodes a (first cells) t nz at)
        (bind (pages.release_free a s.memory free q.valid.0 (ground (arith, q.apart a)) q.free_list)
          λ memory f. returns (
            refl,
            record {
              head_first = refl;
              linked = Linked-write s.nodes a none cells q.distinct.0 rest;
              distinct = q.distinct.1;
              valid = q.valid.1;
              free_list = f;
              apart = λ b i.
                  ground (arith, q.apart b, ne_of_not-mem b a (addresses cells) i q.distinct.0);
            },
          ))

  pub pq_remove_empty :
      (head : ℕ) (s : Store pages) (free : List ℕ)
      → IsQueue pages s head [] free
      → pq_remove pages head s ≡ ok (zero_task, 0, s)
  unfolding pq_remove
  pq_remove_empty head s free q = rw q.head_first
