-- ===== src/Files/Making.antt =====
-- kernel/pipe.c and proj2/kernel/pipe_rt.c: `pipealloc` and `pipe_rt_alloc`, with their error paths.
use os_prioritypipes.Prelude.{
  ℕ, ◌≡◌, ◌≢◌, refl, ap, inl, inr, false, none, some, List, [], ◌∷◌, arith, ◌==◌, if◌then◌else◌,
  ==_self,
}
use os_prioritypipes.Prelude.Maps.{update}
use os_prioritypipes.Prelude.Sets.{has}
use os_prioritypipes.Prelude.Results.{ok, Returns, returns}
use os_prioritypipes.Kalloc.Interface.{Allocator}
use os_prioritypipes.Files.{
  Kind, fd_pipe, fd_pipe_rt, Table, open_ends, give_up, pipealloc, pipe_rt_alloc,
}
use os_prioritypipes.Files.Counts.{not-held_kind, Counted, filealloc-Counted}
use os_prioritypipes.Files.Outcomes.{
  Counted-open, Outcome, success, Taken, taken_none, taken_one, taken_two, give_up-Outcome,
}

module _ (pages : Allocator) where
  abbrev taking : ℕ → Table → Table
  taking f t = update t f (record (t f) { ref = 1 })

  one-Taken :
      (t : Table) (held : List ℕ) (f0 : ℕ)
      → Counted t held
      → has f0 held ≡ false
      → Counted (taking f0 t) (f0 ∷ held)
      → Taken pages (taking f0 t) held (some f0) none
  one-Taken t held f0 c new c0 = taken_one new (rw (==_self f0) (not-held_kind t held f0 c new)) c0

  two-Taken :
      (t : Table) (held : List ℕ) (f0 f1 : ℕ)
      → Counted t held
      → has f0 held ≡ false
      → has f1 (f0 ∷ held) ≡ false
      → Counted (taking f1 (taking f0 t)) (f1 ∷ f0 ∷ held)
      → Taken pages (taking f1 (taking f0 t)) held (some f0) (some f1)
  two-Taken t held f0 f1 c new0 new1 c1 =
      let k0 = not-held_kind t held f0 c new0 in
      let k1 = not-held_kind t held f1 c (ground arith) in
      taken_two new0 new1 (ground arith) (ground arith) c1

  -- the end of an allocation that has its files and its page
  opened-Outcome :
      (kind : Kind) (t : Table) (held : List ℕ) (f0 f1 x : ℕ) (rest : List ℕ) (memory : pages.State)
      → has f0 held ≡ false
      → has f1 (f0 ∷ held) ≡ false
      → Counted t (f1 ∷ f0 ∷ held)
      → pages.Free memory rest
      → Outcome pages kind held (x ∷ rest) (record {
        made = some (f0, f1, x);
        table = open_ends kind x f0 f1 t;
        memory = memory;
        closings = [];
      })
  opened-Outcome kind t held f0 f1 x rest memory new0 new1 c free =
      let ne : f0 ≢ f1 = ground arith in
      let r0 : (t f0).ref ≢ 0 = ground (arith, c.refs f0) in
      let r1 : (t f1).ref ≢ 0 = ground (arith, c.refs f1) in
      success f0 f1 x rest refl refl new0 new1
        (Counted-open kind x f0 f1 t (f1 ∷ f0 ∷ held) r0 r1 c) free
        (ground arith, ground arith, ground arith, ground arith)
        (ground arith, ground arith, ground arith, ground arith)

  page_of :
      (t : Table) (held xs : List ℕ) (f0 f1 : ℕ) (memory : pages.State)
      → has f0 held ≡ false
      → has f1 (f0 ∷ held) ≡ false
      → Taken pages t held (some f0) (some f1)
      → Counted t (f1 ∷ f0 ∷ held)
      → pages.Free memory xs
      → Returns (Outcome pages fd_pipe held xs) (
          if (pages.alloc memory).0 == 0
          then give_up pages 0 (some f0) (some f1) t (pages.alloc memory).1
          else ok (record {
            made = some (f0, f1, (pages.alloc memory).0);
            table = open_ends fd_pipe (pages.alloc memory).0 f0 f1 t;
            memory = (pages.alloc memory).1;
            closings = [];
          }))
  page_of t held [] f0 f1 memory new0 new1 taken c free =
      rw (pages.alloc_nil memory free)
        (give_up-Outcome pages fd_pipe 0 t held [] memory (returns free) taken)
  page_of t held (x ∷ rest) f0 f1 memory new0 new1 taken c free =
      let a = pages.alloc_cons memory x rest free in
      let some_page : (x == 0) ≡ false = ground (arith, a.1) in
      rw (a.0, some_page)
        (returns
          (opened-Outcome fd_pipe t held f0 f1 x rest (pages.alloc memory).1 new0 new1 c a.4))

  -- `pipealloc` does not panic. It makes a pipe, or fails and leaves no file and no page taken.
  pub pipealloc-Outcome :
      (t : Table) (held xs : List ℕ) (memory : pages.State)
      → Counted t held
      → pages.Free memory xs
      → Returns (Outcome pages fd_pipe held xs) (pipealloc pages t memory)
  unfolding pipealloc
  pipealloc-Outcome t held xs memory c free = elim (filealloc-Counted t held c) [
    | inl (e, all) ↦
        rw (pipealloc, ap (λ r. r.0) e, ap (λ r. r.1) e)
          (give_up-Outcome pages fd_pipe 0 t held xs memory (returns free) (taken_none c))
    | inr (f0, e, lt, new, c0) ↦ elim (filealloc-Counted (taking f0 t) (f0 ∷ held) c0) [
      | inl (e', all) ↦
          rw
            (
              pipealloc,
              ap (λ r. r.0) e,
              ap (λ r. r.1) e,
              ap (λ r. r.0) e',
              ap (λ r. r.1) e,
              ap (λ r. r.1) e',
            )
            (give_up-Outcome pages fd_pipe 0 (taking f0 t) held xs memory (returns free)
              (one-Taken t held f0 c new c0))
      | inr (f1, e', lt', new', c1) ↦
          rw
            (
              pipealloc,
              ap (λ r. r.0) e,
              ap (λ r. r.1) e,
              ap (λ r. r.0) e',
              ap (λ r. r.1) e,
              ap (λ r. r.1) e',
            )
            (page_of (taking f1 (taking f0 t)) held xs f0 f1 memory new new'
              (two-Taken t held f0 f1 c new new' c1) c1 free)
    ]
  ]

  -- `pipe_rt_alloc` takes the page first, and gives it back if it gets no files: it too makes a
  -- pipe, or leaves no file and no page taken.
  pub pipe_rt_alloc-Outcome :
      (t : Table) (held xs : List ℕ) (memory : pages.State)
      → Counted t held
      → pages.Free memory xs
      → Returns (Outcome pages fd_pipe_rt held xs) (pipe_rt_alloc pages t memory)
  unfolding pipe_rt_alloc
  pipe_rt_alloc-Outcome t held [] memory c free =
      rw (pipe_rt_alloc, pages.alloc_nil memory free)
        (give_up-Outcome pages fd_pipe_rt 0 t held [] memory (returns free) (taken_none c))
  pipe_rt_alloc-Outcome t held (x ∷ rest) memory c free =
      let a = pages.alloc_cons memory x rest free in
      let some_page : (x == 0) ≡ false = ground (arith, a.1) in
      let freed : Returns (λ m. pages.Free m (x ∷ rest))
          (if x == 0 then ok (pages.alloc memory).1 else pages.release x (pages.alloc memory).1) =
        rw some_page (pages.release_free x (pages.alloc memory).1 rest a.2 a.3 a.4) in
      elim (filealloc-Counted t held c) [
        | inl (e, all) ↦
            rw (pipe_rt_alloc, a.0, some_page, ap (λ r. r.0) e, ap (λ r. r.1) e, a.0)
              (give_up-Outcome pages fd_pipe_rt x t held (x ∷ rest) (pages.alloc memory).1 freed
                (taken_none c))
        | inr (f0, e, lt, new, c0) ↦ elim (filealloc-Counted (taking f0 t) (f0 ∷ held) c0) [
          | inl (e', all) ↦
              rw
                (
                  pipe_rt_alloc,
                  a.0,
                  some_page,
                  ap (λ r. r.0) e,
                  ap (λ r. r.1) e,
                  ap (λ r. r.0) e',
                  ap (λ r. r.1) e,
                  ap (λ r. r.1) e',
                  a.0,
                )
                (give_up-Outcome pages fd_pipe_rt x (taking f0 t) held (x ∷ rest)
                  (pages.alloc memory).1 freed (one-Taken t held f0 c new c0))
          | inr (f1, e', lt', new', c1) ↦
              rw
                (
                  pipe_rt_alloc,
                  a.0,
                  some_page,
                  ap (λ r. r.0) e,
                  ap (λ r. r.1) e,
                  ap (λ r. r.0) e',
                  ap (λ r. r.1) e,
                  ap (λ r. r.1) e',
                  a.0,
                )
                (returns (
                  opened-Outcome fd_pipe_rt (taking f1 (taking f0 t)) held f0 f1 x rest
                    (pages.alloc memory).1 new new' c1 a.4))
        ]
      ]
