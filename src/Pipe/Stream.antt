-- ===== src/Pipe/Stream.antt =====
-- kernel/pipe.c: the bytes that pass through a pipe over its whole life, under any interleaving of
-- passes of its writers and readers.
use os_prioritypipes.Prelude.{
  ℕ, ◌+◌, ◌≡◌, refl, sym, ap, ◌∙◌, inl, inr, Bool, true, false, Option, some, List, [], ◌∷◌, ◌++◌,
  append_assoc, append-nil, length, arith,
}
use os_prioritypipes.Pipe.{Pipe, pipewrite, piperead, shut_end}
use os_prioritypipes.Pipe.Ring.{Holds}
use os_prioritypipes.Pipe.Passes.{Fetched, pipewrite-Wrote, piperead-Took}

-- The pipe, with all bytes put in and all bytes taken out since it was made.
pub record Stream : Type 0 where
  pub pipe : Pipe
  pub written : List ℕ
  pub taken : List ℕ

-- A pass of a writer, of a reader, or a close of one end. A writer of `left` bytes that stands at
-- its index `i` has put in those that it has fetched up to the index that it comes to.
pub data Step : Stream → Stream → Type 0 where
  writes :
      {s : Stream} (killed : ℕ → Bool) (fetch : ℕ → Option ℕ) (left i : ℕ) (bs : List ℕ)
      → Fetched fetch i bs
      → (pipewrite killed fetch left i s.pipe).index ≡ i + length bs
      → Step s (record {
        pipe = (pipewrite killed fetch left i s.pipe).pipe;
        written = s.written ++ bs;
        taken = s.taken;
      })
  reads :
      {s : Stream} (killed : Bool) (n : ℕ)
      → Step s (record {
        pipe = (piperead killed (λ i. true) n s.pipe).pipe;
        written = s.written;
        taken = s.taken ++ (piperead killed (λ i. true) n s.pipe).delivered;
      })
  closes :
      {s : Stream} (writable : Bool)
      → Step s (record { pipe = shut_end s.pipe writable; written = s.written; taken = s.taken })

pub data Steps : Stream → Stream → Type 0 where
  start : {s : Stream} → Steps s s
  then_step : {s t u : Stream} → Steps s t → Step t u → Steps s u

-- What has been put in is what has been taken out, and then what the pipe holds.
pub record Fifo (s : Stream) : Type 0 where
  pub bytes : List ℕ
  pub holds : Holds s.pipe bytes
  pub order : s.written ≡ s.taken ++ bytes

-- Two runs of bytes of the same length, fetched from the same place, are the same.
Fetched-unique :
    (fetch : ℕ → Option ℕ) (i : ℕ) (bs cs : List ℕ)
    → Fetched fetch i bs
    → Fetched fetch i cs
    → length bs ≡ length cs
    → bs ≡ cs
Fetched-unique fetch i [] [] f g e = refl
Fetched-unique fetch i [] (c ∷ cs) f g e = absurd (omega arith)
Fetched-unique fetch i (b ∷ bs) [] f g e = absurd (omega arith)
Fetched-unique fetch i (b ∷ bs) (c ∷ cs) f g e =
    let rest = Fetched-unique fetch (i + 1) bs cs f.1 g.1 (omega arith) in
    let first : some b ≡ some c = sym f.0 ∙ g.0 in cc

Step-Fifo : {s t : Stream} → Step s t → Fifo s → Fifo t
Step-Fifo {s} (writes killed fetch left i bs f e) h =
    let w = pipewrite-Wrote killed fetch left i s.pipe h.bytes h.holds in
    let same : w.sent ≡ bs =
      Fetched-unique fetch i w.sent bs w.fetched f (omega (arith, e, w.index)) in
    record {
      bytes = h.bytes ++ w.sent;
      holds = w.holds;
      order = rw (h.order, ← same) (append_assoc s.taken h.bytes w.sent);
    }
Step-Fifo {s} (reads killed n) h =
    elim (piperead-Took killed (λ i. true) n s.pipe h.bytes h.holds) [
      | inl (none_left, waits, e) ↦ record {
        bytes = h.bytes;
        holds = rw e h.holds;
        order = rw (e, append-nil s.taken) h.order;
      }
      | inr r ↦ elim r.ends [
        | inl (e, why) ↦ record {
          bytes = r.kept;
          holds = r.holds;
          order =
              h.order
              ∙ ap (λ l. s.taken ++ l) (r.splits ∙ rw (e, append-nil _) refl)
              ∙ sym (append_assoc s.taken (piperead killed (λ i. true) n s.pipe).delivered r.kept);
        }
        | inr (one, lt, no_copy) ↦ absurd (ground arith)
      ]
    ]
Step-Fifo {s} (closes true) h = record {
  bytes = h.bytes;
  holds = record {
    bounded = h.holds.bounded;
    reads = h.holds.reads;
    counts = h.holds.counts;
    slots = h.holds.slots;
  };
  order = h.order;
}
Step-Fifo {s} (closes false) h = record {
  bytes = h.bytes;
  holds = record {
    bounded = h.holds.bounded;
    reads = h.holds.reads;
    counts = h.holds.counts;
    slots = h.holds.slots;
  };
  order = h.order;
}

-- From a pipe that holds what was put in and not taken out, every sequence of passes of writers,
-- of readers whose `copyout` succeeds, and of closes, leads to such a pipe: the bytes taken out
-- are those put in, in order, and at most 512 are left in between.
pub stream-Fifo : {s t : Stream} → Steps s t → Fifo s → Fifo t
stream-Fifo start h = h
stream-Fifo (then_step more last) h = Step-Fifo last (stream-Fifo more h)
