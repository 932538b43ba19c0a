-- ===== src/Pipe/Tests.antt =====
-- Runs of kernel/pipe.c, and its theorems at concrete inputs.
use os_prioritypipes.Prelude.{
  ℕ, zero, suc, ◌+◌, ◌≡◌, refl, ◌<◌, ◌%◌, length, get_elem?, ltb, ◌==◌, Bool, true, false, Option,
  none, some, List, [], ◌∷◌, arith, if◌then◌else◌,
}
use os_prioritypipes.Pipe.{Pipe, pipe_size, pipewrite, read_loop, piperead}
use os_prioritypipes.Pipe.Ring.{Holds}
use os_prioritypipes.Pipe.Stream.{Stream, Steps, writes, reads, start, then_step, Fifo, stream-Fifo}

abbrev held : List ℕ
held = 7 ∷ 8 ∷ []

-- The two bytes lie on both sides of the place where the counters wrap.
abbrev two_bytes : Pipe
two_bytes = record {
  ring = λ k. if k == 511 then 7 else if k == 0 then 8 else 0;
  nread = 0xffffffff;
  nwrite = 1;
  readopen = true;
  writeopen = true;
}

two_slots :
    (j : ℕ)
    → j < length held
    → get_elem? held j ≡ some (two_bytes.ring ((two_bytes.nread + j) % pipe_size))
two_slots zero lt = refl
two_slots (suc zero) lt = refl
two_slots (suc (suc j)) lt = absurd (omega arith)

two_bytes-Holds : Holds two_bytes held
two_bytes-Holds = record {
  bounded = omega arith;
  reads = omega arith;
  counts = refl;
  slots = two_slots;
}

abbrev word : ℕ → Option ℕ
word i = if ltb i 3 then some (20 + i) else none

abbrev never : ℕ → Bool
never i = false

-- Five bytes were to be written; `copyin` fails at the fourth.
write_run : (pipewrite never word 5 0 two_bytes).index ≡ 3
unfolding pipewrite
write_run = refl

-- The bytes come out in order.
read_run :
    (piperead false (λ i. true) 10 (pipewrite never word 5 0 two_bytes).pipe).delivered
    ≡ 7 ∷ 8 ∷ 20 ∷ 21 ∷ 22 ∷ []
unfolding pipewrite piperead read_loop
read_run = refl

abbrev before : Stream
before = record { pipe = two_bytes; written = 7 ∷ 8 ∷ []; taken = [] }

abbrev written_to : Stream
written_to = record {
  pipe = (pipewrite never word 5 0 two_bytes).pipe;
  written = 7 ∷ 8 ∷ 20 ∷ 21 ∷ 22 ∷ [];
  taken = [];
}

abbrev after : Stream
after = record {
  pipe = (piperead false (λ i. true) 10 written_to.pipe).pipe;
  written = 7 ∷ 8 ∷ 20 ∷ 21 ∷ 22 ∷ [];
  taken = (piperead false (λ i. true) 10 written_to.pipe).delivered;
}

before-Fifo : Fifo before
before-Fifo = record { bytes = 7 ∷ 8 ∷ []; holds = two_bytes-Holds; order = refl }

before-after : Steps before after
unfolding pipewrite
before-after =
    then_step
      (then_step start (writes never word 5 0 (20 ∷ 21 ∷ 22 ∷ []) (refl, (refl, (refl, tt))) refl))
      (reads false 10)

stream-Fifo_example : Fifo after
stream-Fifo_example = stream-Fifo before-after before-Fifo

abbrev reader_shut : Pipe
reader_shut = record two_bytes { readopen = false }
