-- ===== src/Files/Tests.antt =====
-- Runs of kernel/file.c, and its theorems at concrete inputs.
use os_prioritypipes.Prelude.{
  ℕ, true, false, Option, none, some, List, [], ◌∷◌, arith, ltb, ◌==◌, if◌then◌else◌,
}
use os_prioritypipes.Prelude.Results.{Returns}
use os_prioritypipes.Kalloc.Tests.{page_a, page_b, page_c, three_free, three_free-FreeList}
use os_prioritypipes.Task.Samples.{pages}
use os_prioritypipes.Files.{fd_none, fd_pipe, fd_pipe_rt, File, Table, pipe_rt_alloc}
use os_prioritypipes.Files.Counts.{Counted, opens, dups, drops, calls, calls-Counted}
use os_prioritypipes.Files.Outcomes.{Outcome}
use os_prioritypipes.Files.Making.{pipe_rt_alloc-Outcome}

abbrev closed_file : File
closed_file = record {
  kind = fd_none;
  ref = 0;
  readable = false;
  writable = false;
  pipe = 0;
  ip = 0;
}

-- File 0 is a pipe with two references, file 1 one with a single reference.
abbrev two_open : Table
two_open = λ f.
    if f == 0
    then record closed_file { kind = fd_pipe; ref = 2; writable = true; pipe = 0x80030000 }
    else if f == 1
    then record closed_file { kind = fd_pipe; ref = 1; readable = true; pipe = 0x80030000 }
    else closed_file

abbrev in_use : List ℕ
in_use = 0 ∷ 1 ∷ 0 ∷ []

two_open-Counted : Counted two_open in_use
two_open-Counted = record { refs = λ f. ground arith; idle = λ f z. ground arith }

calls-Counted_example :
    Returns
      (λ s'. Counted s'.table s'.held)
      (calls (opens ∷ dups 0 ∷ drops 1 ∷ drops 0 ∷ []) (record { table = two_open; held = in_use }))
calls-Counted_example =
    calls-Counted (opens ∷ dups 0 ∷ drops 1 ∷ drops 0 ∷ [])
      (record { table = two_open; held = in_use }) two_open-Counted

pipe_rt_alloc-Outcome_example :
    Returns
      (Outcome pages fd_pipe_rt in_use (page_a ∷ page_b ∷ page_c ∷ []))
      (pipe_rt_alloc pages two_open three_free)
pipe_rt_alloc-Outcome_example =
    pipe_rt_alloc-Outcome pages two_open in_use (page_a ∷ page_b ∷ page_c ∷ []) three_free
      two_open-Counted three_free-FreeList

abbrev std_only : ℕ → Option ℕ
std_only fd = if ltb fd 3 then some 0 else none
