-- ===== src/Console/Tests.antt =====
-- Runs of kernel/console.c, and its theorem at a concrete input.
use os_prioritypipes.Prelude.{ℕ, ◌+◌, ◌≡◌, refl, false, List, [], ◌∷◌, arith}
use os_prioritypipes.Console.{
  Cons, input_buf_size, control, kills, kill_line, store_char, consoleintr, ReadPass, sleeps, ends,
  fails, read_line, consoleread,
}
use os_prioritypipes.Prelude.{◌==◌, if◌then◌else◌, true}
use os_prioritypipes.Console.Editing.{InWindow, consoleintr-InWindow}
use os_prioritypipes.Console.Reading.{Took, read_line-Took}

-- An empty ring just before its indices wrap.
abbrev idle : Cons
idle = record { buf = λ k. 0; r = 0xffffffff; w = 0xffffffff; e = 0xffffffff }

idle-InWindow : InWindow idle
idle-InWindow = record { ranges = omega arith; order = omega arith; fits = omega arith }

abbrev typed : List ℕ → Cons → Cons
typed [] c = c
typed (ch ∷ chs) c = typed chs (consoleintr ch c)

-- "ls", a backspace, another "s" and a return: three characters are handed over.
typing_run : (typed (b'l' ∷ b's' ∷ control b'H' ∷ b's' ∷ b'\r' ∷ []) idle).w ≡ 2
unfolding consoleintr store_char
typing_run = refl

-- "ls" and the character that erases the line
killing_run : (typed (b'l' ∷ b's' ∷ control b'U' ∷ []) idle).e ≡ 0xffffffff
unfolding consoleintr store_char kill_line
killing_run = refl

consoleintr-InWindow_example :
    InWindow (consoleintr b'l' idle) × (kills (kill_line (input_buf_size + 1) idle) ≡ false)
consoleintr-InWindow_example = consoleintr-InWindow b'l' idle idle-InWindow

abbrev no_memory : ℕ → ℕ
no_memory a = 0

-- The line "ls" and the start of another.
abbrev two_lines : Cons
two_lines = typed (b'l' ∷ b's' ∷ b'\r' ∷ b'x' ∷ []) idle

abbrev stored_by : ReadPass → List ℕ
stored_by (sleeps r) = []
stored_by (ends r) = r.memory 500 ∷ r.memory 501 ∷ r.memory 502 ∷ r.memory 503 ∷ []
stored_by (fails r) = []

abbrev is_sleeping : ReadPass → List ℕ
is_sleeping (sleeps r) = r.left ∷ []
is_sleeping (ends r) = []
is_sleeping (fails r) = []

reading_run :
    stored_by (consoleread false (λ a. true) 500 10 no_memory two_lines)
    ≡ b'l' ∷ b's' ∷ b'\n' ∷ 0 ∷ []
unfolding consoleintr store_char read_line
reading_run = refl

-- Nothing has been handed over yet.
waiting_run :
    is_sleeping (consoleread false (λ a. true) 500 10 no_memory (typed (b'l' ∷ []) idle)) ≡ 10 ∷ []
unfolding consoleintr store_char read_line
waiting_run = refl

-- "ls" as a line, across the wrap of the index, and an "x" that is still edited
abbrev one_line : Cons
one_line = record {
  buf =
      λ (k : ℕ). if k == 127 then b'l' else if k == 0 then b's' else if k == 1 then b'\n' else b'x';
  r = 0xffffffff;
  w = 2;
  e = 3;
}

one_line-InWindow : InWindow one_line
one_line-InWindow = record { ranges = omega arith; order = omega arith; fits = omega arith }

read_line-Took_example :
    Took false
      (λ a. true)
      10
      10
      500
      no_memory
      one_line
      (read_line false (λ a. true) 10 10 500 no_memory one_line)
read_line-Took_example =
    read_line-Took false (λ a. true) 10 10 500 no_memory one_line one_line-InWindow
