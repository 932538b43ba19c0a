-- ===== src/Console.antt =====
-- kernel/console.c: the input ring of the console and its line editing. A `char` is a number from 0
-- to 255, and the three indices wrap at 2^32. The handler runs with `cons.lock` held, so it is one
-- step; a reader has it from its start, or its return from `sleep`, to where it sleeps or returns. The echo
-- to the UART and the wakeup of readers are not modelled.
use os_prioritypipes.Prelude.{
  ℕ, zero, suc, ◌+◌, ◌-◌, ◌%◌, Bool, true, false, ◌&&◌, ◌||◌, not, ltb, ◌==◌, if◌then◌else◌,
}
use os_prioritypipes.Prelude.Maps.{update}
pub mod Editing
pub mod Reading
mod Tests

-- INPUT_BUF_SIZE
abbrev pub input_buf_size : ℕ
input_buf_size = 128

-- `a - b` of two `uint`
abbrev pub minus : ℕ → ℕ → ℕ
minus a b = (a + 0x100000000 - b) % 0x100000000

-- `cons` less its lock
pub record Cons : Type 0 where
  pub buf : ℕ → ℕ
  pub r : ℕ
  pub w : ℕ
  pub e : ℕ

abbrev pub control : ℕ → ℕ
control x = x - b'@'

-- the condition of the loop of `C('U')`
abbrev pub kills : Cons → Bool
kills c = not (c.e == c.w) && not (c.buf (minus c.e 1 % input_buf_size) == b'\n')

-- the loop of `C('U')`, on fuel
unfoldable pub kill_line : ℕ → Cons → Cons
kill_line zero c = c
kill_line (suc k) c =
    let rest = kill_line k (record c { e = minus c.e 1 }) in if kills c then rest else c

-- the default case: a character is stored, and a line or a full ring is handed to the readers
unfoldable pub store_char : ℕ → Cons → Cons
store_char ch c =
    let ch1 = if ch == b'\r' then b'\n' else ch in
    let e1 = (c.e + 1) % 0x100000000 in
    let c1 = record c { buf = update c.buf (c.e % input_buf_size) ch1; e = e1 } in
    if not (ch == 0) && ltb (minus c.e c.r) input_buf_size
    then (if (ch1 == b'\n') || (ch1 == control b'D') || (minus e1 c.r == input_buf_size)
        then record c1 { w = e1 }
        else c1)
    else c

unfoldable pub consoleintr : ℕ → Cons → Cons
consoleintr ch c =
    if ch == control b'P'
    then c
    else if ch == control b'U'
    then kill_line (input_buf_size + 1) c
    else if (ch == control b'H') || (ch == 0x7f)
    then (if not (c.e == c.w) then record c { e = minus c.e 1 } else c)
    else store_char ch c

-- A call of `consoleread`: how many characters are still to be read, and where to.
pub record Reader : Type 0 where
  pub left : ℕ
  pub dst : ℕ
  pub memory : ℕ → ℕ
  pub cons : Cons

-- How a pass of the call ends: in `sleep`, in the return of `target - n`, or in that of -1.
pub data ReadPass : Type 0 where
  sleeps : Reader → ReadPass
  ends : Reader → ReadPass
  fails : Reader → ReadPass

-- The loop of `consoleread` from its start or its return from `sleep` on. `killed` is whether the process has
-- been killed, `writable` where `either_copyout` does not fail.
unfoldable pub read_line : Bool → (ℕ → Bool) → ℕ → ℕ → ℕ → (ℕ → ℕ) → Cons → ReadPass
read_line killed writable target zero dst m c =
    ends record { left = 0; dst = dst; memory = m; cons = c }
read_line killed writable target (suc k) dst m c =
    let here : Reader = record { left = suc k; dst = dst; memory = m; cons = c } in
    let ch = c.buf (c.r % input_buf_size) in
    let c1 : Cons = record c { r = (c.r + 1) % 0x100000000 } in
    let taken : Reader = record here { cons = c1 } in
    let kept : Reader = record here { cons = record c1 { r = minus c1.r 1 } } in
    let m1 = update m dst ch in
    let stored : Reader = record { left = k; dst = dst + 1; memory = m1; cons = c1 } in
    let rest = read_line killed writable target k (dst + 1) m1 c1 in
    if c.r == c.w
    then (if killed then fails here else sleeps here)
    else if ch == control b'D'
    then ends (if ltb (suc k) target then kept else taken)
    else if not (writable dst)
    then ends taken
    else if ch == b'\n'
    then ends stored
    else rest

-- `consoleread` of a count that is not negative, up to where it sleeps or returns
abbrev pub consoleread : Bool → (ℕ → Bool) → ℕ → ℕ → (ℕ → ℕ) → Cons → ReadPass
consoleread killed writable dst n m c = read_line killed writable n n dst m c
