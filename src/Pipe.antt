-- ===== src/Pipe.antt =====
-- kernel/pipe.c: the byte pipe, a ring buffer under two counters that wrap at 2^32. A call holds
-- the pipe's lock up to the point where it sleeps, and that much is one pass. `fetch i` is what
-- `copyin` finds at `addr + i`, `deliver i` whether `copyout` succeeds there, and `killed i`
-- whether the process is found killed in round `i`. A negative `n` makes no round, like 0.
use os_prioritypipes.Prelude.{
  ℕ, zero, suc, ◌+◌, ◌%◌, Bool, true, false, ◌&&◌, ◌||◌, not, Option, none, some, List, [], ◌∷◌,
  ◌==◌, if◌then◌else◌,
}
use os_prioritypipes.Prelude.Maps.{update}
use os_prioritypipes.Prelude.Results.{Result, ok, panic, ◌>>=◌}
use os_prioritypipes.Kalloc.Interface.{Allocator}
pub mod Ring
pub mod Passes
pub mod Stream
pub mod Closing
mod Tests

-- PIPESIZE
abbrev pub pipe_size : ℕ
pipe_size = 512

-- the range of a `uint`
abbrev pub uint_range : ℕ
uint_range = 0x100000000

-- `struct pipe` less its lock, with `ring` for the field `data`. The two flags are tested for zero only.
pub record Pipe : Type 0 where
  pub ring : ℕ → ℕ
  pub nread : ℕ
  pub nwrite : ℕ
  pub readopen : Bool
  pub writeopen : Bool

-- `pi->nwrite == pi->nread + PIPESIZE`
abbrev pub is_full : Pipe → Bool
is_full pi = pi.nwrite == (pi.nread + pipe_size) % uint_range

-- `pi->data[pi->nwrite++ % PIPESIZE] = ch`
abbrev pub put_byte : Pipe → ℕ → Pipe
put_byte pi ch = record pi {
  ring = update pi.ring (pi.nwrite % pipe_size) ch;
  nwrite = (pi.nwrite + 1) % uint_range;
}

-- `ch = pi->data[pi->nread++ % PIPESIZE]`
abbrev pub next_byte : Pipe → ℕ
next_byte pi = pi.ring (pi.nread % pipe_size)

abbrev pub drop_byte : Pipe → Pipe
drop_byte pi = record pi { nread = (pi.nread + 1) % uint_range }

-- How a pass ends: the call returns its count, returns -1, or sleeps.
pub data End : Type 0 where
  returned : End
  failed : End
  asleep : End

-- A pass: its end, the index `i` that it has come to, the bytes delivered, and the pipe.
pub record Pass : Type 0 where
  pub end : End
  pub index : ℕ
  pub delivered : List ℕ
  pub pipe : Pipe

-- The loop of `pipewrite` from the index `i` on, with `left` bytes to go. A writer that slept at
-- the index `i` goes on from there.
unfoldable pub pipewrite : (ℕ → Bool) → (ℕ → Option ℕ) → ℕ → ℕ → Pipe → Pass
pipewrite killed fetch zero i pi = record { end = returned; index = i; delivered = []; pipe = pi }
pipewrite killed fetch (suc left) i pi =
    let stops : End → Pass = λ end. record { end = end; index = i; delivered = []; pipe = pi } in
    let stored : Pass = elim (fetch i) [
      | none ↦ stops returned
      | some ch ↦ pipewrite killed fetch left (i + 1) (put_byte pi ch)
    ] in
    if not pi.readopen || killed i
    then stops failed
    else if is_full pi
    then stops asleep
    else stored

-- `for(i = 0; i < n; i++)` of `piperead` from the index `i` on
unfoldable pub read_loop : (ℕ → Bool) → ℕ → ℕ → Pipe → Pass
read_loop deliver zero i pi = record { end = returned; index = i; delivered = []; pipe = pi }
read_loop deliver (suc left) i pi =
    let stops : Pipe → Pass = λ p. record { end = returned; index = i; delivered = []; pipe = p } in
    let rest = read_loop deliver left (i + 1) (drop_byte pi) in
    if pi.nread == pi.nwrite
    then stops pi
    else if deliver i
    then record rest { delivered = next_byte pi ∷ rest.delivered }
    else stops (drop_byte pi)

-- `piperead` with `killed` as found before it would sleep
unfoldable pub piperead : Bool → (ℕ → Bool) → ℕ → Pipe → Pass
piperead killed deliver n pi =
    let stops : End → Pass = λ end. record { end = end; index = 0; delivered = []; pipe = pi } in
    if (pi.nread == pi.nwrite) && pi.writeopen
    then (if killed then stops failed else stops asleep)
    else read_loop deliver n 0 pi

-- the first half of `pipeclose`
abbrev pub shut_end : Pipe → Bool → Pipe
shut_end pi writable =
    if writable then record pi { writeopen = false } else record pi { readopen = false }

-- `pipeclose` of the pipe in the page `p`
unfoldable pub pipeclose :
    (pages : Allocator) → ℕ → Pipe → Bool → pages.State → Result (Pipe × pages.State)
pipeclose pages p pi writable memory =
    let pi' = shut_end pi writable in
    if not pi'.readopen && not pi'.writeopen
    then (pages.release p memory >>= λ memory'. ok (pi', memory'))
    else ok (pi', memory)
