-- ===== src/Files.antt =====
-- kernel/file.c: the table of open files, the descriptors of a process, and the making of pipes in
-- kernel/pipe.c and proj2/kernel/pipe_rt.c. A file is its index in `ftable.file`. `ftable.lock`
-- makes each of `filealloc`, `filedup` and `fileclose` one step; what `fileclose` does after it
-- has released the lock is named by its result.
use os_prioritypipes.Prelude.{
  ℕ, zero, suc, ◌+◌, ◌-◌, Bool, true, false, Option, none, some, List, [], ◌∷◌, ◌++◌, ltb, ◌==◌,
  if◌then◌else◌,
}
use os_prioritypipes.Prelude.Int.{pos}
use os_prioritypipes.Prelude.Maps.{update}
use os_prioritypipes.Prelude.Results.{Result, ok, panic, ◌>>=◌, ◌>>◌, panic_if}
use os_prioritypipes.Kalloc.Interface.{Allocator}
use os_prioritypipes.Pipe.{Pipe}
use os_prioritypipes.PipeRt
pub mod Slots
pub mod Counts
pub mod Outcomes
pub mod Making
pub mod Data
mod Tests

-- NFILE and NOFILE
abbrev pub nfile : ℕ
nfile = 100

abbrev pub nofile : ℕ
nofile = 16

pub data Kind : Type 0 where
  fd_none : Kind
  fd_pipe : Kind
  fd_pipe_rt : Kind
  fd_inode : Kind
  fd_device : Kind

-- `struct file`, with `kind` for the field `type`
pub record File : Type 0 where
  pub kind : Kind
  pub ref : ℕ
  pub readable : Bool
  pub writable : Bool
  pub pipe : ℕ
  pub ip : ℕ

abbrev pub Table : Type 0
Table = ℕ → File

-- The first index from `i` on, of `k` to try, that passes the test.
unfoldable pub find_slot : (ℕ → Bool) → ℕ → ℕ → Option ℕ
find_slot free zero i = none
find_slot free (suc k) i = let later = find_slot free k (i + 1) in if free i then some i else later

unfoldable pub filealloc : Table → Option ℕ × Table
filealloc t = elim (find_slot (λ f. (t f).ref == 0) nfile 0) [
  | none ↦ (none, t)
  | some f ↦ (some f, update t f (record (t f) { ref = 1 }))
]

unfoldable pub filedup : ℕ → Table → Result Table
filedup f t = do panic_if (ltb (t f).ref 1); ok (update t f (record (t f) { ref = (t f).ref + 1 }))

-- What is left to do with the file that was closed.
pub data Closing : Type 0 where
  nothing : Closing
  pipeclose : ℕ → Bool → Closing
  pipe_rt_close : ℕ → Bool → Closing
  iput : ℕ → Closing

abbrev pub closing : File → Closing
closing ff = elim ff.kind [
  | fd_none ↦ nothing
  | fd_pipe ↦ pipeclose ff.pipe ff.writable
  | fd_pipe_rt ↦ pipe_rt_close ff.pipe ff.writable
  | fd_inode ↦ iput ff.ip
  | fd_device ↦ iput ff.ip
]

unfoldable pub fileclose : ℕ → Table → Result (Closing × Table)
fileclose f t = do
  panic_if (ltb (t f).ref 1)
  let left = (t f).ref - 1
  if ltb 0 left
      then ok (nothing, update t f (record (t f) { ref = left }))
      else ok (closing (t f), update t f (record (t f) { ref = 0; kind = fd_none }))

-- `fdalloc`: the descriptor, or none for -1, and the open files of the process.
unfoldable pub fdalloc : ℕ → (ℕ → Option ℕ) → Option ℕ × (ℕ → Option ℕ)
fdalloc f ofile =
    elim (find_slot (λ fd. elim (ofile fd) [ none ↦ true | some g ↦ false ]) nofile 0) [
      | none ↦ (none, ofile)
      | some fd ↦ (some fd, update ofile fd (some f))
    ]

-- the two files of a pipe at `p`, for its reader and for its writer
abbrev pub open_ends : Kind → ℕ → ℕ → ℕ → Table → Table
open_ends kind p f0 f1 t =
    let t0 =
      update t f0 (record (t f0) { kind = kind; readable = true; writable = false; pipe = p }) in
    update t0 f1 (record (t0 f1) { kind = kind; readable = false; writable = true; pipe = p })

-- the `bad:` path of a file pointer: `if(*f) fileclose(*f);`
unfoldable pub close_some : Option ℕ → Table → Result (Closing × Table)
close_some none t = ok (nothing, t)
close_some (some f) t = fileclose f t

module _ (pages : Allocator) where
  -- What an allocation leaves: the two files and the page, if it succeeds, the table, the
  -- memory, and what is left to close.
  pub record Made : Type 0 where
    pub made : Option (ℕ × ℕ × ℕ)
    pub table : Table
    pub memory : pages.State
    pub closings : List Closing

  -- the label `bad`, for a pipe at `p`, or at 0 if there is none
  unfoldable pub give_up : ℕ → Option ℕ → Option ℕ → Table → pages.State → Result Made
  give_up p f0 f1 t memory = do
    memory1 ← if p == 0 then ok memory else pages.release p memory
    (c0, t0) ← close_some f0 t
    (c1, t1) ← close_some f1 t0
    ok (record { made = none; table = t1; memory = memory1; closings = c0 ∷ c1 ∷ [] })

  -- `pipealloc`: the files first, then the page.
  unfoldable pub pipealloc : Table → pages.State → Result Made
  pipealloc t memory =
      let (r0, t0) = filealloc t in
      let (r1, t1) = filealloc t0 in
      let (p, memory1) = pages.alloc memory in
      elim r0 [
        | none ↦ give_up 0 none none t0 memory
        | some f0 ↦ elim r1 [
          | none ↦ give_up 0 (some f0) none t1 memory
          | some f1 ↦
              (if p == 0
                then give_up 0 (some f0) (some f1) t1 memory1
                else ok (record {
                  made = some (f0, f1, p);
                  table = open_ends fd_pipe p f0 f1 t1;
                  memory = memory1;
                  closings = [];
                }))
        ]
      ]

  -- `pipe_rt_alloc`: the page first, then the files.
  unfoldable pub pipe_rt_alloc : Table → pages.State → Result Made
  pipe_rt_alloc t memory =
      let (p, memory1) = pages.alloc memory in
      let (r0, t0) = filealloc t in
      let (r1, t1) = filealloc t0 in
      let with_page : Result Made = elim r0 [
        | none ↦ give_up p none none t0 memory1
        | some f0 ↦ elim r1 [
          | none ↦ give_up p (some f0) none t1 memory1
          | some f1 ↦ ok (record {
            made = some (f0, f1, p);
            table = open_ends fd_pipe_rt p f0 f1 t1;
            memory = memory1;
            closings = [];
          })
        ]
      ] in
      if p == 0 then give_up 0 none none t memory1 else with_page
