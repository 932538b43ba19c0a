-- ===== src/Task.antt =====
-- proj2/kernel/pqueue.h: tasks, and the pages that hold the nodes of a queue of tasks.
use os_prioritypipes.Prelude.{
  ℕ, zero, suc, ◌+◌, Bool, true, false, Option, none, some, List, [], ◌∷◌, ltb, leb, ◌==◌,
  if◌then◌else◌,
}
use os_prioritypipes.Prelude.Int.{ℤ, pos_part, neg_part}
use os_prioritypipes.Prelude.Results.{Result, ok, panic, ◌>>=◌, ◌>>◌}
use os_prioritypipes.Kalloc.Interface.{Allocator}
pub mod Cells
pub mod Link
pub mod Order
pub mod Pages
pub mod Samples

-- `struct task_t`. `result` and `error` are user addresses, which the kernel only copies.
pub record Task : Type 0 where
  pub priority : ℤ
  pub pid : ℤ
  pub x : ℤ
  pub y : ℤ
  pub op : ℕ
  pub result : ℕ
  pub error : ℕ

-- `struct pq_node`
pub record PqNode : Type 0 where
  pub task : Task
  pub next : ℕ

-- The pages in use as nodes, by their address; a page that is not (or no longer) a node has none.
abbrev pub Nodes : Type 0
Nodes = ℕ → Option PqNode

unfoldable pub write : ℕ → Option PqNode → Nodes → Nodes
write p c nodes a = if a == p then c else nodes a

-- `*p`, a fault at the null pointer and at a page that is no node
unfoldable pub load : ℕ → Nodes → Result PqNode
load p nodes = if p == 0 then panic else elim (nodes p) [ none ↦ panic | some n ↦ ok n ]

-- `p->next = q`
unfoldable pub set_next : ℕ → ℕ → Nodes → Result Nodes
set_next p q nodes = load p nodes >>= λ n. ok (write p (some (record n { next = q })) nodes)

-- `a > b` and `a >= b` on `int`
abbrev pub gt_int : ℤ → ℤ → Bool
gt_int a b = ltb (pos_part b + neg_part a) (pos_part a + neg_part b)

abbrev pub ge_int : ℤ → ℤ → Bool
ge_int a b = leb (pos_part b + neg_part a) (pos_part a + neg_part b)

-- The allocator's state and the nodes.
pub record Store (pages : Allocator) : Type 0 where
  pub memory : pages.State
  pub nodes : Nodes

-- The loop over `current` in `pq_insert` and `pqueue_push`, and the two writes that follow it.
-- `ahead u t` is the loop's test on the next node's task `u` and the new task `t`.
unfoldable pub link_loop : (Task → Task → Bool) → ℕ → ℕ → ℕ → Task → Nodes → Result Nodes
link_loop ahead zero current new task nodes = panic
link_loop ahead (suc k) current new task nodes = do
  n ← load current nodes
  let stop = (set_next new n.next nodes >>= set_next current new)
  if n.next == 0 then stop else do
    m ← load n.next nodes
    let walk = link_loop ahead k n.next new task nodes
    if ahead m.task task then walk else stop
