-- ===== src/Task/Samples.antt =====
-- A queue of two tasks on concrete pages, for the tests of pipe_rt.c and pqueue.c.
use os_prioritypipes.Prelude.{ℕ, refl, none, some, [], ◌∷◌, arith, ◌==◌, if◌then◌else◌}
use os_prioritypipes.Prelude.Int.{pos}
use os_prioritypipes.Kalloc.Interface.{Allocator, kernel_pages}
use os_prioritypipes.Kalloc.Tests.{
  kernel_end, page_a, page_b, page_c, three_free, three_free-FreeList, none_free,
  none_free-FreeList,
}
use os_prioritypipes.Task.{Task, Store}
use os_prioritypipes.Task.Cells.{Cells, node}
use os_prioritypipes.Task.Order.{IsSorted}
use os_prioritypipes.Task.Pages.{IsQueue}

abbrev pub pages : Allocator
pages = kernel_pages kernel_end (omega arith)

abbrev pub task_of : ℕ → ℕ → Task
task_of p x = record {
  priority = pos p;
  pid = pos 3;
  x = pos x;
  y = pos 2;
  op = b'+';
  result = 0x4000;
  error = 0x4008;
}

abbrev pub high_page : ℕ
high_page = 0x80030000

abbrev pub low_page : ℕ
low_page = 0x80031000

abbrev pub two_cells : Cells
two_cells = (high_page, task_of 9 1) ∷ (low_page, task_of 5 2) ∷ []

abbrev pub two_tasks : Store pages
two_tasks = record {
  memory = three_free;
  nodes = λ p.
      if p == high_page
      then some (node (task_of 9 1) low_page)
      else if p == low_page
      then some (node (task_of 5 2) 0)
      else none;
}

-- the same queue when every page is in use
abbrev pub two_tasks_full : Store pages
two_tasks_full = record two_tasks { memory = none_free }

pub two_tasks-IsQueue : IsQueue pages two_tasks high_page two_cells (page_a ∷ page_b ∷ page_c ∷ [])
two_tasks-IsQueue = record {
  head_first = refl;
  linked = ground arith;
  distinct = ground arith;
  valid = omega arith;
  free_list = three_free-FreeList;
  apart = λ a i. ground arith;
}

pub two_tasks_full-IsQueue : IsQueue pages two_tasks_full high_page two_cells []
two_tasks_full-IsQueue = record {
  head_first = refl;
  linked = ground arith;
  distinct = ground arith;
  valid = omega arith;
  free_list = none_free-FreeList;
  apart = λ a i. ground arith;
}

pub two_cells-IsSorted : IsSorted two_cells
two_cells-IsSorted = omega arith

abbrev pub no_tasks : Store pages
no_tasks = record { memory = three_free; nodes = λ p. none }

pub no_tasks-IsQueue : IsQueue pages no_tasks 0 [] (page_a ∷ page_b ∷ page_c ∷ [])
no_tasks-IsQueue = record {
  head_first = refl;
  linked = tt;
  distinct = tt;
  valid = tt;
  free_list = three_free-FreeList;
  apart = λ a i. ground arith;
}
