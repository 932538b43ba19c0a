-- ===== src/PipeRt/Tests.antt =====
-- Runs of proj2/kernel/pipe_rt.c, and its theorems at concrete inputs.
use os_prioritypipes.Prelude.{ℕ, ◌≡◌, refl, true, none, some, [], ◌∷◌, arith, All, if◌then◌else◌}
use os_prioritypipes.Prelude.Int.{pos, ◌≤ℤ◌}
use os_prioritypipes.Prelude.Results.{Returns}
use os_prioritypipes.Kalloc.Tests.{page_a, page_b, page_c}
use os_prioritypipes.Task.{Task}
use os_prioritypipes.Task.Order.{above, insert, insert-overtakes}
use os_prioritypipes.Task.Samples.{
  pages, task_of, high_page, low_page, two_cells, two_tasks, two_tasks-IsQueue, two_tasks_full,
  two_tasks_full-IsQueue, two_cells-IsSorted, no_tasks, no_tasks-IsQueue,
}
use os_prioritypipes.PipeRt.{task_size, failure, Pipe, Answer, reads, pipe_rt_write, pipe_rt_read}
use os_prioritypipes.PipeRt.Messages.{Holds, pipe_rt_write_stores, pipe_rt_read_highest}

abbrev two_pipe : Pipe
two_pipe = record { head = high_page; nwrite = pos 1; nread = pos 1; active = true }

abbrev empty_pipe : Pipe
empty_pipe = record { head = 0; nwrite = pos 1; nread = pos 1; active = true }

abbrev reader_gone : Pipe
reader_gone = record { head = high_page; nwrite = pos 1; nread = pos 0; active = true }

two_pipe-Holds : Holds pages two_pipe two_tasks two_cells (page_a ∷ page_b ∷ page_c ∷ [])
two_pipe-Holds = record { queue = two_tasks-IsQueue; sorted = two_cells-IsSorted }

two_pipe_full-Holds : Holds pages two_pipe two_tasks_full two_cells []
two_pipe_full-Holds = record { queue = two_tasks_full-IsQueue; sorted = two_cells-IsSorted }

empty_pipe-Holds : Holds pages empty_pipe no_tasks [] (page_a ∷ page_b ∷ page_c ∷ [])
empty_pipe-Holds = record { queue = no_tasks-IsQueue; sorted = tt }

-- A task of priority 7 goes between those of 9 and 5.
pipe_rt_write_stores_example :
    Returns
      (λ r.
        (r.value ≡ task_size)
        × Holds pages r.pipe r.store
            (insert above (page_a, task_of 7 3) two_cells)
            (page_b ∷ page_c ∷ [])
        × (r.pipe ≡ record two_pipe { head = r.pipe.head })
        × (r.wakes ≡ true))
      (pipe_rt_write pages 2 two_pipe (some (task_of 7 3)) two_tasks)
pipe_rt_write_stores_example =
    pipe_rt_write_stores pages 2 page_a two_pipe (task_of 7 3) two_tasks two_cells
      (page_b ∷ page_c ∷ []) refl refl two_pipe-Holds (omega arith)

pipe_rt_read_highest_example :
    All {A = ℕ × Task} (λ d. d.1.priority ≤ℤ pos 9) ((low_page, task_of 5 2) ∷ [])
    × Returns
        (λ r.
          (ans : Answer pages) × (r ≡ reads ans (if true then some (task_of 9 1) else none))
          × (ans.value ≡ (if true then task_size else failure))
          × Holds pages ans.pipe ans.store
              ((low_page, task_of 5 2) ∷ [])
              (high_page ∷ page_a ∷ page_b ∷ page_c ∷ [])
          × (ans.pipe ≡ record two_pipe { head = ans.pipe.head }))
        (pipe_rt_read pages two_pipe true two_tasks)
pipe_rt_read_highest_example =
    pipe_rt_read_highest pages high_page (task_of 9 1) two_pipe true two_tasks
      ((low_page, task_of 5 2) ∷ []) (page_a ∷ page_b ∷ page_c ∷ []) two_pipe-Holds

insert-overtakes_example :
    insert above (page_a, task_of 9 3) two_cells
    ≡ (high_page, task_of 9 1) ∷ (page_a, task_of 9 3) ∷ (low_page, task_of 5 2) ∷ []
insert-overtakes_example =
    insert-overtakes (page_a, task_of 9 3) (high_page, task_of 9 1) ((low_page, task_of 5 2) ∷ [])
      refl two_cells-IsSorted
