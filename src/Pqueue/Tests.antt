-- ===== src/Pqueue/Tests.antt =====
-- The theorems on proj2/kernel/pqueue.c at concrete inputs.
use os_prioritypipes.Prelude.{◌≡◌}
use os_prioritypipes.Prelude.Results.{panic}
use os_prioritypipes.Kalloc.Tests.{none_free-FreeList}
use os_prioritypipes.Task.Samples.{pages, task_of, high_page, two_tasks_full}
use os_prioritypipes.Pqueue.{pqueue_push}
use os_prioritypipes.Pqueue.Fifo.{locked, pqueue_push_faults}

push_run : pqueue_push pages 2 (locked high_page) (task_of 9 3) two_tasks_full ≡ panic
push_run =
    pqueue_push_faults pages 2 (locked high_page) (task_of 9 3) two_tasks_full none_free-FreeList
