-- ===== src/Task/Pages.antt =====
-- The pages behind the linked nodes of a queue: each in use for one node, and none of them free.
use os_prioritypipes.Prelude.{ℕ, ◌≡◌, Bool, List, ◌∷◌, arith, All}
use os_prioritypipes.Prelude.Sets.{◌∈◌, ◌∉◌, Distinct}
use os_prioritypipes.Kalloc.Interface.{Allocator}
use os_prioritypipes.Task.{Task, Store, Nodes}
use os_prioritypipes.Task.Cells.{Cells, addresses, first, Linked}
use os_prioritypipes.Task.Order.{insert, has-insert, insert-Distinct, insert-All}

-- `head` leads through exactly the cells `cells`, on pages of their own, while the pages `free`
-- are free.
pub record IsQueue (pages : Allocator) (s : Store pages) (head : ℕ) (cells : Cells) (free : List ℕ)
    : Type 0 where
  pub head_first : head ≡ first cells
  pub linked : Linked s.nodes cells
  pub distinct : Distinct (addresses cells)
  pub valid : All pages.Valid (addresses cells)
  pub free_list : pages.Free s.memory free
  pub apart : (a : ℕ) → a ∈ addresses cells → a ∉ free

module _ (pages : Allocator) where
  module _ (ahead : Task → Task → Bool) (s : Store pages) (head p : ℕ) (t : Task) (cells : Cells)
      (free : List ℕ) (q : IsQueue pages s head cells (p ∷ free)) where
    pub fresh : p ∉ addresses cells
    fresh = ground (arith, q.apart p)

    -- What is left to show of an insertion is how the nodes are linked.
    pub inserted-IsQueue :
        (head' : ℕ) (now : Nodes) (memory : pages.State)
        → head' ≡ first (insert ahead (p, t) cells)
        → Linked now (insert ahead (p, t) cells)
        → pages.Free memory free
        → pages.Valid p
        → p ∉ free
        → IsQueue pages
            (record { memory = memory; nodes = now })
            head'
            (insert ahead (p, t) cells)
            free
    inserted-IsQueue head' now memory e l f valid out = record {
      head_first = e;
      linked = l;
      distinct = insert-Distinct ahead (p, t) cells fresh q.distinct;
      valid = insert-All ahead (p, t) pages.Valid cells valid q.valid;
      free_list = f;
      apart = λ a i. ground (arith, has-insert ahead (p, t) a cells, q.apart a);
    }
