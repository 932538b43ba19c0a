-- ===== src/Task/Cells.antt =====
-- The linked nodes of a queue of tasks as a list of addresses with their tasks.
use os_prioritypipes.Prelude.{ℕ, ◌≡◌, ◌≢◌, false, Option, some, List, [], ◌∷◌, arith, ◌==◌}
use os_prioritypipes.Prelude.Sets.{◌∈◌, ◌∉◌}
use os_prioritypipes.Prelude.Results.{ok}
use os_prioritypipes.Task.{Task, PqNode, Nodes, write, load, set_next}

abbrev pub Cells : Type 0
Cells = List (ℕ × Task)

abbrev pub addresses : Cells → List ℕ
addresses [] = []
addresses ((a, t) ∷ cs) = a ∷ addresses cs

abbrev pub tasks : Cells → List Task
tasks [] = []
tasks ((a, t) ∷ cs) = t ∷ tasks cs

-- the pointer to the first cell
abbrev pub first : Cells → ℕ
first [] = 0
first ((a, t) ∷ cs) = a

abbrev pub node : Task → ℕ → PqNode
node t q = record { task = t; next = q }

-- The cells are linked in this order, down to the null pointer.
abbrev pub Linked : Nodes → Cells → Type 0
Linked nodes [] = Unit {0}
Linked nodes ((a, t) ∷ cs) = (a ≢ 0) × (nodes a ≡ some (node t (first cs))) × Linked nodes cs

pub first-eq-zero :
    (nodes : Nodes) (c : ℕ × Task) (cs : Cells)
    → Linked nodes (c ∷ cs)
    → (first (c ∷ cs) == 0) ≡ false
first-eq-zero nodes (a, t) cs h = ground arith

-- A change at other addresses leaves the cells linked.
pub Linked-frame :
    (old new : Nodes) (cs : Cells)
    → ((a : ℕ) → a ∈ addresses cs → new a ≡ old a)
    → Linked old cs
    → Linked new cs
Linked-frame old new [] same h = tt
Linked-frame old new ((a, t) ∷ cs) same h =
    (h.0, ground (arith, same a), Linked-frame old new cs (λ b i. same b (ground arith)) h.2)

pub Linked-write :
    (nodes : Nodes) (p : ℕ) (c : Option PqNode) (cs : Cells)
    → p ∉ addresses cs
    → Linked nodes cs
    → Linked (write p c nodes) cs
unfolding write
Linked-write nodes p c [] out h = tt
Linked-write nodes p c ((a, t) ∷ cs) out h = ground (arith, Linked-write nodes p c cs)

module _ (nodes : Nodes) (a q : ℕ) (t : Task) (nz : a ≢ 0) (at : nodes a ≡ some (node t q)) where
  pub load-ok : load a nodes ≡ ok (node t q)
  unfolding load
  load-ok = ground (arith, nz, at)

  pub set_next-ok : (r : ℕ) → set_next a r nodes ≡ ok (write a (some (node t r)) nodes)
  unfolding set_next
  set_next-ok r = rw load-ok
