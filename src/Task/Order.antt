-- ===== src/Task/Order.antt =====
-- The order of a queue of tasks: where an insertion puts a new cell, and what it keeps.
use mathlib.Core.List.{Perm}
use mathlib.Core.List.Perm
use os_prioritypipes.Prelude.{
  ℕ, suc, ◌+◌, ◌≡◌, refl, Bool, true, false, ◌||◌, inl, inr, [], ◌∷◌, ◌++◌, arith, ◌==◌,
  if◌then◌else◌, Bool-cases, length, All, append-nil,
}
use os_prioritypipes.Prelude.Int.{ℤ, ◌≤ℤ◌, pos_part, neg_part}
use os_prioritypipes.Prelude.Sets.{has, ◌∉◌, Distinct}
use os_prioritypipes.Task.{Task, gt_int, ge_int}
use os_prioritypipes.Task.Cells.{Cells, addresses}
use os_prioritypipes.Task.Link.{insert_behind}

-- A new cell goes first if its priority is above that of the first one, and is linked behind it
-- otherwise.
unfoldable pub insert : (Task → Task → Bool) → ℕ × Task → Cells → Cells
insert ahead c [] = c ∷ []
insert ahead c (d ∷ ds) =
    if gt_int c.1.priority d.1.priority then c ∷ d ∷ ds else d ∷ insert_behind ahead c ds

-- the loop tests of `pq_insert` and of `pqueue_push`
abbrev pub above : Task → Task → Bool
above u t = gt_int u.priority t.priority

abbrev pub not_below : Task → Task → Bool
not_below u t = ge_int u.priority t.priority

abbrev pub same_int : ℤ → ℤ → Bool
same_int a b = (pos_part a + neg_part b) == (pos_part b + neg_part a)

-- Highest priority first.
abbrev pub IsSorted : Cells → Type 0
IsSorted [] = Unit {0}
IsSorted (c ∷ cs) = All (λ d. d.1.priority ≤ℤ c.1.priority) cs × IsSorted cs

-- a test that puts a task behind no task of lower priority, and before none of higher priority
pub record IsOrder (ahead : Task → Task → Bool) : Type 0 where
  pub walks : (u t : Task) → ahead u t ≡ true → t.priority ≤ℤ u.priority
  pub stops : (u t : Task) → ahead u t ≡ false → u.priority ≤ℤ t.priority

pub above-IsOrder : IsOrder above
above-IsOrder = record { walks = λ u t h. ground arith; stops = λ u t h. ground arith }

pub not_below-IsOrder : IsOrder not_below
not_below-IsOrder = record { walks = λ u t h. ground arith; stops = λ u t h. ground arith }

abbrev Under : ℤ → Cells → Type 0
Under p = All (λ d. d.1.priority ≤ℤ p)

Under-mono : (p q : ℤ) (cs : Cells) → p ≤ℤ q → Under p cs → Under q cs
Under-mono p q [] le h = tt
Under-mono p q (c ∷ cs) le h = (omega arith, Under-mono p q cs le h.1)

module _ (ahead : Task → Task → Bool) (c : ℕ × Task) where
  insert_behind-Under :
      (p : ℤ) (cs : Cells) → c.1.priority ≤ℤ p → Under p cs → Under p (insert_behind ahead c cs)
  unfolding insert_behind
  insert_behind-Under p [] le h = (le, tt)
  insert_behind-Under p (d ∷ ds) le h = ground (arith, insert_behind-Under p ds)

  insert_behind-IsSorted :
      IsOrder ahead → (cs : Cells) → IsSorted cs → IsSorted (insert_behind ahead c cs)
  unfolding insert_behind
  insert_behind-IsSorted o [] h = (tt, tt)
  insert_behind-IsSorted o (d ∷ ds) h = elim (Bool-cases (ahead d.1 c.1)) [
    | inl more ↦ rw more (
      insert_behind-Under d.1.priority ds (o.walks d.1 c.1 more) h.0,
      insert_behind-IsSorted o ds h.1,
    )
    | inr here ↦
        let le = o.stops d.1 c.1 here in
        rw here ((le, Under-mono d.1.priority c.1.priority ds le h.0), h)
  ]

  pub insert-nil : insert ahead c [] ≡ c ∷ []
  unfolding insert
  insert-nil = refl

  pub insert_front :
      (d : ℕ × Task) (ds : Cells)
      → gt_int c.1.priority d.1.priority ≡ true
      → insert ahead c (d ∷ ds) ≡ c ∷ d ∷ ds
  unfolding insert
  insert_front d ds h = rw h

  pub insert_back :
      (d : ℕ × Task) (ds : Cells)
      → gt_int c.1.priority d.1.priority ≡ false
      → insert ahead c (d ∷ ds) ≡ d ∷ insert_behind ahead c ds
  unfolding insert
  insert_back d ds h = rw h

  -- An insertion keeps the cells sorted.
  pub insert-IsSorted : IsOrder ahead → (cs : Cells) → IsSorted cs → IsSorted (insert ahead c cs)
  unfolding insert
  insert-IsSorted o [] h = (tt, tt)
  insert-IsSorted o (d ∷ ds) h = elim (Bool-cases (gt_int c.1.priority d.1.priority)) [
    | inl front ↦
        rw front ((ground arith, Under-mono d.1.priority c.1.priority ds (ground arith) h.0), h)
    | inr behind ↦
        rw behind
          (insert_behind-Under d.1.priority ds (ground arith) h.0, insert_behind-IsSorted o ds h.1)
  ]

  insert_behind-perm : (cs : Cells) → Perm (insert_behind ahead c cs) (c ∷ cs)
  unfolding insert_behind
  insert_behind-perm [] = Perm.refl (c ∷ [])
  insert_behind-perm (d ∷ ds) = elim (Bool-cases (ahead d.1 c.1)) [
    | inl more ↦ rw more (Perm.trans (Perm.cons d (insert_behind-perm ds)) (Perm.swap c d ds))
    | inr here ↦ rw here (Perm.refl (c ∷ d ∷ ds))
  ]

  -- An insertion adds its cell and loses none.
  pub insert-perm : (cs : Cells) → Perm (insert ahead c cs) (c ∷ cs)
  unfolding insert
  insert-perm [] = Perm.refl (c ∷ [])
  insert-perm (d ∷ ds) = elim (Bool-cases (gt_int c.1.priority d.1.priority)) [
    | inl front ↦ rw front (Perm.refl (c ∷ d ∷ ds))
    | inr behind ↦ rw behind (Perm.trans (Perm.cons d (insert_behind-perm ds)) (Perm.swap c d ds))
  ]

  has-insert_behind :
      (a : ℕ) (cs : Cells)
      → has a (addresses (insert_behind ahead c cs)) ≡ ((a == c.0) || has a (addresses cs))
  unfolding insert_behind
  has-insert_behind a [] = refl
  has-insert_behind a (d ∷ ds) = ground (arith, has-insert_behind a ds)

  pub has-insert :
      (a : ℕ) (cs : Cells)
      → has a (addresses (insert ahead c cs)) ≡ ((a == c.0) || has a (addresses cs))
  unfolding insert
  has-insert a [] = refl
  has-insert a (d ∷ ds) = ground (arith, has-insert_behind a ds)

  insert_behind-Distinct :
      (cs : Cells)
      → c.0 ∉ addresses cs
      → Distinct (addresses cs)
      → Distinct (addresses (insert_behind ahead c cs))
  unfolding insert_behind
  insert_behind-Distinct [] out h = (refl, tt)
  insert_behind-Distinct (d ∷ ds) out h =
      ground (arith, insert_behind-Distinct ds, has-insert_behind d.0 ds)

  pub insert-Distinct :
      (cs : Cells)
      → c.0 ∉ addresses cs
      → Distinct (addresses cs)
      → Distinct (addresses (insert ahead c cs))
  unfolding insert
  insert-Distinct [] out h = (refl, tt)
  insert-Distinct (d ∷ ds) out h =
      ground (arith, insert_behind-Distinct ds, has-insert_behind d.0 ds)

  insert_behind-All {κ} :
      (P : ℕ → Type κ) (cs : Cells)
      → P c.0
      → All P (addresses cs)
      → All P (addresses (insert_behind ahead c cs))
  unfolding insert_behind
  insert_behind-All P [] p h = (p, tt)
  insert_behind-All P (d ∷ ds) p h = elim (Bool-cases (ahead d.1 c.1)) [
    | inl more ↦ rw more (h.0, insert_behind-All P ds p h.1)
    | inr here ↦ rw here (p, h)
  ]

  pub insert-All {κ} :
      (P : ℕ → Type κ) (cs : Cells)
      → P c.0
      → All P (addresses cs)
      → All P (addresses (insert ahead c cs))
  unfolding insert
  insert-All P [] p h = (p, tt)
  insert-All P (d ∷ ds) p h = elim (Bool-cases (gt_int c.1.priority d.1.priority)) [
    | inl front ↦ rw front (p, h)
    | inr behind ↦ rw behind (h.0, insert_behind-All P ds p h.1)
  ]

  length-insert_behind : (cs : Cells) → length (insert_behind ahead c cs) ≡ suc (length cs)
  unfolding insert_behind
  length-insert_behind [] = refl
  length-insert_behind (d ∷ ds) = ground (arith, length-insert_behind ds)

  pub length-insert : (cs : Cells) → length (insert ahead c cs) ≡ suc (length cs)
  unfolding insert
  length-insert [] = refl
  length-insert (d ∷ ds) = ground (arith, length-insert_behind ds)

-- the cells of one priority, in order
unfoldable pub of_priority : ℤ → Cells → Cells
of_priority p [] = []
of_priority p (c ∷ cs) = if same_int c.1.priority p then c ∷ of_priority p cs else of_priority p cs

of_priority-nil : (p q : ℤ) (cs : Cells) → gt_int p q ≡ true → Under q cs → of_priority p cs ≡ []
unfolding of_priority
of_priority-nil p q [] gt h = refl
of_priority-nil p q (c ∷ cs) gt h = ground (arith, of_priority-nil p q cs)

insert_behind-fifo :
    (p : ℤ) (c : ℕ × Task) (cs : Cells)
    → IsSorted cs
    → of_priority p (insert_behind not_below c cs) ≡ of_priority p cs ++ of_priority p (c ∷ [])
unfolding insert_behind of_priority
insert_behind-fifo p c [] h = refl
insert_behind-fifo p c (d ∷ ds) h = ground (
  arith,
  insert_behind-fifo p c ds,
  of_priority-nil p d.1.priority ds,
  append-nil (of_priority p (d ∷ ds)),
)

-- With the test of `pqueue_push`, a task goes behind all those of its own priority, and the tasks
-- of every other priority keep their order.
pub insert-fifo :
    (p : ℤ) (c : ℕ × Task) (cs : Cells)
    → IsSorted cs
    → of_priority p (insert not_below c cs) ≡ of_priority p cs ++ of_priority p (c ∷ [])
unfolding insert of_priority
insert-fifo p c [] h = refl
insert-fifo p c (d ∷ ds) h = ground (
  arith,
  insert_behind-fifo p c ds,
  of_priority-nil p d.1.priority ds,
  append-nil (of_priority p (d ∷ ds)),
)

-- With the test of `pq_insert`, a task of the priority of the first one goes second: it overtakes
-- every older task of that priority but the first.
pub insert-overtakes :
    (c d : ℕ × Task) (ds : Cells)
    → c.1.priority ≡ d.1.priority
    → IsSorted (d ∷ ds)
    → insert above c (d ∷ ds) ≡ d ∷ c ∷ ds
unfolding insert insert_behind
insert-overtakes c d [] e h = ground arith
insert-overtakes c d (b ∷ ds) e h = ground arith
