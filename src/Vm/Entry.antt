-- ===== src/Vm/Entry.antt =====
-- kernel/vm.c: a write to the entry of an address, and a round of `mappages`.
use os_prioritypipes.Prelude.{
  ℕ, ◌/◌, ◌%◌, ◌<◌, ◌≡◌, refl, sym, ap, ◌∙◌, Bool, true, false, ◌&&◌, Option, List, [], ◌==◌,
  if◌then◌else◌, arith,
}
use os_prioritypipes.Prelude.Maps.{update}
use os_prioritypipes.Prelude.Results.{Returns, returns, bind}
use os_prioritypipes.Kalloc.Interface.{Allocator}
use os_prioritypipes.Vm.{Vm, set_entry, map_page}
use os_prioritypipes.Vm.Pte.{pte_v, make_pte, px, px_page, maxva}
use os_prioritypipes.Vm.Tree.{Kid, write-Tree}
use os_prioritypipes.Vm.Leaf.{leaf, path_whole, path-write}
use os_prioritypipes.Vm.Walk.{Ready, Walked, at, out, walk-Walked}

-- Two addresses with the same indices are on the same page.
same_page :
    (v a : ℕ)
    → v < maxva
    → a < maxva
    → ((px 2 v == px 2 a) && (px 1 v == px 1 a) && (px 0 v == px 0 a)) ≡ (v / 4096 == a / 4096)
same_page v a lt lt' = ground (arith, px_page v lt, px_page a lt')

module _ (pages : Allocator) (aligned : (p : ℕ) → pages.Valid p → p % 4096 ≡ 0) where
  -- What a write to the entry of the address `a` does.
  pub set-leaf :
      (root a q r v : ℕ) (xs : List ℕ) (s : Vm pages)
      → a < maxva
      → Ready pages aligned root xs s
      → Kid s.entries root (px 2 a) q
      → Kid s.entries q (px 1 a) r
      → Ready pages aligned root xs
          (record s { entries = update s.entries r (update (s.entries r) (px 0 a) v) })
        × ((u : ℕ)
            → u < maxva
            → leaf (update s.entries r (update (s.entries r) (px 0 a) v)) root u
              ≡ (if u / 4096 == a / 4096 then v else leaf s.entries root u))
  set-leaf root a q r v xs s lt h up down = (
    record {
      tree = write-Tree root (px 2 a) q (px 1 a) r (px 0 a) v xs s.entries up down h.tree;
      free = h.free;
    },
    λ u lt'.
        path-write root (px 2 a) q (px 1 a) r (px 0 a) v xs s.entries (px 2 u) (px 1 u) (px 0 u) up
          down h.tree
        ∙ rw (same_page u a lt' lt) refl,
  )

  -- The outcomes of a round of `mappages`.
  pub data PageMapped (root a pte : ℕ) (s : Vm pages) : Bool × Vm pages → Type 0 where
    mapped :
        {s' : Vm pages} (xs : List ℕ)
        → Ready pages aligned root xs s'
        → ((u : ℕ)
            → u < maxva
            → leaf s'.entries root u
              ≡ (if u / 4096 == a / 4096 then pte else leaf s.entries root u))
        → PageMapped root a pte s (true, s')
    no_memory :
        {s' : Vm pages}
        → Ready pages aligned root [] s'
        → ((u : ℕ) → leaf s'.entries root u ≡ leaf s.entries root u)
        → PageMapped root a pte s (false, s')

  pub map_page-PageMapped :
      (root a pa perm : ℕ) (xs : List ℕ) (s : Vm pages)
      → a < maxva
      → Ready pages aligned root xs s
      → pte_v (leaf s.entries root a) ≡ false
      → Returns (PageMapped root a (make_pte pa perm) s) (map_page pages root a pa perm s)
  unfolding map_page
  map_page-PageMapped root a pa perm xs s lt h unmapped =
      bind (walk-Walked pages aligned root a xs s lt h) (λ r w. sets w)
    where
      sets :
          {r : Option (ℕ × ℕ) × Vm pages}
          → Walked pages aligned root a s r
          → Returns (PageMapped root a (make_pte pa perm) s) (set_entry pages pa perm r)
      sets (out g same) = returns (no_memory g same)
      sets (at {s'} q r ys g up down same) =
          let empty : pte_v (s'.entries r (px 0 a)) ≡ false =
            ap pte_v
              (sym (path_whole s'.entries root (px 2 a) (px 1 a) (px 0 a) q r up down) ∙ same a)
            ∙ unmapped in
          let w = set-leaf root a q r (make_pte pa perm) ys s' lt g up down in
          rw empty (returns (mapped ys w.0 (λ u lt'. w.1 u lt' ∙ rw (same u) refl)))
