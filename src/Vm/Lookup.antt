-- ===== src/Vm/Lookup.antt =====
-- kernel/vm.c: `walkaddr` and `uvmunmap`.
use os_prioritypipes.Prelude.{
  ℕ, zero, suc, ◌+◌, ◌*◌, ◌/◌, ◌%◌, ◌≤◌, ◌<◌, ◌≡◌, ◌≢◌, refl, sym, ap, ◌∙◌, inl, inr, true, false,
  ◌&&◌, not, Option, List, ◌==◌, leb, ltb, if◌then◌else◌, Bool-cases, arith,
}
use os_prioritypipes.Prelude.Results.{Result, ok, ◌>>=◌, Returns, returns, bind, mono}
use os_prioritypipes.Kalloc.Interface.{Allocator}
use os_prioritypipes.Vm.{Vm, walkaddr, user_address, clear_entry, unmap_page, unmap_from, uvmunmap}
use os_prioritypipes.Vm.Pte.{pte_v, pte_u, pte_flags, pte2pa, px, maxva}
use os_prioritypipes.Vm.Leaf.{leaf, path_whole}
use os_prioritypipes.Vm.Walk.{Ready, Found, there, not_there, walk-Found}
use os_prioritypipes.Vm.Entry.{set-leaf}

module _ (pages : Allocator) (aligned : (p : ℕ) → pages.Valid p → p % 4096 ≡ 0) where
  -- The address that the entry of `va` gives a user, or 0.
  abbrev pub user_page : ℕ → ℕ → Vm pages → ℕ
  user_page root va s =
      let pte = leaf s.entries root va in
      if not (leb maxva va) && pte_v pte && pte_u pte then pte2pa pte else 0

  -- `walkaddr` returns the physical page of a user address that is mapped, and else 0; it never
  -- panics.
  pub walkaddr-user_page :
      (root va : ℕ) (s : Vm pages) → walkaddr pages root va s ≡ ok (user_page root va s)
  unfolding walkaddr
  walkaddr-user_page root va s = elim (Bool-cases (leb maxva va)) [
    | inl beyond ↦ rw beyond refl
    | inr inside ↦ rw inside (found (walk-Found pages aligned root va s (ground (arith, inside))))
  ]
    where
      found :
          {r : Result (Option (ℕ × ℕ) × Vm pages)}
          → Returns (Found pages aligned root va s) r
          → (r >>= λ q. ok (user_address pages q.1 q.0))
            ≡ ok (
                if pte_v (leaf s.entries root va) && pte_u (leaf s.entries root va)
                then pte2pa (leaf s.entries root va)
                else 0)
      found (returns (there q r up down)) =
          rw (path_whole s.entries root (px 2 va) (px 1 va) (px 0 va) q r up down)
            (ap ok (ground (arith, s.entries r (px 0 va))))
      found (returns (not_there cut)) = rw cut refl

  -- A page is unmapped.
  unmap_page_lem :
      (root a : ℕ) (xs : List ℕ) (s : Vm pages)
      → a < maxva
      → Ready pages aligned root xs s
      → pte_v (leaf s.entries root a) ≡ true
      → pte_flags (leaf s.entries root a) ≢ 1
      → Returns
          (λ s'.
            Ready pages aligned root xs s'
            × ((u : ℕ)
                → u < maxva
                → leaf s'.entries root u
                  ≡ (if u / 4096 == a / 4096 then 0 else leaf s.entries root u)))
          (unmap_page pages root a false s)
  unfolding unmap_page
  unmap_page_lem root a xs s lt h valid is_leaf =
      bind (walk-Found pages aligned root a s lt) (λ r f. clears f)
    where
      clears :
          {r : Option (ℕ × ℕ) × Vm pages}
          → Found pages aligned root a s r
          → Returns
              (λ s'.
                Ready pages aligned root xs s'
                × ((u : ℕ)
                    → u < maxva
                    → leaf s'.entries root u
                      ≡ (if u / 4096 == a / 4096 then 0 else leaf s.entries root u)))
              (clear_entry pages false r)
      clears (not_there cut) = absurd (ground (arith, valid, cut))
      clears (there q r up down) =
          let e = path_whole s.entries root (px 2 a) (px 1 a) (px 0 a) q r up down in
          let v : pte_v (s.entries r (px 0 a)) ≡ true = ap pte_v (sym e) ∙ valid in
          let l : (pte_flags (s.entries r (px 0 a)) == 1) ≡ false = ground (arith, is_leaf, e) in
          rw (v, l) (returns (set-leaf pages aligned root a q r 0 xs s lt h up down))

  -- `uvmunmap` of pages that are mapped, without freeing them, takes away their mappings and no other.
  pub uvmunmap_clears :
      (n root va : ℕ) (xs : List ℕ) (s : Vm pages)
      → va % 4096 ≡ 0
      → va + n * 4096 ≤ maxva
      → Ready pages aligned root xs s
      → ((u : ℕ)
          → u < maxva
          → va ≤ u
          → u < va + n * 4096
          → (pte_v (leaf s.entries root u) ≡ true) × (pte_flags (leaf s.entries root u) ≢ 1))
      → Returns
          (λ s'.
            Ready pages aligned root xs s'
            × ((u : ℕ)
                → u < maxva
                → leaf s'.entries root u
                  ≡ (if leb va u && ltb u (va + n * 4096) then 0 else leaf s.entries root u)))
          (uvmunmap pages root va n false s)
  unfolding uvmunmap unmap_from
  uvmunmap_clears n root va xs s al fits h mapped =
      let aligned_va : (va % 4096 == 0) ≡ true = ground (arith, al) in
      rw aligned_va (loop n va s al fits h mapped)
    where
      loop :
          (n a : ℕ) (s : Vm pages)
          → a % 4096 ≡ 0
          → a + n * 4096 ≤ maxva
          → Ready pages aligned root xs s
          → ((u : ℕ)
              → u < maxva
              → a ≤ u
              → u < a + n * 4096
              → (pte_v (leaf s.entries root u) ≡ true) × (pte_flags (leaf s.entries root u) ≢ 1))
          → Returns
              (λ s'.
                Ready pages aligned root xs s'
                × ((u : ℕ)
                    → u < maxva
                    → leaf s'.entries root u
                      ≡ (if leb a u && ltb u (a + n * 4096) then 0 else leaf s.entries root u)))
              (unmap_from pages n root a false s)
      loop zero a s al fits h mapped = returns (h, λ u lt. ground arith)
      loop (suc n) a s al fits h mapped =
          let here = mapped a (omega (arith, fits)) (omega arith) (omega arith) in
          bind (unmap_page_lem root a xs s (omega (arith, fits)) h here.0 here.1) (λ s' g.
            mono
              (loop n (a + 4096) s' (omega (arith, al)) (omega (arith, fits)) g.0 (λ u lt lo hi.
                let kept : leaf s'.entries root u ≡ leaf s.entries root u =
                  g.1 u lt ∙ rw (later u a lo) refl in
                rw kept (mapped u lt (omega (arith, lo)) (omega (arith, hi)))))
              (λ s'' r. (
                r.0,
                λ u lt. r.1 u lt ∙ rw (g.1 u lt) (clear_step a n u (leaf s.entries root u) al),
              )))
        where
          later : (u a : ℕ) → a + 4096 ≤ u → (u / 4096 == a / 4096) ≡ false
          later u a lo = ground (arith, lo)

          clear_step :
              (a n u old : ℕ)
              → a % 4096 ≡ 0
              → (if leb (a + 4096) u && ltb u (a + 4096 + n * 4096)
                  then 0
                  else (if u / 4096 == a / 4096 then 0 else old))
                ≡ (if leb a u && ltb u (a + suc n * 4096) then 0 else old)
          clear_step a n u old al = ground (arith, al)
