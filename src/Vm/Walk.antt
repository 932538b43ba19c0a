-- ===== src/Vm/Walk.antt =====
-- kernel/vm.c: `walk`.
use os_prioritypipes.Prelude.{
  ℕ, ◌%◌, ◌<◌, ◌≡◌, refl, ◌∙◌, inl, inr, true, false, Option, none, some, List, [], ◌∷◌, ◌==◌, leb,
  Bool-cases, arith,
}
use os_prioritypipes.Prelude.Results.{Returns, returns}
use os_prioritypipes.Kalloc.Interface.{Allocator}
use os_prioritypipes.Vm.{Vm, walk_level, walk_end, walk_on, walk}
use os_prioritypipes.Vm.Pte.{pte_v, pte2pa, pte2pa-make_pte, px, maxva}
use os_prioritypipes.Vm.Tree.{Kid, Tree, link1-Tree, link0-Tree}
use os_prioritypipes.Vm.Leaf.{leaf, path, path_cut1, path_cut0, path-link1, path-link0}

module _ (pages : Allocator) (aligned : (p : ℕ) → pages.Valid p → p % 4096 ≡ 0) where
  -- The page table at `root` with the free pages `xs`.
  pub record Ready (root : ℕ) (xs : List ℕ) (s : Vm pages) : Type 0 where
    pub tree : Tree root s.entries xs
    pub free : pages.Free s.memory xs

  -- One level, from the root: the entry points to a page and no address is mapped anew, or there is
  -- no free page.
  data Stepped (root p i : ℕ) (s : Vm pages) : Option ℕ × Vm pages → Type 0 where
    down :
        {s' : Vm pages} {q : ℕ} (xs : List ℕ)
        → Ready root xs s'
        → Kid s'.entries p i q
        → ((o u : ℕ) → Kid s.entries root o u → Kid s'.entries root o u)
        → ((a b c : ℕ) → path s'.entries root a b c ≡ path s.entries root a b c)
        → Stepped root p i s (some q, s')
    full :
        {s' : Vm pages}
        → Ready root [] s'
        → ((a b c : ℕ) → path s'.entries root a b c ≡ path s.entries root a b c)
        → Stepped root p i s (none, s')

  level1-Stepped :
      (root i : ℕ) (xs : List ℕ) (s : Vm pages)
      → Ready root xs s
      → Stepped root root i s (walk_level pages true root i s)
  unfolding walk_level
  level1-Stepped root i xs s h = elim (Bool-cases (pte_v (s.entries root i))) [
    | inl present ↦ rw present (down xs h (present, refl) (λ o u k. k) (λ a b c. refl))
    | inr absent ↦ allocates xs h absent
  ]
    where
      allocates :
          (ys : List ℕ)
          → Ready root ys s
          → pte_v (s.entries root i) ≡ false
          → Stepped root root i s (walk_level pages true root i s)
      allocates [] r absent =
          let e = pages.alloc_nil s.memory r.free in
          rw (absent, e) (full record { tree = r.tree; free = r.free } (λ a b c. refl))
      allocates (x ∷ ys) r absent =
          let (e, nz, valid, fresh, free') = pages.alloc_cons s.memory x ys r.free in
          let al = aligned x valid in
          let some_page : (x == 0) ≡ false = ground (arith, nz) in
          rw (absent, e, some_page, some_page)
            (down ys
              record { tree = link1-Tree root i x ys s.entries al fresh r.tree; free = free' }
              (ground (arith, pte2pa-make_pte x 0 al (omega arith)))
              (λ o u k. ground (arith, k, absent, r.tree.root_used))
              (λ a b c. path-link1 root i x ys s.entries a b c al absent r.tree))

  level0-Stepped :
      (root o p i : ℕ) (xs : List ℕ) (s : Vm pages)
      → Ready root xs s
      → Kid s.entries root o p
      → Stepped root p i s (walk_level pages true p i s)
  unfolding walk_level
  level0-Stepped root o p i xs s h up = elim (Bool-cases (pte_v (s.entries p i))) [
    | inl present ↦ rw present (down xs h (present, refl) (λ o u k. k) (λ a b c. refl))
    | inr absent ↦ allocates xs h absent
  ]
    where
      allocates :
          (ys : List ℕ)
          → Ready root ys s
          → pte_v (s.entries p i) ≡ false
          → Stepped root p i s (walk_level pages true p i s)
      allocates [] r absent =
          let e = pages.alloc_nil s.memory r.free in
          rw (absent, e) (full record { tree = r.tree; free = r.free } (λ a b c. refl))
      allocates (x ∷ ys) r absent =
          let (e, nz, valid, fresh, free') = pages.alloc_cons s.memory x ys r.free in
          let al = aligned x valid in
          let some_page : (x == 0) ≡ false = ground (arith, nz) in
          rw (absent, e, some_page, some_page)
            (down ys
              record {
                tree = link0-Tree root o p i x ys s.entries al fresh up r.tree;
                free = free';
              }
              (ground (arith, pte2pa-make_pte x 0 al (omega arith)))
              (λ u q k. ground (arith, k, r.tree.root_used, r.tree.used1 o p up))
              (λ a b c. path-link0 root o p i x ys s.entries a b c al up absent r.tree))

  -- The outcomes of `walk` with `alloc`: a pointer to the entry of the address, and no address is
  -- mapped anew, or there is no free page.
  pub data Walked (root va : ℕ) (s : Vm pages) : Option (ℕ × ℕ) × Vm pages → Type 0 where
    at :
        {s' : Vm pages} (q r : ℕ) (xs : List ℕ)
        → Ready root xs s'
        → Kid s'.entries root (px 2 va) q
        → Kid s'.entries q (px 1 va) r
        → ((v : ℕ) → leaf s'.entries root v ≡ leaf s.entries root v)
        → Walked root va s (some (r, px 0 va), s')
    out :
        {s' : Vm pages}
        → Ready root [] s'
        → ((v : ℕ) → leaf s'.entries root v ≡ leaf s.entries root v)
        → Walked root va s (none, s')

  pub walk-Walked :
      (root va : ℕ) (xs : List ℕ) (s : Vm pages)
      → va < maxva
      → Ready root xs s
      → Returns (Walked root va s) (walk pages root va true s)
  unfolding walk
  walk-Walked root va xs s lt h =
      rw inside (returns (level1_done (level1-Stepped root (px 2 va) xs s h)))
    where
      inside : leb maxva va ≡ false
      inside = ground (arith, lt)

      level0_done :
          {u : Vm pages} {q : ℕ} {r : Option ℕ × Vm pages}
          → Kid u.entries root (px 2 va) q
          → ((v : ℕ) → leaf u.entries root v ≡ leaf s.entries root v)
          → Stepped root q (px 1 va) u r
          → Walked root va s (walk_end pages va r)
      level0_done up same (down ys g kid keep same') =
          at _ _ ys g (keep _ _ up) kid (λ v. same' _ _ _ ∙ same v)
      level0_done up same (full g same') = out g (λ v. same' _ _ _ ∙ same v)

      level1_done :
          {r : Option ℕ × Vm pages}
          → Stepped root root (px 2 va) s r
          → Walked root va s (walk_on pages va true r)
      level1_done (down {s'} {q} ys g kid keep same) =
          level0_done kid (λ v. same _ _ _) (level0-Stepped root (px 2 va) q (px 1 va) ys s' g kid)
      level1_done (full g same) = out g (λ v. same _ _ _)

  -- The outcomes of `walk` without `alloc`, which changes nothing.
  pub data Found (root va : ℕ) (s : Vm pages) : Option (ℕ × ℕ) × Vm pages → Type 0 where
    there :
        (q r : ℕ)
        → Kid s.entries root (px 2 va) q
        → Kid s.entries q (px 1 va) r
        → Found root va s (some (r, px 0 va), s)
    not_there : leaf s.entries root va ≡ 0 → Found root va s (none, s)

  pub walk-Found :
      (root va : ℕ) (s : Vm pages)
      → va < maxva
      → Returns (Found root va s) (walk pages root va false s)
  unfolding walk walk_level
  walk-Found root va s lt = elim (Bool-cases (pte_v (s.entries root (px 2 va)))) [
    | inr cut ↦
        rw (inside, cut)
          (returns (not_there (path_cut1 s.entries root (px 2 va) (px 1 va) (px 0 va) cut)))
    | inl up ↦
        let q = pte2pa (s.entries root (px 2 va)) in
        elim (Bool-cases (pte_v (s.entries q (px 1 va)))) [
          | inr cut ↦
              rw (inside, up, cut)
                (returns (
                  not_there
                    (path_cut0 s.entries root (px 2 va) (px 1 va) (px 0 va) q (up, refl) cut)))
          | inl lower ↦
              rw (inside, up, lower)
                (returns (there q (pte2pa (s.entries q (px 1 va))) (up, refl) (lower, refl)))
        ]
  ]
    where
      inside : leb maxva va ≡ false
      inside = ground (arith, lt)
