-- ===== src/Vm/Mapping.antt =====
-- kernel/vm.c: `mappages`.
use os_prioritypipes.Prelude.{
  ℕ, zero, suc, ◌+◌, ◌-◌, ◌*◌, ◌/◌, ◌%◌, ◌≤◌, ◌<◌, ◌≡◌, refl, sym, ap, ◌∙◌, inl, inr, Bool, true,
  false, ◌&&◌, List, [], ◌==◌, leb, ltb, if◌then◌else◌, Bool-cases, arith,
}
use os_prioritypipes.Prelude.Results.{ok, panic, Returns, returns, bind, mono}
use os_prioritypipes.Kalloc.Interface.{Allocator}
use os_prioritypipes.Vm.{Vm, map_from, mappages}
use os_prioritypipes.Vm.Pte.{pte_v, make_pte, maxva}
use os_prioritypipes.Vm.Leaf.{leaf}
use os_prioritypipes.Vm.Walk.{Ready}
use os_prioritypipes.Vm.Entry.{PageMapped, mapped, no_memory, map_page-PageMapped}

module _ (pages : Allocator) (aligned : (p : ℕ) → pages.Valid p → p % 4096 ≡ 0) where
  -- The entry that `mappages` of `n` pages from `a` on gives the address `u`, over the entry `old`.
  abbrev pub covered : (a n pa perm u old : ℕ) → ℕ
  covered a n pa perm u old =
      if leb a u && ltb u (a + n * 4096) then make_pte (pa + (u - a) / 4096 * 4096) perm else old

  -- The outcomes of `mappages` of `n` pages: all of them are mapped, or the first `k`, and the
  -- allocator has no page left. No other address changes.
  pub data Mapped (root a n pa perm : ℕ) (s : Vm pages) : Bool × Vm pages → Type 0 where
    all_of :
        {s' : Vm pages} (xs : List ℕ)
        → Ready pages aligned root xs s'
        → ((u : ℕ)
            → u < maxva
            → leaf s'.entries root u ≡ covered a n pa perm u (leaf s.entries root u))
        → Mapped root a n pa perm s (true, s')
    first_of :
        {s' : Vm pages} (k : ℕ)
        → k < n
        → Ready pages aligned root [] s'
        → ((u : ℕ)
            → u < maxva
            → leaf s'.entries root u ≡ covered a k pa perm u (leaf s.entries root u))
        → Mapped root a n pa perm s (false, s')

  cover_step :
      (a k pa perm u old : ℕ)
      → a % 4096 ≡ 0
      → covered
          (a + 4096)
          k
          (pa + 4096)
          perm
          u
          (if u / 4096 == a / 4096 then make_pte pa perm else old)
        ≡ covered a (suc k) pa perm u old
  cover_step a k pa perm u old al = elim (Bool-cases (u / 4096 == a / 4096)) [
    | inl here ↦
        let same : (u - a) / 4096 ≡ 0 = ground (arith, here, al) in
        let low : leb (a + 4096) u ≡ false = ground (arith, here, al) in
        let mine : (leb a u && ltb u (a + suc k * 4096)) ≡ true = ground (arith, here, al) in
        rw (here, low, mine, same) (ap (λ m. make_pte m perm) (omega arith))
    | inr other ↦ elim (Bool-cases (leb (a + 4096) u && ltb u (a + 4096 + k * 4096))) [
      | inl after ↦
          let mine : (leb a u && ltb u (a + suc k * 4096)) ≡ true = ground (arith, after) in
          let place : pa + 4096 + (u - (a + 4096)) / 4096 * 4096 ≡ pa + (u - a) / 4096 * 4096 =
            ground (arith, after, al) in
          rw (other, after, mine, place) refl
      | inr out_of ↦
          let not_mine : (leb a u && ltb u (a + suc k * 4096)) ≡ false =
            ground (arith, other, out_of, al) in
          rw (other, out_of, not_mine) refl
    ]
  ]

  cover_none : (a pa perm u old : ℕ) → covered a 0 pa perm u old ≡ old
  cover_none a pa perm u old = ground arith

  cover_one :
      (a pa perm u old : ℕ)
      → a % 4096 ≡ 0
      → (if u / 4096 == a / 4096 then make_pte pa perm else old) ≡ covered a 1 pa perm u old
  cover_one a pa perm u old al =
      sym (cover_none (a + 4096) (pa + 4096) perm u _) ∙ cover_step a 0 pa perm u old al

  -- a round, and the rounds after it
  round_then_rest :
      (n root a pa perm : ℕ) (xs : List ℕ) (s s' : Vm pages)
      → a % 4096 ≡ 0
      → ((u : ℕ)
          → u < maxva
          → leaf s'.entries root u
            ≡ (if u / 4096 == a / 4096 then make_pte pa perm else leaf s.entries root u))
      → {r : Bool × Vm pages} → Mapped root (a + 4096) n (pa + 4096) perm s' r
      → Mapped root a (suc n) pa perm s r
  round_then_rest n root a pa perm xs s s' al one (all_of ys g rest) =
      all_of ys g (λ u lt. rest u lt ∙ rw (one u lt) (cover_step a n pa perm u _ al))
  round_then_rest n root a pa perm xs s s' al one (first_of k lt' g rest) =
      first_of (suc k) (omega (arith, lt')) g
        (λ u lt. rest u lt ∙ rw (one u lt) (cover_step a k pa perm u _ al))

  map_from-Mapped :
      (n root a last pa perm : ℕ) (xs : List ℕ) (s : Vm pages)
      → a % 4096 ≡ 0
      → last ≡ a + n * 4096
      → last + 4096 ≤ maxva
      → Ready pages aligned root xs s
      → ((u : ℕ) → u < maxva → a ≤ u → u < last + 4096 → pte_v (leaf s.entries root u) ≡ false)
      → Returns (Mapped root a (suc n) pa perm s) (map_from pages (suc n) root a last pa perm s)
  unfolding map_from
  map_from-Mapped zero root a last pa perm xs s al end fits h unmapped =
      bind
        (map_page-PageMapped pages aligned root a pa perm xs s (omega (arith, fits, end)) h
          (unmapped a (omega (arith, fits, end)) (omega arith) (omega (arith, end))))
        (λ r m. ends m)
    where
      stops : (a == last) ≡ true
      stops = ground (arith, end)

      ends :
          {r : Bool × Vm pages}
          → PageMapped pages aligned root a (make_pte pa perm) s r
          → Returns
              (Mapped root a 1 pa perm s)
              (if r.0 then (if a == last then ok (true, r.1) else panic) else ok (false, r.1))
      ends (no_memory g same) =
          returns (first_of 0 (omega arith) g (λ u lt. same u ∙ sym (cover_none a pa perm u _)))
      ends (mapped ys g set) =
          rw stops (returns (all_of ys g (λ u lt. set u lt ∙ cover_one a pa perm u _ al)))
  map_from-Mapped (suc n) root a last pa perm xs s al end fits h unmapped =
      bind
        (map_page-PageMapped pages aligned root a pa perm xs s (omega (arith, fits, end)) h
          (unmapped a (omega (arith, fits, end)) (omega arith) (omega (arith, end))))
        (λ r m. goes_on m (λ ys s' g set.
          map_from-Mapped n root (a + 4096) last (pa + 4096) perm ys s' (omega (arith, al))
            (omega (arith, end)) fits g
            (λ u lt lo hi.
              ap pte_v (set u lt) ∙ rw (later u lo) (unmapped u lt (omega (arith, lo)) hi))))
    where
      later : (u : ℕ) → a + 4096 ≤ u → (u / 4096 == a / 4096) ≡ false
      later u lo = ground (arith, lo)

      goes : (a == last) ≡ false
      goes = ground (arith, end)

      goes_on :
          {r : Bool × Vm pages}
          → PageMapped pages aligned root a (make_pte pa perm) s r
          → ((ys : List ℕ) (s' : Vm pages)
              → Ready pages aligned root ys s'
              → ((u : ℕ)
                  → u < maxva
                  → leaf s'.entries root u
                    ≡ (if u / 4096 == a / 4096 then make_pte pa perm else leaf s.entries root u))
              → Returns
                  (Mapped root (a + 4096) (suc n) (pa + 4096) perm s')
                  (map_from pages (suc n) root (a + 4096) last (pa + 4096) perm s'))
          → Returns (Mapped root a (suc (suc n)) pa perm s) (
              if r.0
              then (if a == last
                  then ok (true, r.1)
                  else map_from pages (suc n) root (a + 4096) last (pa + 4096) perm r.1)
              else ok (false, r.1))
      goes_on (no_memory g same) rest =
          returns (first_of 0 (omega arith) g (λ u lt. same u ∙ sym (cover_none a pa perm u _)))
      goes_on (mapped {s'} ys g set) rest =
          rw goes (
            mono (rest ys s' g set)
              (λ r m. round_then_rest (suc n) root a pa perm ys s s' al set m))

  -- `mappages` of some pages that are not mapped maps each page of the range to the page of physical
  -- memory at the same distance, with the flags, and no other address. If the allocator runs out of
  -- pages it returns -1, and a first part of the range is mapped.
  pub mappages-Mapped :
      (n root va pa perm : ℕ) (xs : List ℕ) (s : Vm pages)
      → va % 4096 ≡ 0
      → va + suc n * 4096 ≤ maxva
      → Ready pages aligned root xs s
      → ((u : ℕ)
          → u < maxva
          → va ≤ u
          → u < va + suc n * 4096
          → pte_v (leaf s.entries root u) ≡ false)
      → Returns (Mapped root va (suc n) pa perm s) (mappages pages root va (suc n * 4096) pa perm s)
  unfolding mappages
  mappages-Mapped n root va pa perm xs s al fits h unmapped =
      let aligned_va : (va % 4096 == 0) ≡ true = ground (arith, al) in
      let aligned_size : (suc n * 4096 % 4096 == 0) ≡ true = ground arith in
      let some_pages : (suc n * 4096 == 0) ≡ false = ground arith in
      let rounds : suc n * 4096 / 4096 ≡ suc n = omega arith in
      rw (aligned_va, aligned_size, some_pages, rounds)
        (map_from-Mapped n root va (va + suc n * 4096 - 4096) pa perm xs s al (omega arith)
          (omega (arith, fits)) h (λ u lt lo hi. unmapped u lt lo (omega (arith, hi))))
