-- ===== src/Vm/CopyOut.antt =====
-- kernel/vm.c: `copyout` against the copy of one byte after the other.
use os_prioritypipes.Prelude.{
  ℕ, zero, suc, ◌+◌, ◌-◌, ◌*◌, ◌/◌, ◌%◌, ◌≤◌, ◌<◌, ◌≡◌, refl, sym, ap, ◌∙◌, ◌⊎◌, inl, inr, Bool,
  true, false, ◌&&◌, not, Option, none, some, Option-cases, List, [], ◌∷◌, length, take, drop,
  length-drop, ◌==◌, leb, min, if◌then◌else◌, Bool-cases, arith,
}
use os_prioritypipes.Prelude.Maps.{update}
use os_prioritypipes.Prelude.Results.{Result, ok, ◌>>=◌, Returns, returns}
use os_prioritypipes.Kalloc.Interface.{Allocator}
use os_prioritypipes.Vm.{Vm, walk}
use os_prioritypipes.Vm.Pte.{maxva, pte_v, pte_u, pte_w, pte2pa, px}
use os_prioritypipes.Vm.Leaf.{leaf, path_whole}
use os_prioritypipes.Vm.Walk.{Found, there, not_there, walk-Found}
use os_prioritypipes.Vm.User.{write, writable_page, write_page, copyout_from, copyout}
use os_prioritypipes.Vm.Copy.{next_page}

module _ (pages : Allocator) (aligned : (p : ℕ) → pages.Valid p → p % 4096 ≡ 0) where
  -- The page that the user may write to at an address, if there is one.
  abbrev pub user_writable : ℕ → ℕ → Vm pages → Option ℕ
  user_writable root va s =
      let pte = leaf s.entries root va in
      if not (leb maxva va) && pte_v pte && pte_u pte && pte_w pte then some (pte2pa pte) else none

  same_writable :
      (root u v : ℕ) (s : Vm pages)
      → u / 4096 ≡ v / 4096
      → user_writable root u s ≡ user_writable root v s
  same_writable root u v s same =
      let e2 : px 2 u ≡ px 2 v = omega (arith, same) in
      let e1 : px 1 u ≡ px 1 v = omega (arith, same) in
      let e0 : px 0 u ≡ px 0 v = omega (arith, same) in
      let beyond : leb maxva u ≡ leb maxva v = ground (arith, same) in rw (e2, e1, e0, beyond) refl

  -- `walk` and the tests of `copyout`
  walk-writable :
      (root va : ℕ) (s : Vm pages)
      → leb maxva va ≡ false
      → (after : Option ℕ → Result (Bool × (ℕ → ℕ)))
      → (walk pages root va false s >>= λ r. after (writable_page pages s r.0))
        ≡ after (user_writable root va s)
  walk-writable root va s inside after =
      found (walk-Found pages aligned root va s (ground (arith, inside)))
    where
      found :
          {r : Result (Option (ℕ × ℕ) × Vm pages)}
          → Returns (Found pages aligned root va s) r
          → (r >>= λ q. after (writable_page pages s q.0)) ≡ after (user_writable root va s)
      found (returns (there q r up down)) =
          rw (path_whole s.entries root (px 2 va) (px 1 va) (px 0 va) q r up down, inside) refl
      found (returns (not_there cut)) = rw (cut, inside) refl

  -- One byte after the other, as far as the user may write.
  abbrev pub put_byte : ℕ → ℕ → ((ℕ → ℕ) → Bool × (ℕ → ℕ)) → (ℕ → ℕ) → Option ℕ → Bool × (ℕ → ℕ)
  put_byte offset b rest bytes none = (false, bytes)
  put_byte offset b rest bytes (some page) = rest (update bytes (page + offset) b)

  abbrev pub write_at : ℕ → ℕ → List ℕ → (ℕ → ℕ) → Vm pages → Bool × (ℕ → ℕ)
  write_at root va [] bytes s = (true, bytes)
  write_at root va (b ∷ bs) bytes s =
      put_byte (va % 4096) b (λ m. write_at root (va + 1) bs m s) bytes (user_writable root va s)

  -- the bytes for one page, and those after it
  write_at-page :
      (n : ℕ) (src : List ℕ) (va va0 next q page root : ℕ) (bytes : ℕ → ℕ) (s : Vm pages)
      → n ≤ length src
      → (length src - n ≡ 0) ⊎ (next ≡ va + n)
      → va0 % 4096 ≡ 0
      → va0 ≤ va
      → va + n ≤ va0 + 4096
      → user_writable root va0 s ≡ some page
      → q ≡ page + (va - va0)
      → write_at root va src bytes s
        ≡ write_at root next (drop n src) (write (take n src) q bytes) s
  write_at-page zero [] va va0 next q page root bytes s le over al lo hi e eq = refl
  write_at-page zero (b ∷ src) va va0 next q page root bytes s le (inl over) al lo hi e eq =
      absurd (omega (arith, over))
  write_at-page zero (b ∷ src) va va0 next q page root bytes s le (inr follows) al lo hi e eq =
      let same : next ≡ va = omega (arith, follows) in rw same refl
  write_at-page (suc n) [] va va0 next q page root bytes s le over al lo hi e eq =
      absurd (omega (arith, le))
  write_at-page (suc n) (b ∷ src) va va0 next q page root bytes s le over al lo hi e eq =
      let here : user_writable root va s ≡ some page =
        same_writable root va va0 s (omega (arith, al, lo, hi)) ∙ e in
      let place : page + va % 4096 ≡ q = omega (arith, al, lo, hi, eq) in
      rw (here, place)
        (write_at-page n src (va + 1) va0 next (q + 1) page root (update bytes q b) s
          (omega (arith, le)) (ground (arith, over)) al (omega (arith, lo)) (omega (arith, hi)) e
          (omega (arith, eq, lo)))

  copyout_from_lem :
      (rounds root va : ℕ) (src : List ℕ) (bytes : ℕ → ℕ) (s : Vm pages)
      → length src < rounds
      → copyout_from pages rounds root va src bytes s ≡ ok (write_at root va src bytes s)
  unfolding copyout_from
  copyout_from_lem zero root va src bytes s lt = absurd (omega (arith, lt))
  copyout_from_lem (suc rounds) root va [] bytes s lt = refl
  copyout_from_lem (suc rounds) root va (b ∷ bs) bytes s lt =
      let va0 = va / 4096 * 4096 in
      let src = b ∷ bs in
      let n = min (4096 - (va - va0)) (length src) in
      let some_bytes : (suc (length bs) == 0) ≡ false = ground arith in
      elim (Bool-cases (leb maxva va0)) [
        | inl beyond ↦
            let here : user_writable root va s ≡ none =
              same_writable root va va0 s (omega arith) ∙ rw beyond refl in
            rw (some_bytes, beyond, here) refl
        | inr inside ↦ elim (Option-cases (user_writable root va0 s)) [
          | inl unmapped ↦
              let here : user_writable root va s ≡ none =
                same_writable root va va0 s (omega arith) ∙ unmapped in
              rw (some_bytes, inside, here)
                (walk-writable root va0 s inside (
                    write_page pages (va - va0) (take n src)
                      (λ m. copyout_from pages rounds root (va0 + 4096) (drop n src) m s) bytes)
                  ∙ rw unmapped refl)
          | inr (page, mapped) ↦
              let bytes' = write (take n src) (page + (va - va0)) bytes in
              let left : length (drop n src) < rounds = omega (arith, length-drop n src, lt) in
              let rest = copyout_from_lem rounds root (va0 + 4096) (drop n src) bytes' s left in
              let page_done =
                write_at-page n src va va0 (va0 + 4096) (page + (va - va0)) page root bytes s
                  (omega arith) (next_page pages aligned va (length bs)) (omega arith) (omega arith)
                  (omega arith) mapped refl in
              let round : copyout_from pages (suc rounds) root va src bytes s
                  ≡ ok (write_at root (va0 + 4096) (drop n src) bytes' s) =
                rw (some_bytes, inside)
                  (walk-writable root va0 s inside (
                      write_page pages (va - va0) (take n src)
                        (λ m. copyout_from pages rounds root (va0 + 4096) (drop n src) m s) bytes)
                    ∙ rw mapped rest) in
              round ∙ sym (ap ok page_done)
        ]
      ]

  -- `copyout` copies byte after byte, up to the first address that the user may not write, and
  -- returns 0 if there is none among them; what it copies before is the part of the bytes on the
  -- pages before.
  pub copyout-write_at :
      (root va : ℕ) (src : List ℕ) (bytes : ℕ → ℕ) (s : Vm pages)
      → copyout pages root va src bytes s ≡ ok (write_at root va src bytes s)
  unfolding copyout
  copyout-write_at root va src bytes s =
      copyout_from_lem (length src + 1) root va src bytes s (omega arith)
