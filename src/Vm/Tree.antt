-- ===== src/Vm/Tree.antt =====
-- kernel/vm.c: page-table pages form a tree of three levels, so that a change at one address is no
-- change at another.
use os_prioritypipes.Prelude.{
  ℕ, ◌%◌, ◌≡◌, ◌≢◌, ◌⊎◌, inl, inr, true, List, ◌∷◌, ◌==◌, Bool-cases, arith,
}
use os_prioritypipes.Prelude.Maps.{update}
use os_prioritypipes.Prelude.Sets.{◌∉◌}
use os_prioritypipes.Vm.Pte.{pte_v, pte2pa, make_pte, pte2pa-make_pte}

abbrev pub Entries : Type 0
Entries = ℕ → ℕ → ℕ

-- The entry `i` of the page `p` points to the page `q`.
abbrev pub Kid : Entries → ℕ → ℕ → ℕ → Type 0
Kid t p i q = (pte_v (t p i) ≡ true) × (pte2pa (t p i) ≡ q)

-- The pages of the two lower levels are not the root, nor free, nor each other.
pub record Tree (root : ℕ) (t : Entries) (xs : List ℕ) : Type 0 where
  pub root_used : root ∉ xs
  pub used1 : (i q : ℕ) → Kid t root i q → (q ≢ root) × (q ∉ xs)
  pub one1 : (i i' q : ℕ) → Kid t root i q → Kid t root i' q → i ≡ i'
  pub used0 : (i q j r : ℕ) → Kid t root i q → Kid t q j r → (r ≢ root) × (r ∉ xs)
  pub levels : (i q j r i' s : ℕ) → Kid t root i q → Kid t q j r → Kid t root i' s → r ≢ s
  pub one0 :
      (i q j r i' q' j' : ℕ)
      → Kid t root i q
      → Kid t q j r
      → Kid t root i' q'
      → Kid t q' j' r
      → (i ≡ i') × (j ≡ j')

-- The table with the zeroed page `x` put at the entry `i` of the page `p`.
abbrev pub linked : ℕ → ℕ → ℕ → Entries → Entries
linked p i x t = let t1 = update t x (λ e. 0) in update t1 p (update (t1 p) i (make_pte x 0))

-- what its entries point to
linked-Kid :
    (p i x q b r : ℕ) (t : Entries)
    → x % 4096 ≡ 0
    → p ≢ x
    → Kid (linked p i x t) q b r
    → ((q ≡ p) × (b ≡ i) × (r ≡ x)) ⊎ ((q ≢ x) × ((q ≡ p) → b ≢ i) × Kid t q b r)
linked-Kid p i x q b r t al ne k =
    let m = pte2pa-make_pte x 0 al (omega arith) in
    elim (Bool-cases (q == p)) [
      | inl at_p ↦ elim (Bool-cases (b == i)) [
        | inl at_i ↦ inl (ground (arith, at_p), ground (arith, at_i), ground (arith, k, m))
        | inr other ↦ inr (ground (arith, at_p), λ e. ground (arith, other), ground (arith, k))
      ]
      | inr below ↦ inr (ground (arith, k), λ e. ground (arith, below), ground (arith, k))
    ]

-- a new page at the entry `i` of the root
pub link1-Tree :
    (root i x : ℕ) (xs : List ℕ) (t : Entries)
    → x % 4096 ≡ 0
    → x ∉ xs
    → Tree root t (x ∷ xs)
    → Tree root (linked root i x t) xs
link1-Tree root i x xs t al fresh h =
    let ne : root ≢ x = ground (arith, h.root_used) in
    let kid : (q b r : ℕ)
        → Kid (linked root i x t) q b r
        → ((q ≡ root) × (b ≡ i) × (r ≡ x)) ⊎ ((q ≢ x) × ((q ≡ root) → b ≢ i) × Kid t q b r) =
      λ q b r k. linked-Kid root i x q b r t al ne k in
    record {
      root_used = ground (arith, h.root_used);
      used1 = λ a q k. ground (arith, kid root a q k, h.used1 a q, fresh);
      one1 = λ a a' q k k'.
          ground
            (arith, kid root a q k, kid root a' q k', h.used1 a q, h.used1 a' q, h.one1 a a' q);
      used0 = λ a q b r k k'.
          ground (arith, kid root a q k, kid q b r k', h.used1 a q, h.used0 a q b r);
      levels = λ a q b r a' c k k' k''. ground (
        arith,
        kid root a q k,
        kid q b r k',
        kid root a' c k'',
        h.used1 a q,
        h.used1 a' c,
        h.used0 a q b r,
        h.levels a q b r a' c,
      );
      one0 = λ a q b r a' q' b' k l k' l'. ground (
        arith,
        kid root a q k,
        kid q b r l,
        kid root a' q' k',
        kid q' b' r l',
        h.used1 a q,
        h.used1 a' q',
        h.one0 a q b r a' q' b',
      );
    }

-- a new page at an entry of a page of the middle level
pub link0-Tree :
    (root o p i x : ℕ) (xs : List ℕ) (t : Entries)
    → x % 4096 ≡ 0
    → x ∉ xs
    → Kid t root o p
    → Tree root t (x ∷ xs)
    → Tree root (linked p i x t) xs
link0-Tree root o p i x xs t al fresh up h =
    let ne : p ≢ x = ground (arith, h.used1 o p up) in
    let kid : (q b r : ℕ)
        → Kid (linked p i x t) q b r
        → ((q ≡ p) × (b ≡ i) × (r ≡ x)) ⊎ ((q ≢ x) × ((q ≡ p) → b ≢ i) × Kid t q b r) =
      λ q b r k. linked-Kid p i x q b r t al ne k in
    record {
      root_used = ground (arith, h.root_used);
      used1 = λ a q k. ground (arith, kid root a q k, h.used1 a q, h.used1 o p up);
      one1 = λ a a' q k k'.
          ground (arith, kid root a q k, kid root a' q k', h.used1 o p up, h.one1 a a' q);
      used0 = λ a q b r k k'. ground (
        arith,
        kid root a q k,
        kid q b r k',
        h.used1 a q,
        h.used0 a q b r,
        h.used1 o p up,
        h.root_used,
        fresh,
      );
      levels = λ a q b r a' c k k' k''. ground (
        arith,
        kid root a q k,
        kid q b r k',
        kid root a' c k'',
        h.used1 a q,
        h.used1 a' c,
        h.used0 a q b r,
        h.levels a q b r a' c,
        h.used1 o p up,
      );
      one0 = λ a q b r a' q' b' k l k' l'. ground (
        arith,
        kid root a q k,
        kid q b r l,
        kid root a' q' k',
        kid q' b' r l',
        h.used1 o p up,
        h.used0 a q b r,
        h.used0 a' q' b' r,
        h.one1 a o p,
        h.one1 a' o p,
        h.one0 a q b r a' q' b',
      );
    }

-- a change in a page of the lowest level
pub write-Tree :
    (root a q b r k v : ℕ) (xs : List ℕ) (t : Entries)
    → Kid t root a q
    → Kid t q b r
    → Tree root t xs
    → Tree root (update t r (update (t r) k v)) xs
write-Tree root a q b r k v xs t up down h =
    let t' = update t r (update (t r) k v) in
    let top : (i c : ℕ) → Kid t' root i c → Kid t root i c =
      λ i c kid. ground (arith, kid, h.used0 a q b r up down) in
    let low : (i c j d : ℕ) → Kid t' root i c → Kid t' c j d → Kid t c j d = λ i c j d kid kid'.
      let apart : r ≢ c = h.levels a q b r i c up down (top i c kid) in
      ground (arith, kid', apart) in
    record {
      root_used = h.root_used;
      used1 = λ i c u. h.used1 i c (top i c u);
      one1 = λ i i' c u u'. h.one1 i i' c (top i c u) (top i' c u');
      used0 = λ i c j d u w. h.used0 i c j d (top i c u) (low i c j d u w);
      levels =
          λ i c j d i' e u w u'. h.levels i c j d i' e (top i c u) (low i c j d u w) (top i' e u');
      one0 = λ i c j d i' c' j' u w u' w'.
          h.one0 i c j d i' c' j' (top i c u) (low i c j d u w) (top i' c' u')
            (low i' c' j' d u' w');
    }
