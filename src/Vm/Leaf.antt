-- ===== src/Vm/Leaf.antt =====
-- kernel/vm.c: what a page table maps an address to, and how the steps of `walk` and of its callers
-- change that.
use os_prioritypipes.Prelude.{
  ℕ, ◌%◌, ◌≡◌, ◌≢◌, refl, sym, ◌∙◌, inl, inr, false, ◌&&◌, List, ◌∷◌, ◌==◌, if◌then◌else◌,
  Bool-cases, arith,
}
use os_prioritypipes.Prelude.Maps.{update}
use os_prioritypipes.Vm.Pte.{pte_v, pte2pa, pte2pa-make_pte, px}
use os_prioritypipes.Vm.Tree.{Entries, Kid, Tree, linked}

-- the entry that three indices lead to, or 0 where the path ends before
abbrev pub path : Entries → ℕ → ℕ → ℕ → ℕ → ℕ
path t root i j k =
    if pte_v (t root i) && pte_v (t (pte2pa (t root i)) j)
    then t (pte2pa (t (pte2pa (t root i)) j)) k
    else 0

abbrev pub leaf : Entries → ℕ → ℕ → ℕ
leaf t root va = path t root (px 2 va) (px 1 va) (px 0 va)

pub path_whole :
    (t : Entries) (root i j k q r : ℕ) → Kid t root i q → Kid t q j r → path t root i j k ≡ t r k
path_whole t root i j k q r up down = rw (up.0, up.1, down.0, down.1) refl

pub path_cut1 : (t : Entries) (root i j k : ℕ) → pte_v (t root i) ≡ false → path t root i j k ≡ 0
path_cut1 t root i j k cut = rw cut refl

pub path_cut0 :
    (t : Entries) (root i j k q : ℕ)
    → Kid t root i q
    → pte_v (t q j) ≡ false
    → path t root i j k ≡ 0
path_cut0 t root i j k q up cut = rw (up.0, up.1, cut) refl

data Path3 (t : Entries) (root i j : ℕ) : Type 0 where
  whole : (q r : ℕ) → Kid t root i q → Kid t q j r → Path3 t root i j
  cut1 : pte_v (t root i) ≡ false → Path3 t root i j
  cut0 : (q : ℕ) → Kid t root i q → pte_v (t q j) ≡ false → Path3 t root i j

find_path : (t : Entries) (root i j : ℕ) → Path3 t root i j
find_path t root i j = elim (Bool-cases (pte_v (t root i))) [
  | inr cut ↦ cut1 cut
  | inl up ↦ elim (Bool-cases (pte_v (t (pte2pa (t root i)) j))) [
    | inr cut ↦ cut0 (pte2pa (t root i)) (up, refl) cut
    | inl down ↦
        whole (pte2pa (t root i)) (pte2pa (t (pte2pa (t root i)) j)) (up, refl) (down, refl)
  ]
]

-- A page of zeros changes no entry that an address leads to.
pub path-link1 :
    (root o x : ℕ) (xs : List ℕ) (t : Entries) (i j k : ℕ)
    → x % 4096 ≡ 0
    → pte_v (t root o) ≡ false
    → Tree root t (x ∷ xs)
    → path (linked root o x t) root i j k ≡ path t root i j k
path-link1 root o x xs t i j k al empty h =
    let ne : root ≢ x = ground (arith, h.root_used) in
    let m = pte2pa-make_pte x 0 al (omega arith) in
    let t' = linked root o x t in
    elim (find_path t root i j) [
      | whole q r up down ↦
          let up' : Kid t' root i q = ground (arith, up, empty, ne) in
          let down' : Kid t' q j r = ground (arith, down, h.used1 i q up) in
          path_whole t' root i j k q r up' down'
          ∙ ground (arith, h.used0 i q j r up down)
          ∙ sym (path_whole t root i j k q r up down)
      | cut1 cut ↦ elim (Bool-cases (i == o)) [
        | inl here ↦
            let up' : Kid t' root i x = ground (arith, m, here) in
            path_cut0 t' root i j k x up' (ground (arith, ne)) ∙ sym (path_cut1 t root i j k cut)
        | inr other ↦
            let cut' : pte_v (t' root i) ≡ false = ground (arith, cut, other, ne) in
            path_cut1 t' root i j k cut' ∙ sym (path_cut1 t root i j k cut)
      ]
      | cut0 q up cut ↦
          let up' : Kid t' root i q = ground (arith, up, empty, ne) in
          let cut' : pte_v (t' q j) ≡ false = ground (arith, cut, h.used1 i q up) in
          path_cut0 t' root i j k q up' cut' ∙ sym (path_cut0 t root i j k q up cut)
    ]

pub path-link0 :
    (root o p b x : ℕ) (xs : List ℕ) (t : Entries) (i j k : ℕ)
    → x % 4096 ≡ 0
    → Kid t root o p
    → pte_v (t p b) ≡ false
    → Tree root t (x ∷ xs)
    → path (linked p b x t) root i j k ≡ path t root i j k
path-link0 root o p b x xs t i j k al above empty h =
    let ne : root ≢ x = ground (arith, h.root_used) in
    let m = pte2pa-make_pte x 0 al (omega arith) in
    let t' = linked p b x t in
    elim (find_path t root i j) [
      | whole q r up down ↦
          let up' : Kid t' root i q = ground (arith, up, h.used1 o p above, ne) in
          let down' : Kid t' q j r = ground (arith, down, empty, h.used1 i q up) in
          path_whole t' root i j k q r up' down'
          ∙ ground (arith, h.used0 i q j r up down, h.levels i q j r o p up down above)
          ∙ sym (path_whole t root i j k q r up down)
      | cut1 cut ↦
          let cut' : pte_v (t' root i) ≡ false = ground (arith, cut, h.used1 o p above, ne) in
          path_cut1 t' root i j k cut' ∙ sym (path_cut1 t root i j k cut)
      | cut0 q up cut ↦
          let up' : Kid t' root i q = ground (arith, up, h.used1 o p above, ne) in
          elim (Bool-cases ((q == p) && (j == b))) [
            | inl here ↦
                let down' : Kid t' q j x = ground (arith, m, here) in
                path_whole t' root i j k q x up' down'
                ∙ ground (arith, h.used1 o p above)
                ∙ sym (path_cut0 t root i j k q up cut)
            | inr other ↦
                let cut' : pte_v (t' q j) ≡ false = ground (arith, cut, other, h.used1 i q up) in
                path_cut0 t' root i j k q up' cut' ∙ sym (path_cut0 t root i j k q up cut)
          ]
    ]

-- A write to the entry that three indices lead to changes it alone.
pub path-write :
    (root a q b r k v : ℕ) (xs : List ℕ) (t : Entries) (i j l : ℕ)
    → Kid t root a q
    → Kid t q b r
    → Tree root t xs
    → path (update t r (update (t r) k v)) root i j l
      ≡ (if (i == a) && (j == b) && (l == k) then v else path t root i j l)
path-write root a q b r k v xs t i j l up down h =
    let t' = update t r (update (t r) k v) in
    let top : r ≢ root = (h.used0 a q b r up down).0 in
    elim (find_path t root i j) [
      | whole c d u w ↦
          let u' : Kid t' root i c = ground (arith, u, top) in
          let w' : Kid t' c j d = ground (arith, w, h.levels a q b r i c up down u) in
          path_whole t' root i j l c d u' w'
          ∙ ground (
            arith,
            path_whole t root i j l c d u w,
            h.one0 a q b r i c j up down u,
            w,
            up,
            down,
            u,
          )
      | cut1 cut ↦
          let cut' : pte_v (t' root i) ≡ false = ground (arith, cut, top) in
          path_cut1 t' root i j l cut' ∙ ground (arith, path_cut1 t root i j l cut, cut, up)
      | cut0 c u cut ↦
          let u' : Kid t' root i c = ground (arith, u, top) in
          let cut' : pte_v (t' c j) ≡ false = ground (arith, cut, h.levels a q b r i c up down u) in
          path_cut0 t' root i j l c u' cut'
          ∙ ground (arith, path_cut0 t root i j l c u cut, up, u, cut, down)
    ]
