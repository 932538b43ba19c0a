-- ===== src/Fs/Inodes/Clearing.antt =====
-- kernel/fs.c: the first loop of `itrunc`.
use os_prioritypipes.Prelude.{
  ℕ, zero, suc, ◌+◌, ◌≤◌, ◌<◌, ◌≡◌, ◌≢◌, refl, ap, ◌∙◌, ◌⊎◌, inl, inr, false, ◌||◌, ◌==◌,
  Bool-cases, arith,
}
use os_prioritypipes.Prelude.Maps.{update}
use os_prioritypipes.Prelude.Results.{Returns, returns, bind, mono}
use os_prioritypipes.Fs.{Superblock, Blocks}
use os_prioritypipes.Fs.Bitmap.{Sound}
use os_prioritypipes.Fs.Inodes.{Dinode, free_direct}
use os_prioritypipes.Fs.Inodes.Freeing.{
  holds, holds-ext, Frees, none-Frees, Frees-trans, bfree-Frees, Distinct, next-Distinct,
  skip-Distinct,
}

module _ (sb : Superblock) where
  -- What the first loop comes to: the numbers it passes are 0 now, and the others stay.
  pub record Cleared (rounds i : ℕ) (ip : Dinode) (d : Blocks) (r : Dinode × Blocks) : Type 0 where
    pub frees : Frees sb d (holds ip.addrs rounds i) r.1
    pub zeros : (j : ℕ) → i ≤ j → j < i + rounds → r.0.addrs j ≡ 0
    pub keeps : (j : ℕ) → (j < i) ⊎ (i + rounds ≤ j) → r.0.addrs j ≡ ip.addrs j
    pub rest : r.0 ≡ record ip { addrs = r.0.addrs }

  pub free_direct-Cleared :
      (rounds i : ℕ) (ip : Dinode) (d : Blocks)
      → Sound sb d
      → Distinct sb ip.addrs rounds i d
      → Returns (Cleared rounds i ip d) (free_direct sb rounds i ip d)
  unfolding free_direct holds
  free_direct-Cleared zero i ip d h w = returns record {
    frees = none-Frees sb d h;
    zeros = λ j lo hi. absurd (omega (arith, lo, hi));
    keeps = λ j out. refl;
    rest = refl;
  }
  free_direct-Cleared (suc rounds) i ip d h w = elim (Bool-cases (ip.addrs i == 0)) [
    | inl absent ↦
        let z : ip.addrs i ≡ 0 = ground (arith, absent) in
        rw absent (
          mono (free_direct-Cleared rounds (i + 1) ip d h (skip-Distinct sb ip.addrs rounds i d w))
            (λ r f. record {
              frees =
                  Frees-trans sb d d r.1 (λ c. false) _ _ (none-Frees sb d h) f.frees
                    (λ c behind. ground (arith, z, behind));
              zeros = λ j lo hi. elim (Bool-cases (j == i)) [
                | inl this ↦
                    let e : j ≡ i = ground (arith, this) in
                    f.keeps j (inl (omega (arith, e))) ∙ ap ip.addrs e ∙ z
                | inr other ↦ f.zeros j (ground (arith, lo, other)) (omega (arith, hi))
              ];
              keeps = λ j out. f.keeps j (wider i rounds j out);
              rest = f.rest;
            }))
    | inr there ↦
        let ne : ip.addrs i ≢ 0 = ground (arith, there) in
        let ip1 = record ip { addrs = update ip.addrs i 0 } in
        rw there (
          bind (bfree-Frees sb (ip.addrs i) d (w.used i (omega arith) (omega arith) ne) h) (λ d1 g.
            mono
              (free_direct-Cleared rounds (i + 1) ip1 d1 g.sound (
                next-Distinct sb ip.addrs ip1.addrs rounds i d d1 ne (λ j lo. ground (arith, lo)) w
                  g))
              (λ r f. record {
                frees = Frees-trans sb d d1 r.1 _ _ _ g f.frees (λ c behind.
                    ap (λ t. (ip.addrs i == c) || t)
                      (holds-ext ip.addrs ip1.addrs rounds (i + 1) c (λ j lo. ground (arith, lo))));
                zeros = λ j lo hi. elim (Bool-cases (j == i)) [
                  | inl this ↦
                      let e : j ≡ i = ground (arith, this) in
                      f.keeps j (inl (omega (arith, e))) ∙ ground (arith, e)
                  | inr other ↦ f.zeros j (ground (arith, lo, other)) (omega (arith, hi))
                ];
                keeps = λ j out. f.keeps j (wider i rounds j out) ∙ away ip.addrs i rounds j out;
                rest =
                    let set_addrs : Dinode → Dinode = λ x. record x { addrs = r.0.addrs } in f.rest;
              })))
  ]
    where
      wider : (i rounds j : ℕ) → (j < i) ⊎ (i + suc rounds ≤ j) → (j < i + 1) ⊎ (i + 1 + rounds ≤ j)
      wider i rounds j (inl lo) = inl (omega (arith, lo))
      wider i rounds j (inr hi) = inr (omega (arith, hi))

      away : (a : ℕ → ℕ) (i rounds j : ℕ) → (j < i) ⊎ (i + suc rounds ≤ j) → update a i 0 j ≡ a j
      away a i rounds j (inl lo) = ground (arith, lo)
      away a i rounds j (inr hi) = ground (arith, hi)
