-- ===== src/Fs/Directories/Places.antt =====
-- kernel/fs.c: where `dirlink` puts a new entry.
use os_prioritypipes.Prelude.{
  ℕ, zero, suc, ◌+◌, ◌*◌, ◌%◌, ◌≤◌, ◌<◌, ◌≡◌, ◌≢◌, subst, refl, sym, ap, ◌∙◌, inl, inr, true, ltb,
  ◌==◌, Bool-cases, arith,
}
use os_prioritypipes.Prelude.Results.{Result, Returns, returns, bind, mono}
use os_prioritypipes.Fs.{Superblock, Blocks}
use os_prioritypipes.Fs.Inodes.{Dinode}
use os_prioritypipes.Fs.Inodes.Adding.{IsSmall}
use os_prioritypipes.Fs.Contents.{BytesRead}
use os_prioritypipes.Fs.Contents.Reading.{Whole, readi-Whole}
use os_prioritypipes.Fs.Directories.{kernel_memory, is_count, entry_number, check_free, free_loop}
use os_prioritypipes.Fs.Directories.Entries.{
  number_at, kernel-IsMemory, View, read-View, read-number_at,
}

module _ (sb : Superblock) (de name : ℕ) (ip0 : Dinode) (d0 : Blocks) (m0 : ℕ → ℕ) where
  -- The place for a new entry, from an offset on: an entry not in use, or the end.
  pub record Freed (from : ℕ) (r : ℕ × Dinode × Blocks × (ℕ → ℕ)) : Type 0 where
    pub view : View sb de name ip0 d0 m0 r.1 r.2 r.3
    pub aligned : r.0 % 16 ≡ 0
    pub behind : from ≤ r.0
    pub within : r.0 ≤ ip0.size
    pub before : (o : ℕ) → from ≤ o → o < r.0 → o % 16 ≡ 0 → number_at ip0.addrs d0 o ≢ 0
    pub unused : r.0 < ip0.size → number_at ip0.addrs d0 r.0 ≡ 0

  free-Freed :
      (more : Dinode → Blocks → (ℕ → ℕ) → Result (ℕ × Dinode × Blocks × (ℕ → ℕ))) (off : ℕ)
      (ip : Dinode) (d : Blocks) (m : ℕ → ℕ) (r : BytesRead)
      → off % 16 ≡ 0
      → off + 16 ≤ ip.size
      → View sb de name ip0 d0 m0 ip d m
      → Whole sb de off 16 ip d m r
      → ((ip1 : Dinode) (d1 : Blocks) (m1 : ℕ → ℕ)
          → View sb de name ip0 d0 m0 ip1 d1 m1
          → Returns (Freed (off + 16)) (more ip1 d1 m1))
      → Returns (Freed off) (check_free more de off r)
  free-Freed more off ip d m (count, ip1, d1, m1) al fits v w next =
      let counted : is_count 16 count ≡ true = ground (arith, w.count) in
      let view = read-View sb de name ip0 d0 m0 off ip d m (count, ip1, d1, m1) v w in
      let number = read-number_at sb de name ip0 d0 m0 off ip d m (count, ip1, d1, m1) fits v w in
      elim (Bool-cases (entry_number de m1 == 0)) [
        | inl here ↦
            rw (counted, here)
              (returns record {
                view = view;
                aligned = al;
                behind = omega arith;
                within = omega (arith, fits, ap (λ (x : Dinode). x.size) v.rest);
                before = λ o lo hi al_o. absurd (omega (arith, lo, hi));
                unused = λ lt. sym number ∙ ground (arith, here);
              })
        | inr in_use ↦
            rw (counted, in_use)
              (mono (next ip1 d1 m1 view) (λ r f. record {
                view = f.view;
                aligned = f.aligned;
                behind = omega (arith, f.behind);
                within = f.within;
                before = λ o lo hi al_o. elim (Bool-cases (o == off)) [
                  | inl this ↦
                      let e : o ≡ off = ground (arith, this) in
                      subst (λ x. number_at ip0.addrs d0 x ≢ 0) (sym e)
                        (λ z. ground (arith, in_use, number, z))
                  | inr other ↦ f.before o (ground (arith, lo, other, al_o, al)) hi al_o
                ];
                unused = f.unused;
              }))
      ]

  pub free_loop-Freed :
      (rounds off : ℕ) (ip : Dinode) (d : Blocks) (m : ℕ → ℕ)
      → IsSmall sb
      → off % 16 ≡ 0
      → off ≤ ip0.size
      → ip0.size ≤ off + rounds * 16
      → View sb de name ip0 d0 m0 ip d m
      → Returns (Freed off) (free_loop sb de rounds off ip d m)
  unfolding free_loop
  free_loop-Freed zero off ip d m small al le enough v = returns record {
    view = v;
    aligned = al;
    behind = omega arith;
    within = le;
    before = λ o lo hi al_o. absurd (omega (arith, lo, hi));
    unused = λ lt. absurd (omega (arith, lt, enough));
  }
  free_loop-Freed (suc rounds) off ip d m small al le enough v =
      let kept_size : ip.size ≡ ip0.size = ap (λ (x : Dinode). x.size) v.rest in
      elim (Bool-cases (ltb off ip.size)) [
        | inr over ↦ rw over (
            returns record {
              view = v;
              aligned = al;
              behind = omega arith;
              within = le;
              before = λ o lo hi al_o. absurd (omega (arith, lo, hi));
              unused = λ lt. absurd (ground (arith, over, lt, kept_size));
            })
        | inl more ↦
            let dir = v.directory in
            let fits : off + 16 ≤ ip.size = ground (arith, more, al, dir.whole) in
            rw more (
              bind
                (readi-Whole sb (kernel_memory m) de off 16 ip d small (kernel-IsMemory m v.small)
                  (λ a k. refl) dir.size fits (λ o lo hi. dir.has o (omega (arith, hi, fits)))
                  dir.sound dir.owns)
                (λ r w.
                  free-Freed (free_loop sb de rounds (off + 16)) off ip d m r al fits v w
                    (λ ip1 d1 m1 v1.
                      free_loop-Freed rounds (off + 16) ip1 d1 m1 small (omega (arith, al))
                        (omega (arith, fits, kept_size)) (omega (arith, enough)) v1)))
      ]
