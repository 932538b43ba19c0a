-- ===== src/Fs/Directories/Filling.antt =====
-- kernel/fs.c: the `struct dirent` that `dirlink` fills in.
use os_prioritypipes.Prelude.{
  ℕ, ◌+◌, ◌-◌, ◌%◌, ◌≤◌, ◌<◌, ◌≡◌, ◌≢◌, sym, ap, ◌∙◌, ◌⊎◌, inl, inr, ltb, Bool-cases, arith,
}
use os_prioritypipes.Strings.{strncpy}
use os_prioritypipes.Strings.Copying.{Padded, strncpy-Padded}
use os_prioritypipes.Fs.{Superblock}
use os_prioritypipes.Fs.Directories.{entry_number, fill_entry}

module _ (sb : Superblock) (de name inum : ℕ) (m : ℕ → ℕ)
    (apart : (name + 14 ≤ de) ⊎ (de + 16 ≤ name)) where
  padded : Padded (de + 2) name 14 m (strncpy (de + 2) name 14 m)
  padded = strncpy-Padded (de + 2) name 14 m (beside apart)
    where
      beside : (name + 14 ≤ de) ⊎ (de + 16 ≤ name) → (de + 2 + 14 ≤ name) ⊎ (name + 14 ≤ de + 2)
      beside (inl lo) = inr (omega (arith, lo))
      beside (inr hi) = inl (omega (arith, hi))

  -- The new entry has the number, as a `ushort`, and the name.
  pub fill_number : entry_number de (fill_entry sb de name inum m) ≡ inum % 65536
  fill_number = ground arith

  copied_name :
      (i : ℕ)
      → i < 14
      → ((j : ℕ) → j < i → m (name + j) ≢ 0)
      → m (name + i) ≡ strncpy (de + 2) name 14 m (de + 2 + i)
  copied_name i lt nonzero = elim (Bool-cases (ltb i padded.size)) [
    | inl char ↦ sym (padded.copied.chars i (ground (arith, char))).1
    | inr over ↦ elim padded.stops [
      | inl full ↦ absurd (ground (arith, full, over, lt))
      | inr ends ↦ elim (Bool-cases (ltb padded.size i)) [
        | inl before ↦ absurd (nonzero padded.size (ground (arith, before)) ends)
        | inr not_before ↦
            let e : i ≡ padded.size = ground (arith, over, not_before) in
            let z = padded.zeros (de + 2 + i) (omega (arith, e)) (omega (arith, lt)) in
            ap (λ x. m (name + x)) e ∙ ends ∙ sym z
      ]
    ]
  ]

  pub fill_name :
      (i : ℕ)
      → i < 14
      → ((j : ℕ) → j < i → m (name + j) ≢ 0)
      → m (name + i) ≡ fill_entry sb de name inum m (de + (2 + i))
  fill_name i lt nonzero =
      let place : de + 2 + i ≡ de + (2 + i) = omega arith in
      copied_name i lt nonzero ∙ ap (strncpy (de + 2) name 14 m) place ∙ ground arith

  copied_small : ((x : ℕ) → m x < 256) → (x : ℕ) → strncpy (de + 2) name 14 m x < 256
  copied_small small x = elim (Bool-cases (ltb x (de + 2))) [
    | inl low ↦
        let e = padded.copied.others x (inl (ground (arith, low))) in ground (arith, e, small x)
    | inr not_low ↦ elim (Bool-cases (ltb x (de + 2 + padded.size))) [
      | inl char ↦
          let e = (padded.copied.chars (x - (de + 2)) (ground (arith, char, not_low))).1 in
          let at : de + 2 + (x - (de + 2)) ≡ x = ground (arith, not_low) in
          let e' = ap (strncpy (de + 2) name 14 m) (sym at) ∙ e in
          ground (arith, e', small (name + (x - (de + 2))))
      | inr over ↦ elim (Bool-cases (ltb x (de + 2 + 14))) [
        | inl pad ↦
            let z = padded.zeros x (ground (arith, over)) (ground (arith, pad)) in ground (arith, z)
        | inr high ↦
            let e = padded.copied.others x (inr (ground (arith, high))) in
            ground (arith, e, small x)
      ]
    ]
  ]

  pub fill_small : ((x : ℕ) → m x < 256) → (x : ℕ) → fill_entry sb de name inum m x < 256
  fill_small small x = ground (arith, copied_small small x)
