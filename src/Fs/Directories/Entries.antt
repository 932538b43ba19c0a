-- ===== src/Fs/Directories/Entries.antt =====
-- kernel/fs.c: the entries of a directory, as `readi` brings them.
use os_prioritypipes.Prelude.{
  ℕ, ◌+◌, ◌-◌, ◌*◌, ◌/◌, ◌%◌, ◌≤◌, ◌<◌, ◌≡◌, ◌≢◌, ◌↔◌, refl, sym, ap, subst, ◌∙◌, ◌⊎◌, inl, inr,
  true, ltb, ◌==◌, Bool-cases, arith,
}
use os_prioritypipes.Prelude.Int.{ℤ, pos}
use os_prioritypipes.Fs.{Superblock, Blocks}
use os_prioritypipes.Fs.Bitmap.{Sound}
use os_prioritypipes.Fs.Inodes.{Dinode}
use os_prioritypipes.Fs.Inodes.Slots.{slot, place_of, Owns}
use os_prioritypipes.Fs.Contents.{BytesRead}
use os_prioritypipes.Fs.Contents.Bytes.{file_byte, Has}
use os_prioritypipes.Fs.Contents.Copying.{IsMemory}
use os_prioritypipes.Fs.Contents.Reading.{Whole}
use os_prioritypipes.Fs.Directories.{kernel_memory, is_zero, entry_number}

-- The inode number of the entry at an offset.
abbrev pub number_at : (ℕ → ℕ) → Blocks → ℕ → ℕ
number_at a d o = file_byte a d o + 256 * file_byte a d (o + 1)

-- The name of the entry at an offset is the name in memory, up to its end or its first 14 characters.
abbrev pub Named : (ℕ → ℕ) → ℕ → (ℕ → ℕ) → Blocks → ℕ → Type 0
Named m name a d o =
    (i : ℕ)
    → i < 14
    → ((j : ℕ) → j < i → m (name + j) ≢ 0)
    → m (name + i) ≡ file_byte a d (o + (2 + i))

-- The entry at an offset is in use and has the name.
abbrev pub IsEntry : (ℕ → ℕ) → ℕ → (ℕ → ℕ) → Blocks → ℕ → Type 0
IsEntry m name a d o = (number_at a d o ≢ 0) × Named m name a d o

-- A directory: whole entries, each byte with a block.
pub record IsDirectory (sb : Superblock) (ip : Dinode) (d : Blocks) : Type 0 where
  pub kind : ip.kind ≡ 1
  pub size : ip.size ≤ 274432
  pub whole : ip.size % 16 ≡ 0
  pub has : (o : ℕ) → o < ip.size → Has ip.addrs d o
  pub sound : Sound sb d
  pub owns : Owns sb ip.addrs d

pub is_zero-ℤ : (z : ℤ) → (is_zero z ≡ true) ↔ (z ≡ pos 0)
is_zero-ℤ z = ground arith

pub kernel-IsMemory : (m : ℕ → ℕ) → ((x : ℕ) → m x < 256) → IsMemory (kernel_memory m)
kernel-IsMemory m small = record { small = small; at_most = λ a k. omega arith }

module _ (sb : Superblock) (de name : ℕ) (ip0 : Dinode) (d0 : Blocks) (m0 : ℕ → ℕ) where
  -- The directory holds the bytes it held at first, and memory has changed in `de` only.
  pub record View (ip : Dinode) (d : Blocks) (m : ℕ → ℕ) : Type 0 where
    pub directory : IsDirectory sb ip d
    pub rest : ip ≡ record ip0 { addrs = ip.addrs }
    pub same : (o : ℕ) → o < 274432 → file_byte ip.addrs d o ≡ file_byte ip0.addrs d0 o
    pub beyond : (x : ℕ) → (x < de) ⊎ (de + 16 ≤ x) → m x ≡ m0 x
    pub small : (x : ℕ) → m x < 256

  pub file_byte_small :
      (ip : Dinode) (d : Blocks) (o : ℕ) → Sound sb d → file_byte ip.addrs d o < 256
  file_byte_small ip d o h = elim (Bool-cases (slot ip.addrs d (place_of (o / 1024)) == 0)) [
    | inl absent_block ↦ rw absent_block (omega arith)
    | inr there ↦ rw there (h.bytes _ _)
  ]

  -- After an entry has been read: the view stays, and `de` is the entry.
  pub read-View :
      (off : ℕ) (ip : Dinode) (d : Blocks) (m : ℕ → ℕ) (r : BytesRead)
      → View ip d m
      → Whole sb de off 16 ip d m r
      → View r.1 r.2 r.3
  read-View off ip d m r v w = record {
    directory = record {
      kind = kept_kind ∙ v.directory.kind;
      size = ground (arith, kept_size, v.directory.size);
      whole = ground (arith, kept_size, v.directory.whole);
      has = λ o lt.
          let lt0 : o < ip.size = ground (arith, kept_size, lt) in
          w.has o (omega (arith, lt0, v.directory.size)) (v.directory.has o lt0);
      sound = w.sound;
      owns = w.owns;
    };
    rest =
        let set_addrs : Dinode → Dinode = λ x. record x { addrs = r.1.addrs } in
        w.rest ∙ ap set_addrs v.rest;
    same = λ o lo. w.same o lo ∙ v.same o lo;
    beyond = λ x out. w.beyond x out ∙ v.beyond x out;
    small = λ x. elim (Bool-cases (ltb x de)) [
      | inl low ↦ let e = w.beyond x (inl (ground (arith, low))) in ground (arith, e, v.small x)
      | inr not_low ↦ elim (Bool-cases (ltb x (de + 16))) [
        | inr high ↦ let e = w.beyond x (inr (ground (arith, high))) in ground (arith, e, v.small x)
        | inl within ↦
            let e = w.bytes (x - de) (ground (arith, within, not_low)) in
            let at : de + (x - de) ≡ x = ground (arith, not_low) in
            let small = file_byte_small ip d (off + (x - de)) v.directory.sound in
            subst (λ y. r.3 y < 256) at (ground (arith, e, small))
      ]
    ];
  }
    where
      kept_kind : r.1.kind ≡ ip.kind
      kept_kind = ap (λ (x : Dinode). x.kind) w.rest

      kept_size : r.1.size ≡ ip.size
      kept_size = ap (λ (x : Dinode). x.size) w.rest

  -- What has been read is the entry.
  pub read-file_byte :
      (off i : ℕ) (ip : Dinode) (d : Blocks) (m : ℕ → ℕ) (r : BytesRead)
      → i < 16
      → off + 16 ≤ ip.size
      → View ip d m
      → Whole sb de off 16 ip d m r
      → r.3 (de + i) ≡ file_byte ip0.addrs d0 (off + i)
  read-file_byte off i ip d m r lt fits v w =
      let small = v.directory.size in
      w.bytes i lt ∙ v.same (off + i) (omega (arith, lt, fits, small))

  pub read-number_at :
      (off : ℕ) (ip : Dinode) (d : Blocks) (m : ℕ → ℕ) (r : BytesRead)
      → off + 16 ≤ ip.size
      → View ip d m
      → Whole sb de off 16 ip d m r
      → entry_number de r.3 ≡ number_at ip0.addrs d0 off
  read-number_at off ip d m r fits v w =
      let e0 = read-file_byte off 0 ip d m r (omega arith) fits v w in
      let e1 = read-file_byte off 1 ip d m r (omega arith) fits v w in
      let p0 : de + 0 ≡ de = omega arith in
      let q0 : off + 0 ≡ off = omega arith in
      let e0' : r.3 de ≡ file_byte ip0.addrs d0 off =
        ap r.3 (sym p0) ∙ e0 ∙ ap (file_byte ip0.addrs d0) q0 in
      rw (e0', e1) refl
