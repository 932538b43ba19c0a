-- ===== src/Fs/Contents/ReadRounds.antt =====
-- kernel/fs.c: a round of the loop of `readi`.
use os_prioritypipes.Prelude.{
  ℕ, ◌+◌, ◌-◌, ◌/◌, ◌≤◌, ◌<◌, ◌≡◌, ◌≢◌, refl, ap, subst, ◌∙◌, ◌⊎◌, inl, inr, true, false, ◌&&◌,
  Option, none, some, ltb, leb, ◌==◌, if◌then◌else◌, Bool-cases, arith,
}
use os_prioritypipes.Fs.{Superblock, Blocks, is_free}
use os_prioritypipes.Fs.Bitmap.{Sound}
use os_prioritypipes.Fs.Inodes.{Dinode}
use os_prioritypipes.Fs.Inodes.Slots.{slot, place_of, Owns}
use os_prioritypipes.Fs.Contents.{Memory, BytesRead}
use os_prioritypipes.Fs.Contents.Bytes.{file_byte}
use os_prioritypipes.Fs.Contents.Copying.{share}

-- The bytes of a file from `off` on are in memory from `dst` on, `k` of them.
abbrev pub AreRead : ℕ → ℕ → ℕ → (ℕ → ℕ) → Blocks → (ℕ → ℕ) → (ℕ → ℕ) → Type 0
AreRead k dst off a d to to' =
    (x : ℕ)
    → to' x ≡ (if leb dst x && ltb x (dst + k) then file_byte a d (off + (x - dst)) else to x)

module _ (sb : Superblock) where
  -- The file has no block for the byte at an offset, and no block is free.
  abbrev pub Missing : (ℕ → ℕ) → Blocks → ℕ → Blocks → Type 0
  Missing a d o d' =
      (slot a d (place_of (o / 1024)) ≡ 0) × ((c : ℕ) → c < sb.size → is_free sb d' c ≡ false)

  -- The count that is returned. It is -1 only after `k` bytes where those of the next block cannot all be copied
  -- to where they are to go, and then as many are in memory as could be copied.
  pub data Count (mem : Memory) (tot off dst n : ℕ) (ip : Dinode) (d d' : Blocks) (to to' : ℕ → ℕ)
      : Option ℕ → Type 0 where
    failed :
        (k b m : ℕ)
        → tot + k < n
        → b ≡ dst + k
        → m ≡ share (off + k) (n - (tot + k))
        → mem.copied b m ≢ m
        → tot + (k + mem.copied b m) ≤ n
        → AreRead (k + mem.copied b m) dst off ip.addrs d to to'
        → Count mem tot off dst n ip d d' to to' none
    read :
        (k : ℕ)
        → tot + k ≤ n
        → AreRead k dst off ip.addrs d to to'
        → (tot + k ≡ n) ⊎ Missing ip.addrs d (off + k) d'
        → Count mem tot off dst n ip d d' to to' (some (tot + k))

  -- What the loop of `readi` comes to, from a round on.
  pub record Read (mem : Memory) (tot off dst n : ℕ) (ip : Dinode) (d : Blocks) (to : ℕ → ℕ)
      (r : BytesRead) : Type 0 where
    pub sound : Sound sb r.2
    pub owns : Owns sb r.1.addrs r.2
    pub rest : r.1 ≡ record ip { addrs = r.1.addrs }
    pub same : (o : ℕ) → o < 274432 → file_byte r.1.addrs r.2 o ≡ file_byte ip.addrs d o
    pub absent :
        (o : ℕ)
        → o < 274432
        → slot r.1.addrs r.2 (place_of (o / 1024)) ≡ 0
        → slot ip.addrs d (place_of (o / 1024)) ≡ 0
    pub beyond : (x : ℕ) → (x < dst) ⊎ (dst + n ≤ x + tot) → r.3 x ≡ to x
    pub count : Count mem tot off dst n ip d r.2 to r.3 r.0

  pub finished :
      (mem : Memory) (tot off dst n : ℕ) (ip : Dinode) (d : Blocks) (ip1 : Dinode) (d1 : Blocks)
      (to : ℕ → ℕ)
      → tot ≤ n
      → Sound sb d1
      → Owns sb ip1.addrs d1
      → ip1 ≡ record ip { addrs = ip1.addrs }
      → ((o : ℕ) → o < 274432 → file_byte ip1.addrs d1 o ≡ file_byte ip.addrs d o)
      → ((o : ℕ)
          → o < 274432
          → slot ip1.addrs d1 (place_of (o / 1024)) ≡ 0
          → slot ip.addrs d (place_of (o / 1024)) ≡ 0)
      → (tot ≡ n) ⊎ Missing ip.addrs d off d1
      → Read mem tot off dst n ip d to (some tot, ip1, d1, to)
  finished mem tot off dst n ip d ip1 d1 to le h w rest same absent why = record {
    sound = h;
    owns = w;
    rest = rest;
    same = same;
    absent = absent;
    beyond = λ x out. refl;
    count =
        subst (λ t. Count mem tot off dst n ip d d1 to to (some t)) zero_more
          (read 0 (omega (arith, le)) (λ x. ground arith) why_more);
  }
    where
      zero_more : tot + 0 ≡ tot
      zero_more = omega arith

      from_here : off ≡ off + 0
      from_here = omega arith

      why_more : (tot + 0 ≡ n) ⊎ Missing ip.addrs d (off + 0) d1
      why_more = elim why [
        | inl end ↦ inl (omega (arith, end))
        | inr missing ↦ inr (subst (λ o. Missing ip.addrs d o d1) from_here missing)
      ]

  -- A round that copies `m` bytes to memory, and then the rounds after it.
  pub round-Read :
      (mem : Memory) (tot off dst n m : ℕ) (ip : Dinode) (d : Blocks) (ip1 : Dinode) (d1 : Blocks)
      (to to1 : ℕ → ℕ) (r : BytesRead)
      → tot + m ≤ n
      → off + n ≤ 274432 + tot
      → ip1 ≡ record ip { addrs = ip1.addrs }
      → ((o : ℕ) → o < 274432 → file_byte ip1.addrs d1 o ≡ file_byte ip.addrs d o)
      → ((o : ℕ)
          → o < 274432
          → slot ip1.addrs d1 (place_of (o / 1024)) ≡ 0
          → slot ip.addrs d (place_of (o / 1024)) ≡ 0)
      → AreRead m dst off ip.addrs d to to1
      → Read mem (tot + m) (off + m) (dst + m) n ip1 d1 to1 r
      → Read mem tot off dst n ip d to r
  round-Read mem tot off dst n m ip d ip1 d1 to to1 r le fits rest same absent here w = record {
    sound = w.sound;
    owns = w.owns;
    rest =
        let set_addrs : Dinode → Dinode = λ x. record x { addrs = r.1.addrs } in
        w.rest ∙ ap set_addrs rest;
    same = λ o lo. w.same o lo ∙ same o lo;
    absent = λ o lo z. absent o lo (w.absent o lo z);
    beyond = λ x out. w.beyond x (after x out) ∙ untouched x out;
    count = joined r.0 w.count;
  }
    where
      after :
          (x : ℕ) → (x < dst) ⊎ (dst + n ≤ x + tot) → (x < dst + m) ⊎ (dst + m + n ≤ x + (tot + m))
      after x (inl lo) = inl (omega (arith, lo))
      after x (inr hi) = inr (omega (arith, hi))

      untouched : (x : ℕ) → (x < dst) ⊎ (dst + n ≤ x + tot) → to1 x ≡ to x
      untouched x (inl lo) = here x ∙ ground (arith, lo)
      untouched x (inr hi) = here x ∙ ground (arith, hi, le)

      pieces :
          (x k : ℕ)
          → tot + m + k ≤ n
          → (if leb (dst + m) x && ltb x (dst + m + k)
              then file_byte ip1.addrs d1 (off + m + (x - (dst + m)))
              else to1 x)
            ≡ (if leb dst x && ltb x (dst + (m + k))
                then file_byte ip.addrs d (off + (x - dst))
                else to x)
      pieces x k le1 = elim (Bool-cases (ltb x (dst + m))) [
        | inl low ↦
            let e1 : leb (dst + m) x ≡ false = ground (arith, low) in
            let e2 : (leb dst x && ltb x (dst + (m + k))) ≡ (leb dst x && ltb x (dst + m)) =
              ground (arith, low) in
            rw (e1, e2) (here x)
        | inr high ↦
            let e1 : leb (dst + m) x ≡ true = ground (arith, high) in
            let e2 : leb dst x ≡ true = ground (arith, high) in
            let e3 : ltb x (dst + (m + k)) ≡ ltb x (dst + m + k) = ground arith in
            elim (Bool-cases (ltb x (dst + m + k))) [
              | inr out ↦ rw (e1, e2, e3, out) (here x ∙ ground (arith, high))
              | inl within ↦
                  let at : off + m + (x - (dst + m)) ≡ off + (x - dst) = ground (arith, high) in
                  let lt : off + (x - dst) < 274432 = ground (arith, high, within, le1, fits) in
                  rw (e1, e2, e3, within) (ap (file_byte ip1.addrs d1) at ∙ same _ lt)
            ]
      ]

      joined :
          (t : Option ℕ)
          → Count mem (tot + m) (off + m) (dst + m) n ip1 d1 r.2 to1 r.3 t
          → Count mem tot off dst n ip d r.2 to r.3 t
      joined _ (failed k b l short at size ne le1 bytes) =
          let place : off + m + k ≡ off + (m + k) = omega arith in
          let rest_of : n - (tot + m + k) ≡ n - (tot + (m + k)) = omega arith in
          let pieces_at : m + (k + mem.copied b l) ≡ m + k + mem.copied b l = omega arith in
          failed (m + k) b l (omega (arith, short)) (omega (arith, at))
            (size
              ∙ ap (λ x. share x (n - (tot + m + k))) place
              ∙ ap (share (off + (m + k))) rest_of)
            ne (omega (arith, le1))
            (subst (λ x. AreRead x dst off ip.addrs d to r.3) pieces_at
              (λ x. bytes x ∙ pieces x (k + mem.copied b l) (omega (arith, le1))))
      joined _ (read k le1 bytes why) =
          let e : tot + (m + k) ≡ tot + m + k = omega arith in
          subst (λ t. Count mem tot off dst n ip d r.2 to r.3 (some t)) e
            (read (m + k) (omega (arith, le1)) (λ x. bytes x ∙ pieces x k le1)
              (why_joined k le1 why))
        where
          why_joined :
              (k : ℕ)
              → tot + m + k ≤ n
              → (tot + m + k ≡ n) ⊎ Missing ip1.addrs d1 (off + m + k) r.2
              → (tot + (m + k) ≡ n) ⊎ Missing ip.addrs d (off + (m + k)) r.2
          why_joined k le1 (inl end) = inl (omega (arith, end))
          why_joined k le1 (inr (none_there, none_free)) = elim (Bool-cases (tot + m + k == n)) [
            | inl end ↦ inl (ground (arith, end))
            | inr short ↦
                let at : off + m + k ≡ off + (m + k) = omega arith in
                let lt : off + (m + k) < 274432 = ground (arith, fits, le1, short) in
                inr (
                  absent (off + (m + k)) lt
                      (subst (λ o. slot ip1.addrs d1 (place_of (o / 1024)) ≡ 0) at none_there),
                  none_free,
                )
          ]
