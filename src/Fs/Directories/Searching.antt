-- ===== src/Fs/Directories/Searching.antt =====
-- kernel/fs.c: what `dirlookup` finds among the entries of a directory.
use os_prioritypipes.Prelude.{
  ℕ, zero, suc, ◌+◌, ◌*◌, ◌%◌, ◌≤◌, ◌<◌, ◌≡◌, refl, sym, ap, subst, ◌∙◌, ◌⊎◌, inl, inr, true, false,
  Option, none, some, ltb, ◌==◌, Bool-cases, arith,
}
use os_prioritypipes.Prelude.Results.{Result, Returns, returns, bind, mono}
use os_prioritypipes.Strings.Comparing.{Same, strncmp-Same}
use os_prioritypipes.Fs.{Superblock, Blocks}
use os_prioritypipes.Fs.Inodes.{Dinode}
use os_prioritypipes.Fs.Inodes.Adding.{IsSmall}
use os_prioritypipes.Fs.Contents.{BytesRead}
use os_prioritypipes.Fs.Contents.Bytes.{file_byte}
use os_prioritypipes.Fs.Contents.Reading.{Whole, readi-Whole}
use os_prioritypipes.Fs.Directories.{
  t_dir, kernel_memory, same_name, is_count, entry_number, LookedUp, check_entry, lookup_loop,
  dirlookup,
}
use os_prioritypipes.Fs.Directories.Entries.{
  number_at, Named, IsEntry, IsDirectory, is_zero-ℤ, kernel-IsMemory, View, read-View,
  read-file_byte, read-number_at,
}

module _ (sb : Superblock) (de name : ℕ) (ip0 : Dinode) (d0 : Blocks) (m0 : ℕ → ℕ) where
  -- The first entry from an offset on with the name, if there is one.
  pub data Answer (from : ℕ) : Option (ℕ × ℕ) → Type 0 where
    absent :
        ((o : ℕ) → from ≤ o → o < ip0.size → o % 16 ≡ 0 → ¬ IsEntry m0 name ip0.addrs d0 o)
        → Answer from none
    found :
        (o : ℕ)
        → from ≤ o
        → o < ip0.size
        → o % 16 ≡ 0
        → IsEntry m0 name ip0.addrs d0 o
        → ((o' : ℕ) → from ≤ o' → o' < o → o' % 16 ≡ 0 → ¬ IsEntry m0 name ip0.addrs d0 o')
        → Answer from (some (o, number_at ip0.addrs d0 o))

  pub record Searched (from : ℕ) (r : LookedUp) : Type 0 where
    pub view : View sb de name ip0 d0 m0 r.1 r.2 r.3
    pub answer : Answer from r.0

  -- An entry without the name is passed.
  pass-Searched :
      (off : ℕ) (r : LookedUp)
      → off % 16 ≡ 0
      → ¬ IsEntry m0 name ip0.addrs d0 off
      → Searched (off + 16) r
      → Searched off r
  pass-Searched off r al no_entry s = record { view = s.view; answer = passed r.0 s.answer }
    where
      none_here :
          (o : ℕ)
          → off ≤ o
          → o % 16 ≡ 0
          → ((off + 16 ≤ o) → ¬ IsEntry m0 name ip0.addrs d0 o)
          → ¬ IsEntry m0 name ip0.addrs d0 o
      none_here o lo al_o later = elim (Bool-cases (o == off)) [
        | inl this ↦
            let e : o ≡ off = ground (arith, this) in
            subst (λ x. ¬ IsEntry m0 name ip0.addrs d0 x) (sym e) no_entry
        | inr other ↦ later (ground (arith, other, lo, al_o, al))
      ]

      passed : (t : Option (ℕ × ℕ)) → Answer (off + 16) t → Answer off t
      passed _ (absent nowhere) =
          absent (λ o lo hi al_o. none_here o lo al_o (λ lo1. nowhere o lo1 hi al_o))
      passed _ (found o lo hi al_o entry before) =
          found o (omega (arith, lo)) hi al_o entry
            (λ o' lo' hi' al'. none_here o' lo' al' (λ lo1. before o' lo1 hi' al'))

  entry-Searched :
      (more : Dinode → Blocks → (ℕ → ℕ) → Result LookedUp) (off : ℕ) (ip : Dinode) (d : Blocks)
      (m : ℕ → ℕ) (r : BytesRead)
      → off % 16 ≡ 0
      → off + 16 ≤ ip.size
      → (name + 14 ≤ de) ⊎ (de + 16 ≤ name)
      → View sb de name ip0 d0 m0 ip d m
      → Whole sb de off 16 ip d m r
      → ((ip1 : Dinode) (d1 : Blocks) (m1 : ℕ → ℕ)
          → View sb de name ip0 d0 m0 ip1 d1 m1
          → Returns (Searched (off + 16)) (more ip1 d1 m1))
      → Returns (Searched off) (check_entry more de name off r)
  entry-Searched more off ip d m (count, ip1, d1, m1) al fits apart v w next =
      let counted : is_count 16 count ≡ true = ground (arith, w.count) in
      let passed = λ (none_here : ¬ IsEntry m0 name ip0.addrs d0 off).
        mono (next ip1 d1 m1 view) (λ s. pass-Searched off s al none_here) in
      elim (Bool-cases (entry_number de m1 == 0)) [
        | inl unused ↦
            rw (counted, unused)
              (passed (λ entry. entry.0 (sym at_number ∙ ground (arith, unused))))
        | inr in_use ↦ elim (Bool-cases (same_name name (de + 2) m1)) [
          | inr other ↦ rw (counted, in_use, other) (passed (λ entry. differs other entry.1))
          | inl this ↦
              rw (counted, in_use, this)
                (returns record {
                  view = view;
                  answer =
                      subst (λ n. Answer off (some (off, n))) (sym at_number)
                        (found off (omega arith) size_there al
                          (ground (arith, in_use, at_number), named this)
                          (λ o lo hi. absurd (omega (arith, lo, hi))));
                })
        ]
      ]
    where
      view : View sb de name ip0 d0 m0 ip1 d1 m1
      view = read-View sb de name ip0 d0 m0 off ip d m (count, ip1, d1, m1) v w

      size_there : off < ip0.size
      size_there = ground (arith, fits, ap (λ (x : Dinode). x.size) v.rest)

      at : (i : ℕ) → i < 16 → m1 (de + i) ≡ file_byte ip0.addrs d0 (off + i)
      at i lt = read-file_byte sb de name ip0 d0 m0 off i ip d m (count, ip1, d1, m1) lt fits v w

      at_number : entry_number de m1 ≡ number_at ip0.addrs d0 off
      at_number = read-number_at sb de name ip0 d0 m0 off ip d m (count, ip1, d1, m1) fits v w

      at_name : (i : ℕ) → i < 14 → m1 (name + i) ≡ m0 (name + i)
      at_name i lt = view.beyond (name + i) (outside i lt)
        where
          outside : (i : ℕ) → i < 14 → (name + i < de) ⊎ (de + 16 ≤ name + i)
          outside i lt = elim apart [
            | inl lo ↦ inl (omega (arith, lo, lt))
            | inr hi ↦ inr (omega (arith, hi))
          ]

      at_entry : (i : ℕ) → i < 14 → m1 (de + 2 + i) ≡ file_byte ip0.addrs d0 (off + (2 + i))
      at_entry i lt =
          let place : de + 2 + i ≡ de + (2 + i) = omega arith in
          ap m1 place ∙ at (2 + i) (omega (arith, lt))

      named : same_name name (de + 2) m1 ≡ true → Named m0 name ip0.addrs d0 off
      named this i lt nonzero =
          let same = (strncmp-Same name (de + 2) 14 m1).0 ((is_zero-ℤ _).0 this) in
          sym (at_name i lt)
          ∙ same i lt (λ j lj z. nonzero j lj (sym (at_name j (omega (arith, lj, lt))) ∙ z))
          ∙ at_entry i lt

      differs : same_name name (de + 2) m1 ≡ false → ¬ Named m0 name ip0.addrs d0 off
      differs other names =
          let same : Same name (de + 2) 14 m1 = λ i lt nonzero.
            at_name i lt
            ∙ names i lt (λ j lj z. nonzero j lj (at_name j (omega (arith, lj, lt)) ∙ z))
            ∙ sym (at_entry i lt) in
          let yes_zero = (is_zero-ℤ _).1 ((strncmp-Same name (de + 2) 14 m1).1 same) in cc

  pub lookup_loop-Searched :
      (rounds off : ℕ) (ip : Dinode) (d : Blocks) (m : ℕ → ℕ)
      → IsSmall sb
      → (name + 14 ≤ de) ⊎ (de + 16 ≤ name)
      → off % 16 ≡ 0
      → ip0.size ≤ off + rounds * 16
      → View sb de name ip0 d0 m0 ip d m
      → Returns (Searched off) (lookup_loop sb de name rounds off ip d m)
  unfolding lookup_loop
  lookup_loop-Searched zero off ip d m small apart al enough v =
      returns record {
        view = v;
        answer = absent (λ o lo hi al_o. absurd (omega (arith, lo, hi, enough)));
      }
  lookup_loop-Searched (suc rounds) off ip d m small apart al enough v =
      let kept_size : ip.size ≡ ip0.size = ap (λ (x : Dinode). x.size) v.rest in
      elim (Bool-cases (ltb off ip.size)) [
        | inr over ↦ rw over (
            returns record {
              view = v;
              answer = absent (λ o lo hi al_o. absurd (ground (arith, over, lo, hi, kept_size)));
            })
        | inl more ↦
            let dir = v.directory in
            let fits : off + 16 ≤ ip.size = ground (arith, more, al, dir.whole) in
            rw more (
              bind
                (readi-Whole sb (kernel_memory m) de off 16 ip d small (kernel-IsMemory m v.small)
                  (λ a k. refl) dir.size fits (λ o lo hi. dir.has o (omega (arith, hi, fits)))
                  dir.sound dir.owns)
                (λ r w.
                  entry-Searched (lookup_loop sb de name rounds (off + 16)) off ip d m r al fits
                    apart v w
                    (λ ip1 d1 m1 v1.
                      lookup_loop-Searched rounds (off + 16) ip1 d1 m1 small apart
                        (omega (arith, al)) (omega (arith, enough)) v1)))
      ]

-- In a directory of whole entries, each with its block, on a sound disk, and for a name that
-- does not overlap `de`, `dirlookup` finds the first entry that is in use and has the name, its
-- offset and its number, and nothing if there is none; the directory holds what it held, and
-- memory changes in `de` only.
pub dirlookup-Searched :
    (sb : Superblock) (de name : ℕ) (ip : Dinode) (d : Blocks) (m : ℕ → ℕ)
    → IsSmall sb
    → IsDirectory sb ip d
    → ((x : ℕ) → m x < 256)
    → (name + 14 ≤ de) ⊎ (de + 16 ≤ name)
    → Returns (Searched sb de name ip d m 0) (dirlookup sb de name ip d m)
unfolding dirlookup
dirlookup-Searched sb de name ip d m small dir bytes apart =
    let is_dir : (ip.kind == t_dir) ≡ true = ground (arith, dir.kind) in
    rw is_dir (
      lookup_loop-Searched sb de name ip d m ip.size 0 ip d m small apart refl (omega arith)
        record {
          directory = dir;
          rest = refl;
          same = λ o lo. refl;
          beyond = λ x out. refl;
          small = bytes;
        })
