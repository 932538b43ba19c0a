-- ===== src/Fs/Namei/Walking.antt =====
-- kernel/fs.c: the walk of `namex` against the tree of directories on the disk.
use os_prioritypipes.Prelude.{
  ℕ, zero, suc, ◌+◌, ◌-◌, ◌≤◌, ◌<◌, ◌≡◌, refl, sym, ap, subst, ◌∙◌, ◌⊎◌, inl, inr, Bool, false,
  ◌&&◌, Option, none, some, List, ◌∷◌, length, ltb, ◌==◌, if◌then◌else◌, Bool-cases, arith,
}
use os_prioritypipes.Prelude.Results.{Result, Returns, returns, bind, mono}
use os_prioritypipes.Fs.{Superblock}
use os_prioritypipes.Fs.Inodes.{Dinode}
use os_prioritypipes.Fs.Inodes.Adding.{IsSmall}
use os_prioritypipes.Fs.Paths.{skip_slashes, skipelem, next_names, names, is_end}
use os_prioritypipes.Fs.Paths.Skipping.{
  AreChars, Skipped, ended, skipped, skipelem-Skipped, is_end-names,
}
use os_prioritypipes.Fs.Itable.{Table, Inodes, idup}
use os_prioritypipes.Fs.Itable.Getting.{Unique}
use os_prioritypipes.Fs.Namei.{
  store_name, Walked, rootino, starts_at_root, namex, give_up, next_inode, enter, next_element,
  namex_loop,
}
use os_prioritypipes.Fs.Namei.Holding.{
  Consistent, Coherent, Holds, Holds-ext, one, iput-Given, idup-Holds, iunlockput-Given,
  ilock-Locked,
}
use os_prioritypipes.Fs.Namei.Referring.{iget-Referred}
use os_prioritypipes.Fs.Namei.Tree.{
  Walks, arrived, no_name, no_directory, stops, no_entry, into, number_of, Arrived,
}
use os_prioritypipes.Fs.Namei.Looking.{Room, Looked, nowhere, entered, look-Looked}

-- Each walk along a short enough path comes to what the tree says.
abbrev WalksOn : Bool → ℕ → (List ℕ → ℕ → Inodes → (ℕ → ℕ) → Result Walked) → Inodes → Type 0
WalksOn parent rounds more s0 =
    (path : List ℕ) (i : ℕ) (s : Inodes) (m : ℕ → ℕ)
    → length path < rounds
    → AreChars path
    → Holds s0 (one i) s
    → ((x : ℕ) → m x < 256)
    → Returns (Arrived s0 parent (s.table i).inum (names rounds path)) (more path i s m)

module _ (sb : Superblock) (de name : ℕ) (s0 : Inodes) (c : Consistent sb s0.disk) (room : Room s0)
    (small : IsSmall sb) (apart : (name + 14 ≤ de) ⊎ (de + 16 ≤ name)) (parent : Bool) where
  give_up-Arrived :
      (i start : ℕ) (ns : List (List ℕ)) (s : Inodes)
      → Holds s0 (one i) s
      → Walks s0.disk parent start ns none
      → Returns (Arrived s0 parent start ns) (give_up sb de name i s)
  give_up-Arrived i start ns s h w =
      let one_here : 0 < one i i = ground arith in
      bind (iunlockput-Given sb s0 c (one i) s h de name i one_here) (λ s1 g. returns record {
        holds = Holds-ext s0 (λ j. one i j - one i j) (λ j. 0) s1 (λ j. omega arith) g.holds;
        reached = w;
      })

  next_inode-Arrived :
      (rounds : ℕ) (more : List ℕ → ℕ → Inodes → (ℕ → ℕ) → Result Walked) (i n : ℕ)
      (cs rest : List ℕ) (l : Option ℕ × Inodes × (ℕ → ℕ))
      → WalksOn parent rounds more s0
      → length rest < rounds
      → AreChars rest
      → (s0.disk.inodes n).kind ≡ 1
      → (parent && is_end (names rounds rest)) ≡ false
      → Looked s0 n cs i l
      → Returns (Arrived s0 parent n (cs ∷ names rounds rest)) (next_inode sb de name more i rest l)
  next_inode-Arrived rounds more i n cs rest _ walks shorter chars is_dir goes
        (nowhere {s} h missing) =
      give_up-Arrived i n (cs ∷ names rounds rest) s h
        (no_entry n cs (names rounds rest) is_dir goes missing)
  next_inode-Arrived rounds more i n cs rest _ walks shorter chars is_dir goes
        (entered {s} {m} k o h number lo al named before bytes) =
      let here : 0 < one i i + one k i = ground arith in
      bind (iunlockput-Given sb s0 c (λ j. one i j + one k j) s h de name i here) (λ s1 g.
        let h1 =
          Holds-ext s0 (λ j. one i j + one k j - one i j) (one k) s1 (λ j. omega arith) g.holds in
        mono (walks rest k s1 m shorter chars h1 bytes) (λ r a. record {
          holds = a.holds;
          reached = into n cs (names rounds rest) o is_dir goes lo al named before (
              subst (λ x. Walks s0.disk parent x (names rounds rest) (number_of r.1 r.0))
                (g.inums k ∙ number) a.reached);
        }))

  -- the inode `n` is at the entry `i`, and has been read
  enter-Arrived :
      (rounds : ℕ) (more : List ℕ → ℕ → Inodes → (ℕ → ℕ) → Result Walked) (i n : ℕ)
      (cs rest : List ℕ) (m : ℕ → ℕ) (s : Inodes)
      → WalksOn parent rounds more s0
      → length rest < rounds
      → AreChars rest
      → length cs ≤ 14
      → AreChars cs
      → is_end (names rounds rest) ≡ is_end rest
      → ((x : ℕ) → m x < 256)
      → Holds s0 (one i) s
      → (s.table i).info ≡ s0.disk.inodes n
      → (s.table i).inum ≡ n
      → Returns
          (Arrived s0 parent n (cs ∷ names rounds rest))
          (enter sb de name more parent i rest (store_name name cs m) s)
  enter-Arrived rounds more i n cs rest m s walks shorter chars short cs_chars ends bytes h info
        inum =
      let kind : (s.table i).info.kind ≡ (s0.disk.inodes n).kind =
        ap (λ (x : Dinode). x.kind) info in
      let held : ltb (s.table i).ref 1 ≡ false = ground (arith, h.refs i) in
      elim (Bool-cases ((s.table i).info.kind == 1)) [
        | inr other ↦ rw other (
            give_up-Arrived i n (cs ∷ names rounds rest) s h
              (no_directory n cs (names rounds rest) (ground (arith, other, kind))))
        | inl this ↦
            let is_dir : (s0.disk.inodes n).kind ≡ 1 = ground (arith, this, kind) in
            elim (Bool-cases (parent && is_end rest)) [
              | inl last ↦
                  rw (this, last, held)
                    (returns record {
                      holds = h;
                      reached =
                          subst (λ x. Walks s0.disk parent n (cs ∷ names rounds rest) (some x))
                            (sym inum) (stops n cs (names rounds rest) is_dir (rw ends last));
                    })
              | inr goes ↦
                  rw (this, goes)
                    (bind
                      (look-Looked sb de name s0 c room i n cs short m s h is_dir small apart
                        cs_chars bytes info)
                      (λ l q.
                        next_inode-Arrived rounds more i n cs rest l walks shorter chars is_dir
                          (rw ends goes) q))
            ]
      ]

  next_element-Arrived :
      (rounds : ℕ) (more : List ℕ → ℕ → Inodes → (ℕ → ℕ) → Result Walked) (path : List ℕ) (i : ℕ)
      (s : Inodes) (m : ℕ → ℕ) (r : Option (List ℕ × List ℕ))
      → WalksOn parent rounds more s0
      → length path < suc rounds
      → Skipped path r
      → Holds s0 (one i) s
      → ((x : ℕ) → m x < 256)
      → Returns
          (Arrived s0 parent (s.table i).inum (next_names (names rounds) r))
          (next_element sb de name more parent i s m r)
  next_element-Arrived rounds more path i s m _ walks len ended h bytes =
      let here : 0 < one i i = ground arith in
      elim (Bool-cases parent) [
        | inl stop ↦ rw stop (
            bind (iput-Given sb s0 c (one i) s h i here) (λ s1 g. returns record {
              holds = Holds-ext s0 (λ j. one i j - one i j) (λ j. 0) s1 (λ j. omega arith) g.holds;
              reached = no_name (s.table i).inum refl;
            }))
        | inr goes ↦ rw goes (returns record { holds = h; reached = arrived (s.table i).inum refl })
      ]
  next_element-Arrived zero more path i s m _ walks len (skipped cs p short shorter cs_chars chars)
        h bytes =
      absurd (omega (arith, len, shorter))
  next_element-Arrived (suc rounds) more path i s m _ walks len
        (skipped cs p short shorter cs_chars chars) h bytes =
      let here : 0 < one i i = ground arith in
      bind (ilock-Locked sb s0 c (one i) s h i here) (λ s1 k.
        enter-Arrived (suc rounds) more i (s.table i).inum cs (skip_slashes p) m s1 walks
          (omega (arith, len, shorter)) chars short cs_chars (is_end-names rounds p) bytes k.holds
          k.info k.inum)

  namex_loop-Arrived : (rounds : ℕ) → WalksOn parent rounds (namex_loop sb de name parent rounds) s0
  unfolding namex_loop names
  namex_loop-Arrived zero path i s m len chars h bytes = absurd (omega (arith, len))
  namex_loop-Arrived (suc rounds) path i s m len chars h bytes =
      next_element-Arrived rounds (namex_loop sb de name parent rounds) path i s m (skipelem path)
        (namex_loop-Arrived rounds) len (skipelem-Skipped path chars) h bytes

idup_inum : (i : ℕ) (t : Table) → (idup i t i).inum ≡ (t i).inum
unfolding idup
idup_inum i t = ground arith

-- The number of the inode where a walk begins.
abbrev pub start_of : List ℕ → ℕ → Inodes → ℕ
start_of path cwd s = if starts_at_root path then rootino else (s.table cwd).inum

-- On a consistent disk, with a table whose entries in use are of one inode each and say what the disk
-- says, two entries not in use, and an inode in use at `cwd`, `namex` returns, for each path, with no
-- panic. It begins at the root if the path begins with a slash, else at `cwd`, and comes along the names
-- of the path to the inode that the tree of directories on the disk has there, to the one before the
-- last name if `parent`, or to none where the tree has none. The disk stays, each entry in use stays
-- that of its inode, and the reference returned is the only one that has been added.
pub namex-Arrived :
    (sb : Superblock) (de name : ℕ) (parent : Bool) (path : List ℕ) (cwd : ℕ) (s : Inodes)
    (m : ℕ → ℕ)
    → IsSmall sb
    → (name + 14 ≤ de) ⊎ (de + 16 ≤ name)
    → Consistent sb s.disk
    → Coherent s
    → Unique s.table
    → 0 < (s.table cwd).ref
    → Room s
    → AreChars path
    → ((x : ℕ) → m x < 256)
    → Returns
        (Arrived s parent (start_of path cwd s) (names (suc (length path)) path))
        (namex sb de name parent path cwd s m)
unfolding namex
namex-Arrived sb de name parent path cwd s m small apart c coherent unique used room chars bytes =
    let h : Holds s (λ j. 0) s = record {
      disk = refl;
      refs = λ j. omega arith;
      same = λ j u. (refl, refl);
      unique = unique;
      coherent = coherent;
    } in
    let walk = namex_loop-Arrived sb de name s c room small apart parent (suc (length path)) path in
    elim (Bool-cases (starts_at_root path)) [
      | inl root ↦ rw root (
          bind (iget-Referred sb s c (λ j. 0) s h 1 room.first c.root room.first_lt room.first_free)
            (λ r q.
              subst
                (λ n. Returns (Arrived s parent n (names (suc (length path)) path)) (
                  namex_loop sb de name parent (suc (length path)) path r.0
                    (record s { table = r.1 }) m))
                q.inum
                (walk r.0 (record s { table = r.1 }) m (omega arith) chars
                  (Holds-ext s (λ j. 0 + one r.0 j) (one r.0) _ (λ j. omega arith) q.holds) bytes)))
      | inr here ↦ rw here (
          let walked =
            walk cwd (record s { table = idup cwd s.table }) m (omega arith) chars
              (Holds-ext s (λ j. 0 + one cwd j) (one cwd) _ (λ j. omega arith)
                (idup-Holds sb s c (λ j. 0) s h cwd used))
              bytes in
          subst
            (λ n. Returns (Arrived s parent n (names (suc (length path)) path)) (
              namex_loop sb de name parent (suc (length path)) path cwd
                (record s { table = idup cwd s.table }) m))
            (idup_inum cwd s.table) walked)
    ]
