-- ===== src/Fs/Namei/Names.antt =====
-- kernel/fs.c: the names that `skipelem` puts into memory for `dirlookup`.
use os_prioritypipes.Prelude.{
  ℕ, zero, suc, ◌+◌, ◌≤◌, ◌<◌, ◌≡◌, ◌≢◌, refl, sym, ap, ◌∙◌, inl, inr, List, [], ◌∷◌, ◌++◌, length,
  ltb, Bool-cases, arith,
}
use os_prioritypipes.Prelude.Maps.{update}
use os_prioritypipes.Fs.{Blocks}
use os_prioritypipes.Fs.Contents.Bytes.{file_byte}
use os_prioritypipes.Fs.Directories.Entries.{Named}
use os_prioritypipes.Fs.Paths.Skipping.{AreChars}
use os_prioritypipes.Fs.Namei.{put_chars, store_name}

-- The character at a place, and NUL behind the name.
abbrev pub char_at : List ℕ → ℕ → ℕ
char_at [] i = 0
char_at (c ∷ cs) zero = c
char_at (c ∷ cs) (suc i) = char_at cs i

-- The entry at an offset has the name, up to its end or its first 14 characters.
abbrev pub NamedBy : List ℕ → (ℕ → ℕ) → Blocks → ℕ → Type 0
NamedBy cs a d o =
    (i : ℕ)
    → i < 14
    → ((j : ℕ) → j < i → char_at cs j ≢ 0)
    → char_at cs i ≡ file_byte a d (o + (2 + i))

put_chars_before : (a x : ℕ) (cs : List ℕ) (m : ℕ → ℕ) → x < a → put_chars a cs m x ≡ m x
put_chars_before a x [] m lt = refl
put_chars_before a x (c ∷ cs) m lt =
    put_chars_before (a + 1) x cs (update m a c) (omega (arith, lt)) ∙ ground (arith, lt)

put_chars_at :
    (a i : ℕ) (cs : List ℕ) (m : ℕ → ℕ) → i < length cs → put_chars a cs m (a + i) ≡ char_at cs i
put_chars_at a i [] m lt = absurd (omega (arith, lt))
put_chars_at a zero (c ∷ cs) m lt =
    put_chars_before (a + 1) (a + 0) cs (update m a c) (omega arith) ∙ ground arith
put_chars_at a (suc i) (c ∷ cs) m lt =
    let place : a + suc i ≡ a + 1 + i = omega arith in
    ap (put_chars (a + 1) cs (update m a c)) place
    ∙ put_chars_at (a + 1) i cs (update m a c) (omega (arith, lt))

char_at_nul : (cs : List ℕ) (i : ℕ) → char_at (cs ++ 0 ∷ []) i ≡ char_at cs i
char_at_nul [] zero = refl
char_at_nul [] (suc i) = refl
char_at_nul (c ∷ cs) zero = refl
char_at_nul (c ∷ cs) (suc i) = char_at_nul cs i

length_nul : (cs : List ℕ) → length (cs ++ 0 ∷ []) ≡ length cs + 1
length_nul [] = refl
length_nul (c ∷ cs) = omega (arith, length_nul cs)

char_at_end : (cs : List ℕ) → char_at cs (length cs) ≡ 0
char_at_end [] = refl
char_at_end (c ∷ cs) = char_at_end cs

module _ (name : ℕ) (cs : List ℕ) (m : ℕ → ℕ) (short : length cs ≤ 14) where
  store_name_at : (i : ℕ) → i < 14 → i ≤ length cs → store_name name cs m (name + i) ≡ char_at cs i
  store_name_at i lt le = elim (Bool-cases (ltb (length cs) 14)) [
    | inl ends ↦
        rw ends (
          put_chars_at name i (cs ++ 0 ∷ []) m (omega (arith, length_nul cs, le))
          ∙ char_at_nul cs i)
    | inr full ↦ rw full (put_chars_at name i cs m (ground (arith, full, lt)))
  ]

  -- The name in memory is that name.
  pub Named-NamedBy :
      (a : ℕ → ℕ) (d : Blocks) (o : ℕ) → Named (store_name name cs m) name a d o → NamedBy cs a d o
  Named-NamedBy a d o named i lt nonzero =
      let le = within i nonzero in
      sym (store_name_at i lt le)
      ∙ named i lt (λ j lj z.
        nonzero j lj (sym (store_name_at j (omega (arith, lj, lt)) (omega (arith, lj, le))) ∙ z))
    where
      within : (i : ℕ) → ((j : ℕ) → j < i → char_at cs j ≢ 0) → i ≤ length cs
      within i nonzero = elim (Bool-cases (ltb (length cs) i)) [
        | inl past ↦ absurd (nonzero (length cs) (ground (arith, past)) (char_at_end cs))
        | inr le ↦ ground (arith, le)
      ]

  pub NamedBy-Named :
      (a : ℕ → ℕ) (d : Blocks) (o : ℕ) → NamedBy cs a d o → Named (store_name name cs m) name a d o
  NamedBy-Named a d o named i lt nonzero =
      let le = within i lt nonzero in
      store_name_at i lt le
      ∙ named i lt (λ j lj z.
        nonzero j lj (store_name_at j (omega (arith, lj, lt)) (omega (arith, lj, le)) ∙ z))
    where
      within :
          (i : ℕ) → i < 14 → ((j : ℕ) → j < i → store_name name cs m (name + j) ≢ 0) → i ≤ length cs
      within i lt nonzero = elim (Bool-cases (ltb (length cs) i)) [
        | inl past ↦
            let stop : length cs < i = ground (arith, past) in
            absurd (
              nonzero (length cs) stop (
                store_name_at (length cs) (omega (arith, stop, lt)) (omega arith) ∙ char_at_end cs))
        | inr le ↦ ground (arith, le)
      ]

put_chars_small :
    (a : ℕ) (cs : List ℕ) (m : ℕ → ℕ)
    → AreChars cs
    → ((x : ℕ) → m x < 256)
    → (x : ℕ) → put_chars a cs m x < 256
put_chars_small a [] m h small x = small x
put_chars_small a (c ∷ cs) m h small x =
    put_chars_small (a + 1) cs (update m a c) h.1 (λ y. ground (arith, small y, h.0)) x

nul-AreChars : (cs : List ℕ) → AreChars cs → AreChars (cs ++ 0 ∷ [])
nul-AreChars [] h = (omega arith, tt)
nul-AreChars (c ∷ cs) h = (h.0, nul-AreChars cs h.1)

pub store_name_small :
    (name : ℕ) (cs : List ℕ) (m : ℕ → ℕ)
    → AreChars cs
    → ((x : ℕ) → m x < 256)
    → (x : ℕ) → store_name name cs m x < 256
store_name_small name cs m h small x = elim (Bool-cases (ltb (length cs) 14)) [
  | inl ends ↦ rw ends (put_chars_small name (cs ++ 0 ∷ []) m (nul-AreChars cs h) small x)
  | inr full ↦ rw full (put_chars_small name cs m h small x)
]
