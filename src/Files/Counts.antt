-- ===== src/Files/Counts.antt =====
-- kernel/file.c: the reference counts against the references that are held.
use os_prioritypipes.Prelude.{
  ℕ, suc, ◌-◌, ◌<◌, ◌≡◌, ◌≢◌, refl, ◌∙◌, ◌⊎◌, inl, inr, false, Option, none, some, List, [], ◌∷◌,
  arith, ltb, ◌==◌, if◌then◌else◌, Bool-cases,
}
use os_prioritypipes.Prelude.Maps.{update}
use os_prioritypipes.Prelude.Sets.{has, ◌∈◌, remove}
use os_prioritypipes.Prelude.Results.{Result, ok, Returns, returns, bind, ◌>>=◌}
use os_prioritypipes.Files.{nfile, fd_none, Table, filealloc, filedup, nothing, closing, fileclose}
use os_prioritypipes.Files.Slots.{find_slot_lem}

abbrev pub count : ℕ → List ℕ → ℕ
count f [] = 0
count f (g ∷ gs) = if f == g then suc (count f gs) else count f gs

-- Each file counts the references to it that are held, and one without references has no type.
pub record Counted (t : Table) (held : List ℕ) : Type 0 where
  pub refs : (f : ℕ) → (t f).ref ≡ count f held
  pub idle : (f : ℕ) → (t f).ref ≡ 0 → (t f).kind ≡ fd_none

count-mem : (f : ℕ) (held : List ℕ) → f ∈ held → 0 < count f held
count-mem f [] m = absurd (ground arith)
count-mem f (g ∷ gs) m = ground (arith, count-mem f gs)

has-count : (f : ℕ) (held : List ℕ) → has f held ≡ ltb 0 (count f held)
has-count f [] = refl
has-count f (g ∷ gs) = ground (arith, has-count f gs)

count-remove_self : (f : ℕ) (held : List ℕ) → count f (remove f held) ≡ count f held - 1
count-remove_self f [] = omega arith
count-remove_self f (g ∷ gs) = ground (arith, count-remove_self f gs)

count-remove_ne : (f g : ℕ) (held : List ℕ) → f ≢ g → count f (remove g held) ≡ count f held
count-remove_ne f g [] ne = refl
count-remove_ne f g (h ∷ hs) ne = ground (arith, count-remove_ne f g hs ne)

-- a file that nobody holds has no type
pub not-held_kind :
    (t : Table) (held : List ℕ) (f : ℕ) → Counted t held → has f held ≡ false → (t f).kind ≡ fd_none
not-held_kind t held f c new = c.idle f (ground (arith, c.refs f, has-count f held))

pub not-held_ref :
    (t : Table) (held : List ℕ) (f : ℕ) → Counted t held → has f held ≡ false → (t f).ref ≡ 0
not-held_ref t held f c new = ground (arith, c.refs f, has-count f held)

pub not-held_count : (held : List ℕ) (f : ℕ) → has f held ≡ false → count f held ≡ 0
not-held_count held f new = ground (arith, has-count f held)

-- `filealloc` gives a file that nobody holds, and fails only if all NFILE are held.
pub filealloc-Counted :
    (t : Table) (held : List ℕ)
    → Counted t held
    → ((filealloc t ≡ (none, t)) × ((f : ℕ) → f < nfile → f ∈ held))
      ⊎ ((f : ℕ) × (filealloc t ≡ (some f, update t f (record (t f) { ref = 1 })))
          × (f < nfile)
          × (has f held ≡ false)
          × Counted (update t f (record (t f) { ref = 1 })) (f ∷ held))
unfolding filealloc
filealloc-Counted t held c = elim (find_slot_lem (λ f. (t f).ref == 0) nfile 0) [
  | inl (e, h) ↦
      inl (rw (filealloc, e) refl, λ f lt. ground (arith, h f, c.refs f, has-count f held))
  | inr (f, e, lo, hi, free, h) ↦ inr (
    f,
    rw (filealloc, e) refl,
    hi,
    ground (arith, free, c.refs f, has-count f held),
    record { refs = λ g. ground (arith, c.refs g, free); idle = λ g z. ground (arith, c.idle g) },
  )
]

-- A holder of a file can duplicate its reference.
pub filedup-Counted :
    (f : ℕ) (t : Table) (held : List ℕ)
    → f ∈ held
    → Counted t held
    → Returns (λ t'. Counted t' (f ∷ held)) (filedup f t)
unfolding filedup
filedup-Counted f t held mem c =
    let some_ref : ltb (t f).ref 1 ≡ false = ground (arith, count-mem f held mem, c.refs f) in
    rw some_ref (
      returns
        (record { refs = λ g. ground (arith, c.refs g); idle = λ g z. ground (arith, c.idle g) }))

-- A holder can close its reference. The file is torn down with the last one, and only then.
pub fileclose-Counted :
    (f : ℕ) (t : Table) (held : List ℕ)
    → f ∈ held
    → Counted t held
    → Returns
        (λ r.
          Counted r.1 (remove f held)
          × (r.0 ≡ (if has f (remove f held) then nothing else closing (t f))))
        (fileclose f t)
unfolding fileclose
fileclose-Counted f t held mem c =
    let some_ref : ltb (t f).ref 1 ≡ false = ground (arith, count-mem f held mem, c.refs f) in
    let rest : has f (remove f held) ≡ ltb 0 ((t f).ref - 1) =
      has-count f (remove f held) ∙ rw (count-remove_self f held, c.refs f) refl in
    let removed : (g : ℕ) → g ≢ f → count g (remove f held) ≡ (t g).ref =
      λ g ne. rw (c.refs g) (count-remove_ne g f held ne) in
    elim (Bool-cases (ltb 0 ((t f).ref - 1))) [
      | inl more ↦
          rw (some_ref, rest, more)
            (returns (
              record {
                refs = λ g. ground (arith, removed g, count-remove_self f held, c.refs f);
                idle = λ g z. ground (arith, c.idle g);
              },
              refl,
            ))
      | inr last ↦
          rw (some_ref, rest, last)
            (returns (
              record {
                refs = λ g. ground (arith, removed g, count-remove_self f held, c.refs f);
                idle = λ g z. ground (arith, c.idle g);
              },
              refl,
            ))
    ]

-- The calls of processes that share the table: each duplicates or closes only what it holds.
pub data Call : Type 0 where
  opens : Call
  dups : ℕ → Call
  drops : ℕ → Call

-- the table, with every reference that is held
pub record Holders : Type 0 where
  pub table : Table
  pub held : List ℕ

abbrev pub opened : Option ℕ → List ℕ → List ℕ
opened none held = held
opened (some f) held = f ∷ held

unfoldable pub calls : List Call → Holders → Result Holders
calls [] s = ok s
calls (opens ∷ cs) s =
    let (r, t) = filealloc s.table in calls cs (record { table = t; held = opened r s.held })
calls (dups f ∷ cs) s =
    let dup = (filedup f s.table >>= λ t. calls cs (record { table = t; held = f ∷ s.held })) in
    if has f s.held then dup else calls cs s
calls (drops f ∷ cs) s =
    let drop =
      (fileclose f s.table >>= λ r. calls cs (record { table = r.1; held = remove f s.held })) in
    if has f s.held then drop else calls cs s

-- No history of opens, and of duplications and closes of references that are held, makes the
-- kernel panic, and every count stays the number of references held.
pub calls-Counted :
    (cs : List Call) (s : Holders)
    → Counted s.table s.held
    → Returns (λ s'. Counted s'.table s'.held) (calls cs s)
unfolding calls
calls-Counted [] s c = returns c
calls-Counted (opens ∷ cs) s c = elim (filealloc-Counted s.table s.held c) [
  | inl (e, all) ↦ rw e (calls-Counted cs s c)
  | inr (f, e, lt, new, c') ↦ rw e (calls-Counted cs _ c')
]
calls-Counted (dups f ∷ cs) s c = elim (Bool-cases (has f s.held)) [
  | inl mine ↦
      rw mine (bind (filedup-Counted f s.table s.held mine c) λ t c'. calls-Counted cs _ c')
  | inr other ↦ rw other (calls-Counted cs s c)
]
calls-Counted (drops f ∷ cs) s c = elim (Bool-cases (has f s.held)) [
  | inl mine ↦
      rw mine (bind (fileclose-Counted f s.table s.held mine c) λ r h. calls-Counted cs _ h.0)
  | inr other ↦ rw other (calls-Counted cs s c)
]
