-- ===== src/Files/Outcomes.antt =====
-- kernel/pipe.c and proj2/kernel/pipe_rt.c: what the makers of pipes come to, and their error path.
use os_prioritypipes.Prelude.{
  ℕ, ◌≡◌, ◌≢◌, refl, true, false, Option, none, some, List, [], ◌∷◌, arith, ◌==◌, if◌then◌else◌,
}
use os_prioritypipes.Prelude.Maps.{update}
use os_prioritypipes.Prelude.Sets.{has, ◌∉◌}
use os_prioritypipes.Prelude.Results.{ok, Returns, returns, bind}
use os_prioritypipes.Kalloc.Interface.{Allocator}
use os_prioritypipes.Files.{
  Kind, fd_none, Table, nothing, fileclose, open_ends, close_some, Made, give_up,
}
use os_prioritypipes.Files.Counts.{not-held_count, Counted}

-- the table after the close of a file that has just been allocated
abbrev cleared : ℕ → Table → Table
cleared f t = update t f (record (t f) { ref = 0; kind = fd_none })

close_newest :
    (f : ℕ) (t : Table) (held : List ℕ)
    → has f held ≡ false
    → (t f).kind ≡ fd_none
    → Counted t (f ∷ held)
    → (fileclose f t ≡ ok (nothing, cleared f t)) × Counted (cleared f t) held
unfolding fileclose
close_newest f t held fresh untyped c =
    let one : (t f).ref ≡ 1 = ground (arith, c.refs f, not-held_count held f fresh) in
    (
      rw (fileclose, one, untyped) refl,
      record {
        refs = λ g. ground (arith, c.refs g, not-held_count held f fresh);
        idle = λ g z. ground (arith, c.idle g);
      },
    )

Counted-swap :
    (t : Table) (f g : ℕ) (held : List ℕ) → Counted t (f ∷ g ∷ held) → Counted t (g ∷ f ∷ held)
Counted-swap t f g held c = record { refs = λ h. ground (arith, c.refs h); idle = c.idle }

pub Counted-open :
    (kind : Kind) (p f0 f1 : ℕ) (t : Table) (held : List ℕ)
    → (t f0).ref ≢ 0
    → (t f1).ref ≢ 0
    → Counted t held
    → Counted (open_ends kind p f0 f1 t) held
Counted-open kind p f0 f1 t held r0 r1 c = record {
  refs = λ h. ground (arith, c.refs h);
  idle = λ h z. ground (arith, c.idle h);
}

module _ (pages : Allocator) where
  -- Either a pipe is made, with two files that nobody held and a page that was free, or everything
  -- is as it was.
  pub data Outcome (kind : Kind) (held xs : List ℕ) (r : Made pages) : Type 0 where
    success :
        (f0 f1 x : ℕ) (rest : List ℕ)
        → r.made ≡ some (f0, f1, x)
        → xs ≡ x ∷ rest
        → f0 ∉ held
        → f1 ∉ f0 ∷ held
        → Counted r.table (f1 ∷ f0 ∷ held)
        → pages.Free r.memory rest
        → ((r.table f0).kind ≡ kind)
          × ((r.table f0).pipe ≡ x)
          × ((r.table f0).readable ≡ true)
          × ((r.table f0).writable ≡ false)
        → ((r.table f1).kind ≡ kind)
          × ((r.table f1).pipe ≡ x)
          × ((r.table f1).readable ≡ false)
          × ((r.table f1).writable ≡ true)
        → Outcome kind held xs r
    failure :
        r.made ≡ none
        → Counted r.table held
        → pages.Free r.memory xs
        → r.closings ≡ nothing ∷ nothing ∷ []
        → Outcome kind held xs r

  -- the files that an allocation has taken when it gives up
  pub data Taken (t : Table) (held : List ℕ) : Option ℕ → Option ℕ → Type 0 where
    taken_none : Counted t held → Taken t held none none
    taken_one :
        {f0 : ℕ}
        → has f0 held ≡ false
        → (t f0).kind ≡ fd_none
        → Counted t (f0 ∷ held)
        → Taken t held (some f0) none
    taken_two :
        {f0 f1 : ℕ}
        → has f0 held ≡ false
        → has f1 (f0 ∷ held) ≡ false
        → (t f0).kind ≡ fd_none
        → (t f1).kind ≡ fd_none
        → Counted t (f1 ∷ f0 ∷ held)
        → Taken t held (some f0) (some f1)

  pub give_up-Outcome :
      (kind : Kind) (p : ℕ) {f0 f1 : Option ℕ} (t : Table) (held xs : List ℕ) (memory : pages.State)
      → Returns (λ m. pages.Free m xs) (if p == 0 then ok memory else pages.release p memory)
      → Taken t held f0 f1
      → Returns (Outcome kind held xs) (give_up pages p f0 f1 t memory)
  unfolding give_up close_some
  give_up-Outcome kind p t held xs memory freed (taken_none c) =
      bind freed λ m free. returns (failure refl c free refl)
  give_up-Outcome kind p t held xs memory freed (taken_one {f0} new untyped c) =
      bind freed λ m free.
        let closed = close_newest f0 t held new untyped c in
        rw closed.0 (returns (failure refl closed.1 free refl))
  give_up-Outcome kind p t held xs memory freed
        (taken_two {f0} {f1} new0 new1 untyped0 untyped1 c) =
      bind freed λ m free.
        let first =
          close_newest f0 t (f1 ∷ held) (ground arith) untyped0 (Counted-swap t f1 f0 held c) in
        let second = close_newest f1 (cleared f0 t) held (ground arith) (ground arith) first.1 in
        rw (first.0, second.0) (returns (failure refl second.1 free refl))
