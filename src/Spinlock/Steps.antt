-- ===== src/Spinlock/Steps.antt =====
-- kernel/spinlock.c: every interleaving of the calls on the CPUs.
use os_prioritypipes.Prelude.{
  ℕ, ◌+◌, ◌-◌, ◌<◌, ◌≡◌, refl, sym, ap, ◌∙◌, inl, inr, Bool, true, false, ◌&&◌, Option, none, some,
  List, [], ◌∷◌, length, ◌==◌, ltb, if◌then◌else◌, Bool-cases, arith,
}
use os_prioritypipes.Prelude.Maps.{update}
use os_prioritypipes.Prelude.Sets.{has, ◌∈◌, Distinct, remove}
use os_prioritypipes.Prelude.Results.{Result, ok, panic}
use os_prioritypipes.Spinlock.{Machine, holding, push_off, pop_off, enter, test_and_set, release}

-- The machine, with the locks that each CPU has acquired and not released, the one that it waits
-- for, and the calls of `push_off` outside `acquire` that it has not undone.
pub record World : Type 0 where
  pub machine : Machine
  pub held : ℕ → List ℕ
  pub waits : ℕ → Option ℕ
  pub pushed : ℕ → ℕ

-- A step of the CPU `c`.
pub data Step (w : World) : World → Type 0 where
  enters :
      {m : Machine} (c l : ℕ)
      → w.waits c ≡ none
      → enter c l w.machine ≡ ok m
      → Step w (record w { machine = m; waits = update w.waits c (some l) })
  takes :
      {m : Machine} (c l : ℕ)
      → w.waits c ≡ some l
      → test_and_set c l w.machine ≡ some m
      → Step w (record w {
        machine = m;
        waits = update w.waits c none;
        held = update w.held c (l ∷ w.held c);
      })
  releases :
      {m : Machine} (c l : ℕ)
      → w.waits c ≡ none
      → release c l w.machine ≡ ok m
      → Step w (record w { machine = m; held = update w.held c (remove l (w.held c)) })
  pushes :
      (c : ℕ)
      → w.waits c ≡ none
      → Step w
          (record w { machine = push_off c w.machine; pushed = update w.pushed c (w.pushed c + 1) })
  pops :
      {m : Machine} (c : ℕ)
      → w.waits c ≡ none
      → 0 < w.pushed c
      → pop_off c w.machine ≡ ok m
      → Step w (record w { machine = m; pushed = update w.pushed c (w.pushed c - 1) })
  -- `intr_on` and `intr_off` outside the locks
  sets_intr :
      (c : ℕ) (on : Bool)
      → (w.machine.cpus c).noff ≡ 0
      → Step w (record w {
        machine = record w.machine {
          cpus = update w.machine.cpus c (record (w.machine.cpus c) { intr = on });
        };
      })

pub data Steps : World → World → Type 0 where
  start : {w : World} → Steps w w
  then_step : {w u v : World} → Steps w u → Step u v → Steps w v

abbrev pub bit : Option ℕ → ℕ
bit (some l) = 1
bit none = 0

pub record Inv (w : World) : Type 0 where
  -- The depth counts the locks, the wait for one, and the other calls.
  pub depth : (c : ℕ) → (w.machine.cpus c).noff ≡ length (w.held c) + bit (w.waits c) + w.pushed c
  pub off : (c : ℕ) → 0 < (w.machine.cpus c).noff → (w.machine.cpus c).intr ≡ false
  pub held_once : (c : ℕ) → Distinct (w.held c)
  -- The lock knows who holds it.
  pub held_locked : (c l : ℕ) → l ∈ w.held c → holding c l w.machine ≡ true
  pub locked_held : (c l : ℕ) → holding c l w.machine ≡ true → l ∈ w.held c

-- What a call that returns has done.
abbrev pub popped : ℕ → Machine → Machine
popped c m =
    let k = m.cpus c in
    record m {
      cpus = update m.cpus c (record k {
        noff = k.noff - 1;
        intr = if (k.noff - 1 == 0) && k.intena then true else k.intr;
      });
    }

abbrev is_ok : Result Machine → Bool
is_ok panic = false
is_ok (ok m) = true

abbrev left_by : Machine → Result Machine → Machine
left_by m panic = m
left_by m (ok n) = n

pub enter-ok : (c l : ℕ) (m n : Machine) → enter c l m ≡ ok n → push_off c m ≡ n
unfolding enter
enter-ok c l m n e = elim (Bool-cases (holding c l (push_off c m))) [
  | inl mine ↦
      let refused : false ≡ true = sym (rw (enter, mine) refl) ∙ ap is_ok e in
      absurd (ground (arith, refused))
  | inr other ↦
      let returned : left_by m (enter c l m) ≡ push_off c m = rw (enter, other) refl in
      sym returned ∙ ap (left_by m) e
]

pub pop_off-ok :
    (c : ℕ) (m n : Machine) → pop_off c m ≡ ok n → (popped c m ≡ n) × (0 < (m.cpus c).noff)
unfolding pop_off
pop_off-ok c m n e = elim (Bool-cases (m.cpus c).intr) [
  | inl on ↦
      let refused : false ≡ true = sym (rw (pop_off, on) refl) ∙ ap is_ok e in
      absurd (ground (arith, refused))
  | inr off ↦ elim (Bool-cases (ltb (m.cpus c).noff 1)) [
    | inl none_left ↦
        let refused : false ≡ true = sym (rw (pop_off, off, none_left) refl) ∙ ap is_ok e in
        absurd (ground (arith, refused))
    | inr deep ↦
        let returned : left_by m (pop_off c m) ≡ popped c m = rw (pop_off, off, deep) refl in
        (sym returned ∙ ap (left_by m) e, ground (arith, deep))
  ]
]

abbrev pub unlocked : ℕ → Machine → Machine
unlocked l m = record m { locks = update m.locks l (record { locked = false; owner = none }) }

pub release-ok :
    (c l : ℕ) (m n : Machine)
    → release c l m ≡ ok n
    → (popped c (unlocked l m) ≡ n) × (0 < (m.cpus c).noff) × (holding c l m ≡ true)
unfolding release
release-ok c l m n e = elim (Bool-cases (holding c l m)) [
  | inr other ↦
      let refused : false ≡ true = sym (rw (release, other) refl) ∙ ap is_ok e in
      absurd (ground (arith, refused))
  | inl mine ↦
      let p = pop_off-ok c (unlocked l m) n (sym (rw (release, mine) refl) ∙ e) in (p.0, p.1, mine)
]

pub test_and_set-some :
    (c l : ℕ) (m n : Machine)
    → test_and_set c l m ≡ some n
    → (record m { locks = update m.locks l (record { locked = true; owner = some c }) } ≡ n)
      × ((m.locks l).locked ≡ false)
unfolding test_and_set
test_and_set-some c l m n e = elim (Bool-cases (m.locks l).locked) [
  | inl taken ↦
      let refused : false ≡ true = sym (rw (test_and_set, taken) refl) ∙ ap is_some e in
      absurd (ground (arith, refused))
  | inr free ↦
      let returned : get m (test_and_set c l m)
          ≡ record m { locks = update m.locks l (record { locked = true; owner = some c }) } =
        rw (test_and_set, free) refl in
      (sym returned ∙ ap (get m) e, free)
]
  where
    is_some : Option Machine → Bool
    is_some none = false
    is_some (some x) = true

    get : Machine → Option Machine → Machine
    get x none = x
    get x (some y) = y

-- One lock out of a list.
pub has-remove : (a b : ℕ) (xs : List ℕ) → (b == a) ≡ false → has b (remove a xs) ≡ has b xs
has-remove a b [] ne = refl
has-remove a b (x ∷ xs) ne = ground (arith, ne, has-remove a b xs ne)

pub length-remove : (a : ℕ) (xs : List ℕ) → a ∈ xs → length xs ≡ length (remove a xs) + 1
length-remove a [] i = absurd (ground (arith, i))
length-remove a (x ∷ xs) i = elim (Bool-cases (a == x)) [
  | inl here ↦ ground (arith, here)
  | inr there ↦ ground (arith, there, length-remove a xs (ground (arith, i, there)))
]
