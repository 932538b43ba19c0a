-- ===== src/Files/Slots.antt =====
-- kernel/file.c: the search for a free slot, in `filealloc` and in `fdalloc`.
use os_prioritypipes.Prelude.{
  ℕ, zero, suc, ◌+◌, ◌≤◌, ◌<◌, ◌≡◌, ◌≢◌, refl, ◌⊎◌, inl, inr, Bool, true, false, Option, none, some,
  arith, Bool-cases,
}
use os_prioritypipes.Prelude.Maps.{update}
use os_prioritypipes.Files.{find_slot, fdalloc, nofile}

-- A search finds the first slot that passes, or none does.
pub find_slot_lem :
    (free : ℕ → Bool) (k i : ℕ)
    → ((find_slot free k i ≡ none) × ((j : ℕ) → i ≤ j → j < i + k → free j ≡ false))
      ⊎ ((f : ℕ) × (find_slot free k i ≡ some f)
          × (i ≤ f)
          × (f < i + k)
          × (free f ≡ true)
          × ((j : ℕ) → i ≤ j → j < f → free j ≡ false))
unfolding find_slot
find_slot_lem free zero i = inl (refl, λ j lo hi. absurd (omega arith))
find_slot_lem free (suc k) i = elim (Bool-cases (free i)) [
  | inl here ↦
      inr (i, rw here refl, omega arith, omega arith, here, λ j lo hi. absurd (omega arith))
  | inr taken ↦ elim (find_slot_lem free k (i + 1)) [
    | inl (e, h) ↦ inl (rw (taken, e) refl, λ j lo hi. ground (arith, h j, taken))
    | inr (f, e, lo, hi, ok_f, h) ↦ inr (
      f,
      rw (taken, e) refl,
      omega arith,
      omega arith,
      ok_f,
      λ j lo' hi'. ground (arith, h j, taken),
    )
  ]
]

-- `fdalloc` takes the lowest free descriptor, and fails only if all NOFILE are in use.
pub fdalloc_lowest :
    (f : ℕ) (ofile : ℕ → Option ℕ)
    → ((fdalloc f ofile ≡ (none, ofile)) × ((fd : ℕ) → fd < nofile → ofile fd ≢ none))
      ⊎ ((fd : ℕ) × (fdalloc f ofile ≡ (some fd, update ofile fd (some f)))
          × (fd < nofile)
          × (ofile fd ≡ none)
          × ((j : ℕ) → j < fd → ofile j ≢ none))
unfolding fdalloc
fdalloc_lowest f ofile =
    elim (find_slot_lem (λ fd. elim (ofile fd) [ none ↦ true | some g ↦ false ]) nofile 0) [
      | inl (e, h) ↦ inl (rw (fdalloc, e) refl, λ fd lt. ground (arith, h fd))
      | inr (fd, e, lo, hi, free, h) ↦
          inr (fd, rw (fdalloc, e) refl, hi, ground (arith, free), λ j lt. ground (arith, h j))
    ]
