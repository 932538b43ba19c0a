-- ===== src/Strings/Moving.antt =====
-- kernel/string.c: `memmove` against a copy through a second buffer, and `memset`.
use os_prioritypipes.Prelude.{
  ℕ, zero, suc, ◌+◌, ◌≤◌, ◌<◌, ◌≡◌, refl, ap, ◌∙◌, ◌⊎◌, inl, inr, false, ◌&&◌, ltb, ◌==◌,
  Bool-cases, arith,
}
use os_prioritypipes.Prelude.Maps.{update}
use os_prioritypipes.Strings.{Memory, copy_up, copy_down, memmove}

-- `a` is none of the addresses `d`, ..., `d + n - 1`.
abbrev pub Outside : ℕ → ℕ → ℕ → Type 0
Outside d n a = (a < d) ⊎ (d + n ≤ a)

-- The `n` bytes from `d` on are those that `m` had from `s` on, and no other byte has changed.
pub record Moved (d s n : ℕ) (m m' : Memory) : Type 0 where
  pub bytes : (i : ℕ) → i < n → m' (d + i) ≡ m (s + i)
  pub others : (a : ℕ) → Outside d n a → m' a ≡ m a

copy_up-Moved : (d s n : ℕ) (m : Memory) → (d ≤ s) ⊎ (s + n ≤ d) → Moved d s n m (copy_up d s n m)
unfolding copy_up
copy_up-Moved d s zero m h = record { bytes = λ i lt. absurd (omega arith); others = λ a out. refl }
copy_up-Moved d s (suc n) m h =
    let rest = copy_up-Moved (d + 1) (s + 1) n (update m d (m s)) (omega arith) in
    record {
      bytes = up_bytes d s n m _ h rest;
      others = λ a out. rest.others a (omega arith) ∙ ground (arith, out);
    }
  where
    up_bytes :
        (d s n : ℕ) (m m' : Memory)
        → (d ≤ s) ⊎ (s + suc n ≤ d)
        → Moved (d + 1) (s + 1) n (update m d (m s)) m'
        → (i : ℕ) → i < suc n
        → m' (d + i) ≡ m (s + i)
    up_bytes d s n m m' h rest zero lt =
        ap m' (omega arith) ∙ rest.others d (omega arith) ∙ ground arith
    up_bytes d s n m m' h rest (suc i) lt =
        let a : d + suc i ≡ d + 1 + i = omega arith in
        let b : s + 1 + i ≡ s + suc i = omega arith in
        ap m' a ∙ rest.bytes i (omega arith) ∙ ground (arith, h) ∙ ap m b

copy_down-Moved : (d s n : ℕ) (m : Memory) → s < d → Moved d s n m (copy_down d s n m)
unfolding copy_down
copy_down-Moved d s zero m h = record {
  bytes = λ i lt. absurd (omega arith);
  others = λ a out. refl;
}
copy_down-Moved d s (suc n) m h =
    let rest = copy_down-Moved d s n (update m (d + n) (m (s + n))) h in
    record {
      bytes = down_bytes d s n m _ h rest;
      others = λ a out. rest.others a (omega arith) ∙ ground (arith, out);
    }
  where
    down_bytes :
        (d s n : ℕ) (m m' : Memory)
        → s < d
        → Moved d s n (update m (d + n) (m (s + n))) m'
        → (i : ℕ) → i < suc n
        → m' (d + i) ≡ m (s + i)
    down_bytes d s n m m' h rest i lt = elim (Bool-cases (ltb i n)) [
      | inl below ↦ rest.bytes i (ground (arith, below)) ∙ ground arith
      | inr top ↦
          let e : i ≡ n = ground (arith, top) in
          rest.others (d + i) (omega (arith, e)) ∙ ground (arith, e)
    ]

-- `memmove` puts the old contents of its source in its destination and touches no other byte,
-- also where the two overlap.
pub memmove-Moved : (dst src n : ℕ) (m : Memory) → Moved dst src n m (memmove dst src n m)
unfolding memmove
memmove-Moved dst src zero m = record {
  bytes = λ i lt. absurd (omega arith);
  others = λ a out. refl;
}
memmove-Moved dst src (suc n) m =
    let more : (suc n == 0) ≡ false = ground arith in
    elim (Bool-cases (ltb src dst && ltb dst (src + suc n))) [
      | inl down ↦ rw (more, down) (copy_down-Moved dst src (suc n) m (ground (arith, down)))
      | inr up ↦ rw (more, up) (copy_up-Moved dst src (suc n) m (ground (arith, up)))
    ]
