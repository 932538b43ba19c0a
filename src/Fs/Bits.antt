-- ===== src/Fs/Bits.antt =====
-- kernel/fs.c: the bits of a byte, as `balloc` and `bfree` test, set and clear them.
use Prim.Native.Nat.{bit_and, bit_or}
use os_prioritypipes.Prelude.{
  ℕ, zero, suc, ◌-◌, ◌+◌, ◌^◌, ◌≤◌, ◌<◌, ◌≡◌, refl, sym, subst, inl, inr, Bool-cases, Bool, true,
  false, ◌&&◌, not, ltb, ◌==◌, if◌then◌else◌, arith,
}

-- `byte & m`, `byte | m` and `byte & ~m` for `m = 1 << r`
abbrev pub is_clear : ℕ → ℕ → Bool
is_clear byte r = bit_and byte (2 ^ r) == 0

abbrev pub set_bit : ℕ → ℕ → ℕ
set_bit byte r = bit_or byte (2 ^ r)

abbrev pub clear_bit : ℕ → ℕ → ℕ
clear_bit byte r = bit_and byte (255 - 2 ^ r)

-- The test passes on each of the `count` numbers from `first` on.
passes : ℕ → ℕ → (ℕ → Bool) → Bool
passes first zero test = true
passes first (suc count) test =
    let rest = passes (first + 1) count test in if test first then rest else false

passes-at :
    (first count : ℕ) (test : ℕ → Bool) (k : ℕ)
    → passes first count test ≡ true
    → first ≤ k
    → k < first + count
    → test k ≡ true
unfolding passes
passes-at first zero test k good from to = absurd (omega (arith, from, to))
passes-at first (suc count) test k good from to = elim (Bool-cases (k == first)) [
  | inl here ↦
      let e : k ≡ first = ground (arith, here) in
      subst (λ i. test i ≡ true) (sym e) (ground (arith, good))
  | inr further ↦
      passes-at (first + 1) count test k (ground (arith, good)) (ground (arith, from, further))
        (omega (arith, to))
]

same : Bool → Bool → Bool
same true b = b
same false b = not b

-- what a change of the bit `r` of a byte does to its bit `q`
law : ℕ → ℕ → ℕ → Bool
law byte r q =
    same (is_clear (set_bit byte r) q) (if q == r then false else is_clear byte q)
    && same (is_clear (clear_bit byte r) q) (if q == r then true else is_clear byte q)
    && ltb (set_bit byte r) 256
    && ltb (clear_bit byte r) 256

bytes_table : passes 0 256 (λ byte. passes 0 8 (λ r. passes 0 8 (law byte r))) ≡ true
unfolding passes law same
bytes_table = refl

same-eq : (a b : Bool) → same a b ≡ true → a ≡ b
unfolding same
same-eq a b e = ground (arith, e)

table_at : (byte r q : ℕ) → byte < 256 → r < 8 → q < 8 → law byte r q ≡ true
table_at byte r q lb lr lq =
    let of_byte = passes-at 0 256 _ byte bytes_table (omega arith) lb in
    let of_bit = passes-at 0 8 _ r of_byte (omega arith) lr in
    passes-at 0 8 (law byte r) q of_bit (omega arith) lq

pub is_clear-set_bit :
    (byte r q : ℕ)
    → byte < 256
    → r < 8
    → q < 8
    → (is_clear (set_bit byte r) q ≡ (if q == r then false else is_clear byte q))
      × (set_bit byte r < 256)
unfolding law
is_clear-set_bit byte r q lb lr lq =
    let t = table_at byte r q lb lr lq in (same-eq _ _ (ground (arith, t)), ground (arith, t))

pub is_clear-clear_bit :
    (byte r q : ℕ)
    → byte < 256
    → r < 8
    → q < 8
    → (is_clear (clear_bit byte r) q ≡ (if q == r then true else is_clear byte q))
      × (clear_bit byte r < 256)
unfolding law
is_clear-clear_bit byte r q lb lr lq =
    let t = table_at byte r q lb lr lq in (same-eq _ _ (ground (arith, t)), ground (arith, t))
