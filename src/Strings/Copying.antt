-- ===== src/Strings/Copying.antt =====
-- kernel/string.c: `strncpy` and `safestrcpy`.
use os_prioritypipes.Prelude.{
  ℕ, zero, suc, ◌+◌, ◌≤◌, ◌<◌, ◌≡◌, ◌≢◌, refl, ap, ◌∙◌, ◌⊎◌, inl, inr, true, ◌==◌, Bool-cases,
  arith,
}
use os_prioritypipes.Prelude.Maps.{update}
use os_prioritypipes.Strings.{Memory, pad, strncpy, safe_loop, safestrcpy}
use os_prioritypipes.Strings.Moving.{Outside}

-- The two buffers of `n` bytes share none.
abbrev pub Apart : ℕ → ℕ → ℕ → Type 0
Apart s t n = (s + n ≤ t) ⊎ (t + n ≤ s)

-- `m'` has at `s` the first `size` characters that `m` has at `t`, and no byte but the `n` from
-- `s` on has changed.
pub record Prefix (s t n size : ℕ) (m m' : Memory) : Type 0 where
  pub chars : (i : ℕ) → i < size → (m (t + i) ≢ 0) × (m' (s + i) ≡ m (t + i))
  pub others : (a : ℕ) → Outside s n a → m' a ≡ m a

nul : (m : Memory) (t : ℕ) → (m t == 0) ≡ true → m t ≡ 0
nul m t end = ground arith

-- One character copied before a prefix makes a longer one.
prefix_more :
    (s t n size : ℕ) (m m' : Memory)
    → Apart s t (suc n)
    → m t ≢ 0
    → size ≤ n
    → Prefix (s + 1) (t + 1) n size (update m s (m t)) m'
    → Prefix s t (suc n) (suc size) m m'
prefix_more s t n size m m' apart some le p = record {
  chars = go;
  others = λ a out. p.others a (omega arith) ∙ ground (arith, out);
}
  where
    go : (i : ℕ) → i < suc size → (m (t + i) ≢ 0) × (m' (s + i) ≡ m (t + i))
    go zero lt =
        let a : s + 0 ≡ s = omega arith in
        let b : t ≡ t + 0 = omega arith in
        ((λ z. some (ap m b ∙ z)), ap m' a ∙ p.others s (omega arith) ∙ ground arith ∙ ap m b)
    go (suc i) lt =
        let a : s + suc i ≡ s + 1 + i = omega arith in
        let b : t + 1 + i ≡ t + suc i = omega arith in
        let same : update m s (m t) (t + 1 + i) ≡ m (t + suc i) = ground (arith, apart) ∙ ap m b in
        let c = p.chars i (omega arith) in ((λ z. c.0 (same ∙ z)), ap m' a ∙ c.1 ∙ same)

-- What a stop one character further on says of the whole string.
stops_more :
    (s t n size : ℕ) (m : Memory)
    → Apart s t (suc n)
    → size ≤ n
    → (size ≡ n) ⊎ (update m s (m t) (t + 1 + size) ≡ 0)
    → (suc size ≡ suc n) ⊎ (m (t + suc size) ≡ 0)
stops_more s t n size m apart le h = elim (Bool-cases (size == n)) [
  | inl all ↦ inl (ground (arith, all))
  | inr short ↦ elim h [
    | inl e ↦ inl (omega (arith, e))
    | inr end ↦
        let lt : size < n = ground (arith, short) in
        let a : t + suc size ≡ t + 1 + size = omega arith in
        inr (ap m a ∙ ground (arith, apart, end, lt))
  ]
]

stops_short :
    (s t n size : ℕ) (m : Memory)
    → Apart s t (suc n)
    → size < n
    → (suc size ≡ n) ⊎ (update m s (m t) (t + 1 + size) ≡ 0)
    → (suc (suc size) ≡ suc n) ⊎ (m (t + suc size) ≡ 0)
stops_short s t n size m apart lt (inl e) = inl (omega (arith, e))
stops_short s t n size m apart lt (inr nul) =
    let a : t + suc size ≡ t + 1 + size = omega arith in
    inr (ap m a ∙ ground (arith, apart, nul, lt))

pad_others : (s n : ℕ) (m : Memory) (a : ℕ) → Outside s n a → pad s n m a ≡ m a
unfolding pad
pad_others s zero m a out = refl
pad_others s (suc n) m a out =
    pad_others (s + 1) n (update m s 0) a (omega arith) ∙ ground (arith, out)

-- zeros from `s` on, if there is one at `s` already
pad_zeros : (s n : ℕ) (m : Memory) (a : ℕ) → m s ≡ 0 → s ≤ a → a < s + suc n → pad (s + 1) n m a ≡ 0
unfolding pad
pad_zeros s zero m a z lo hi = ap m (omega arith) ∙ z
pad_zeros s (suc n) m a z lo hi = elim (Bool-cases (s == a)) [
  | inl here ↦ pad_others (s + 1) (suc n) m a (ground (arith, here)) ∙ ground (arith, here, z)
  | inr past ↦
      pad_zeros (s + 1) n (update m (s + 1) 0) a (ground arith) (ground (arith, past)) (omega arith)
]

-- The string at `t`, but at most `n` of its characters, and zeros in what is left of the `n` bytes.
pub record Padded (s t n : ℕ) (m m' : Memory) : Type 0 where
  pub size : ℕ
  pub fits : size ≤ n
  pub stops : (size ≡ n) ⊎ (m (t + size) ≡ 0)
  pub copied : Prefix s t n size m m'
  pub zeros : (a : ℕ) → s + size ≤ a → a < s + n → m' a ≡ 0

-- `strncpy` between buffers that share no byte copies the string, but at most `n` of its
-- characters, fills what is left of the `n` bytes with zeros, and changes no other byte.
pub strncpy-Padded : (s t n : ℕ) (m : Memory) → Apart s t n → Padded s t n m (strncpy s t n m)
unfolding strncpy
strncpy-Padded s t zero m apart = record {
  size = 0;
  fits = omega arith;
  stops = inl refl;
  copied = record { chars = λ i lt. absurd (omega arith); others = λ a out. refl };
  zeros = λ a lo hi. absurd (omega arith);
}
strncpy-Padded s t (suc n) m apart = elim (Bool-cases (m t == 0)) [
  | inl end ↦ rw end record {
    size = 0;
    fits = omega arith;
    stops = inr (ap m (omega arith) ∙ nul m t end);
    copied = record {
      chars = λ i lt. absurd (omega arith);
      others =
          λ a out. pad_others (s + 1) n (update m s (m t)) a (omega arith) ∙ ground (arith, out);
    };
    zeros = λ a lo hi. pad_zeros s n (update m s (m t)) a (ground (arith, end)) (omega arith) hi;
  }
  | inr char ↦
      let rest = strncpy-Padded (s + 1) (t + 1) n (update m s (m t)) (omega arith) in
      rw char record {
        size = suc rest.size;
        fits = omega (arith, rest.fits);
        stops = stops_more s t n rest.size m apart rest.fits rest.stops;
        copied = prefix_more s t n rest.size m _ apart (ground (arith, char)) rest.fits rest.copied;
        zeros = λ a lo hi. rest.zeros a (omega arith) (omega arith);
      }
]

-- The string at `t`, but at most `n - 1` of its characters, and a NUL.
pub record Ended (s t n : ℕ) (m m' : Memory) : Type 0 where
  pub size : ℕ
  pub fits : size < n
  pub stops : (suc size ≡ n) ⊎ (m (t + size) ≡ 0)
  pub copied : Prefix s t n size m m'
  pub ends : m' (s + size) ≡ 0

safe_loop-Ended :
    (s t n : ℕ) (m : Memory) → Apart s t (suc n) → Ended s t (suc n) m (safe_loop s t n m)
unfolding safe_loop
safe_loop-Ended s t zero m apart = record {
  size = 0;
  fits = omega arith;
  stops = inl refl;
  copied = record { chars = λ i lt. absurd (omega arith); others = λ a out. ground (arith, out) };
  ends = ground arith;
}
safe_loop-Ended s t (suc n) m apart = elim (Bool-cases (m t == 0)) [
  | inl end ↦ rw end record {
    size = 0;
    fits = omega arith;
    stops = inr (ap m (omega arith) ∙ nul m t end);
    copied = record { chars = λ i lt. absurd (omega arith); others = λ a out. ground (arith, out) };
    ends = ground (arith, end);
  }
  | inr char ↦
      let rest = safe_loop-Ended (s + 1) (t + 1) n (update m s (m t)) (omega arith) in
      let le : rest.size ≤ suc n = omega (arith, rest.fits) in
      rw char record {
        size = suc rest.size;
        fits = omega (arith, rest.fits);
        stops = stops_short s t (suc n) rest.size m apart rest.fits rest.stops;
        copied = prefix_more s t (suc n) rest.size m _ apart (ground (arith, char)) le rest.copied;
        ends = ap (safe_loop (s + 1) (t + 1) n (update m s (m t))) (omega arith) ∙ rest.ends;
      }
]

-- `safestrcpy` with a positive count, between buffers that share no byte, copies the string, but at
-- most one character less than the count, ends it with a NUL inside the buffer, and changes no
-- byte outside.
pub safestrcpy-Ended :
    (s t n : ℕ) (m : Memory) → Apart s t (suc n) → Ended s t (suc n) m (safestrcpy s t (suc n) m)
unfolding safestrcpy
safestrcpy-Ended s t n m apart = safe_loop-Ended s t n m apart
