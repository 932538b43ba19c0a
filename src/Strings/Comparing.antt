-- ===== src/Strings/Comparing.antt =====
-- kernel/string.c: `strncmp` and `strlen`.
use os_prioritypipes.Prelude.{
  ℕ, zero, suc, ◌+◌, ◌<◌, ◌≡◌, ◌≢◌, refl, ap, sym, ◌∙◌, ◌↔◌, inl, inr, true, false, ◌&&◌, not, some,
  ◌==◌, Bool-cases, arith,
}
use os_prioritypipes.Prelude.Int.{pos, ◌-ℤ◌}
use os_prioritypipes.Strings.{Memory, strncmp, strlen}

-- The strings at `p` and at `q` agree in their first `n` characters, or end together before.
abbrev pub Same : ℕ → ℕ → ℕ → Memory → Type 0
Same p q n m = (i : ℕ) → i < n → ((j : ℕ) → j < i → m (p + j) ≢ 0) → m (p + i) ≡ m (q + i)

-ℤ_zero : (a b : ℕ) → ((pos a -ℤ pos b) ≡ pos 0) ↔ (a ≡ b)
unfolding ◌-ℤ◌
-ℤ_zero a b = ground arith

at_zero : (p : ℕ) (m : Memory) → m (p + 0) ≡ m p
at_zero p m = ap m (omega arith)

at_suc : (p i : ℕ) (m : Memory) → m (p + suc i) ≡ m (p + 1 + i)
at_suc p i m = ap m (omega arith)

Same-more : (p q n : ℕ) (m : Memory) → m p ≡ m q → Same (p + 1) (q + 1) n m → Same p q (suc n) m
Same-more p q n m e h zero lt chars = at_zero p m ∙ e ∙ sym (at_zero q m)
Same-more p q n m e h (suc i) lt chars =
    at_suc p i m
    ∙ h i (omega arith) (λ j lt' z. chars (suc j) (omega arith) (at_suc p j m ∙ z))
    ∙ sym (at_suc q i m)

Same-head : (p q n : ℕ) (m : Memory) → Same p q (suc n) m → m p ≡ m q
Same-head p q n m h =
    sym (at_zero p m) ∙ h 0 (omega arith) (λ j lt. absurd (omega arith)) ∙ at_zero q m

Same-rest : (p q n : ℕ) (m : Memory) → m p ≢ 0 → Same p q (suc n) m → Same (p + 1) (q + 1) n m
Same-rest p q n m char h i lt chars =
    sym (at_suc p i m) ∙ h (suc i) (omega arith) all ∙ at_suc q i m
  where
    all : (j : ℕ) → j < suc i → m (p + j) ≢ 0
    all zero lt' z = char (sym (at_zero p m) ∙ z)
    all (suc j) lt' z = chars j (omega arith) (sym (at_suc p j m) ∙ z)

Same-end : (p q n : ℕ) (m : Memory) → m p ≡ 0 → m p ≡ m q → Same p q (suc n) m
Same-end p q n m end e zero lt chars = at_zero p m ∙ e ∙ sym (at_zero q m)
Same-end p q n m end e (suc i) lt chars = absurd (chars 0 (omega arith) (at_zero p m ∙ end))

goes_on : (a b : ℕ) → (not (a == 0) && (a == b)) ≡ true → (a ≢ 0) × (a ≡ b)
goes_on a b h = ground arith

stops_equal : (a b : ℕ) → (not (a == 0) && (a == b)) ≡ false → a ≡ b → a ≡ 0
stops_equal a b h e = ground arith

-- `strncmp` is 0 exactly if the strings are the same up to `n` characters.
pub strncmp-Same : (p q n : ℕ) (m : Memory) → (strncmp p q n m ≡ pos 0) ↔ Same p q n m
unfolding strncmp
strncmp-Same p q zero m = (λ e i lt h. absurd (omega arith), λ h. refl)
strncmp-Same p q (suc n) m = elim (Bool-cases (not (m p == 0) && (m p == m q))) [
  | inl both ↦
      let on = goes_on (m p) (m q) both in
      let rest = strncmp-Same (p + 1) (q + 1) n m in
      rw both (λ e. Same-more p q n m on.1 (rest.0 e), λ h. rest.1 (Same-rest p q n m on.0 h))
  | inr stop ↦
      let none_left = -ℤ_zero (m p) (m q) in
      rw stop (
        λ e. Same-end p q n m (stops_equal (m p) (m q) stop (none_left.0 e)) (none_left.0 e),
        λ h. none_left.1 (Same-head p q n m h),
      )
]

-- `strlen` finds the first NUL, and no fuel beyond one round for each character and one for the
-- NUL is needed.
pub strlen_lem :
    (k s n l : ℕ) (m : Memory)
    → ((i : ℕ) → i < l → m (s + (n + i)) ≢ 0)
    → m (s + (n + l)) ≡ 0
    → l < k
    → strlen k s n m ≡ some (n + l)
unfolding strlen
strlen_lem zero s n l m chars end lt = absurd (omega arith)
strlen_lem (suc k) s n zero m chars end lt =
    let here : m (s + n) ≡ 0 = ap m (omega arith) ∙ end in rw (here) (ap some (omega arith))
strlen_lem (suc k) s n (suc l) m chars end lt =
    let here : (m (s + n) == 0) ≡ false = first (chars 0 (omega arith)) in
    let rest : strlen k s (n + 1) m ≡ some (n + 1 + l) =
      strlen_lem k s (n + 1) l m (λ i lt' z. chars (suc i) (omega arith) (ap m (omega arith) ∙ z))
        (ap m (omega arith) ∙ end) (omega arith) in
    rw here (rest ∙ ap some (omega arith))
  where
    first : m (s + (n + 0)) ≢ 0 → (m (s + n) == 0) ≡ false
    first h = let char : m (s + n) ≢ 0 = λ z. h (ap m (omega arith) ∙ z) in ground (arith, char)
