-- ===== src/Print/Decimal.antt =====
-- kernel/printf.c and user/printf.c: decimal numbers.
use os_prioritypipes.Prelude.{
  ℕ, zero, suc, ◌+◌, ◌*◌, ◌/◌, ◌%◌, ◌^◌, ◌≤◌, ◌<◌, ◌≡◌, refl, ap, ◌∙◌, inl, inr, Bool, true, false,
  List, [], ◌∷◌, length, ltb, leb, ◌==◌, Bool-cases, arith,
}
use os_prioritypipes.Prelude.Int.{pos}
use os_prioritypipes.Prelude.Results.{panic, Returns, returns, mono}
use os_prioritypipes.Print.{digit, put_digits, printint, kernel_printint, atoi_from, atoi}

abbrev pow10 : ℕ → ℕ
pow10 zero = 1
pow10 (suc k) = 10 * pow10 k

pow10_positive : (k : ℕ) → 1 ≤ pow10 k
pow10_positive zero = omega arith
pow10_positive (suc k) = omega (arith, pow10_positive k)

atoi_digit : (n d : ℕ) (s : List ℕ) → d < 10 → atoi_from n (digit d ∷ s) ≡ atoi_from (n * 10 + d) s
atoi_digit n d s lt =
    let small : ltb d 10 ≡ true = ground (arith, lt) in
    let low : leb b'0' (b'0' + d) ≡ true = ground arith in
    let high : leb (b'0' + d) b'9' ≡ true = ground (arith, lt) in
    rw (small, low, high) (ap (λ m. atoi_from m s) (omega arith))

-- Where the places of `buf` are enough, the loop ends, and `atoi` reads the number, and goes on with
-- what was in `buf`.
put_digits_lem :
    (rounds k x : ℕ) (buf : List ℕ)
    → x < 10 * pow10 k
    → k < rounds
    → length buf + suc k ≤ 16
    → Returns (λ s. atoi_from 0 s ≡ atoi_from x buf) (put_digits rounds 10 x buf)
unfolding put_digits
put_digits_lem zero k x buf fits lt room = absurd (omega (arith, lt))
put_digits_lem (suc rounds) zero x buf fits lt room =
    let space : ltb (length buf) 16 ≡ true = ground (arith, room) in
    let last : (x / 10 == 0) ≡ true = ground (arith, fits) in
    let same : 0 * 10 + x % 10 ≡ x = omega (arith, fits) in
    rw (space, last)
      (returns (atoi_digit 0 (x % 10) buf (omega arith) ∙ ap (λ m. atoi_from m buf) same))
put_digits_lem (suc rounds) (suc k) x buf fits lt room =
    let space : ltb (length buf) 16 ≡ true = ground (arith, room) in
    elim (Bool-cases (x / 10 == 0)) [
      | inl last ↦
          let same : 0 * 10 + x % 10 ≡ x = ground (arith, last) in
          rw (space, last)
            (returns (atoi_digit 0 (x % 10) buf (omega arith) ∙ ap (λ m. atoi_from m buf) same))
      | inr more ↦
          let whole : x / 10 * 10 + x % 10 ≡ x = omega arith in
          rw (space, more)
            (mono
              (put_digits_lem rounds k (x / 10) (digit (x % 10) ∷ buf) (omega (arith, fits))
                (omega (arith, lt)) (omega (arith, room)))
              (λ s e.
                e
                ∙ atoi_digit (x / 10) (x % 10) buf (omega arith)
                ∙ ap (λ m. atoi_from m buf) whole))
    ]

-- `printint` of an `int` that is not negative, with the base 10, stays within its buffer, and `atoi`
-- reads back the number from what it prints.
pub atoi-printint : (x : ℕ) → x < 2 ^ 31 → Returns (λ s. atoi s ≡ x) (printint (pos x) 10 true)
unfolding printint
atoi-printint x fits = put_digits_lem 32 9 x [] (omega (arith, fits)) (omega arith) (omega arith)

-- A number with more digits than `buf` has places left
put_digits_overruns :
    (k rounds x : ℕ) (buf : List ℕ)
    → pow10 k ≤ x
    → length buf + k ≡ 16
    → k < rounds
    → put_digits rounds 10 x buf ≡ panic
unfolding put_digits
put_digits_overruns k zero x buf big room lt = absurd (omega (arith, lt))
put_digits_overruns zero (suc rounds) x buf big room lt =
    let full : ltb (length buf) 16 ≡ false = ground (arith, room) in rw full refl
put_digits_overruns (suc k) (suc rounds) x buf big room lt =
    let space : ltb (length buf) 16 ≡ true = ground (arith, room) in
    let positive : 1 ≤ pow10 k = pow10_positive k in
    let more : (x / 10 == 0) ≡ false = ground (arith, big, positive) in
    rw (space, more)
      (put_digits_overruns k rounds (x / 10) (digit (x % 10) ∷ buf) (omega (arith, big))
        (omega (arith, room)) (omega (arith, lt)))

-- `printint` of kernel/printf.c writes past the 16 places of its buffer for every number of 17 digits
-- or more that it is given to print without a sign.
pub kernel_printint_overruns :
    (x : ℕ) (sign : Bool) → 10 ^ 16 ≤ x → kernel_printint (pos x) sign ≡ panic
unfolding kernel_printint
kernel_printint_overruns x sign big =
    put_digits_overruns 16 64 x [] (omega (arith, big)) refl (omega arith)
