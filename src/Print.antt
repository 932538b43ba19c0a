-- ===== src/Print.antt =====
-- kernel/printf.c and user/printf.c: `printint`, and `atoi` of user/ulib.c, which reads back what it
-- prints. `buf` has 16 places, and a write after them is a panic here; what is in `buf` is a list
-- with the last character written first, which is the order in which it is printed.
use os_prioritypipes.Prelude.{
  ℕ, zero, suc, ◌+◌, ◌-◌, ◌*◌, ◌/◌, ◌%◌, ◌^◌, Bool, true, false, ◌&&◌, not, List, [], ◌∷◌, length,
  ltb, leb, ◌==◌, if◌then◌else◌,
}
use os_prioritypipes.Prelude.Int.{ℤ, pos, negsuc}
use os_prioritypipes.Prelude.Results.{Result, ok, panic, ◌>>=◌, ◌>>◌, panic_if}
pub mod Decimal
mod Tests

-- `digits[d]`, below 16
abbrev pub digit : ℕ → ℕ
digit d = if ltb d 10 then b'0' + d else b'A' + (d - 10)

-- `buf[i++] = c`
abbrev pub put : ℕ → List ℕ → Result (List ℕ)
put c buf = if ltb (length buf) 16 then ok (c ∷ buf) else panic

-- the loop over the digits, at most so many rounds
unfoldable pub put_digits : ℕ → ℕ → ℕ → List ℕ → Result (List ℕ)
put_digits zero base x buf = panic
put_digits (suc rounds) base x buf = put (digit (x % base)) buf >>= λ buf1.
    let rest = put_digits rounds base (x / base) buf1 in if x / base == 0 then ok buf1 else rest

-- `printint` of user/printf.c, for an `int`; without the sign, the argument is read as a `uint`
unfoldable pub printint : ℤ → ℕ → Bool → Result (List ℕ)
printint (pos x) base sgn = put_digits 32 base x []
printint (negsuc n) base true = put_digits 32 base (n + 1) [] >>= λ buf. put b'-' buf
printint (negsuc n) base false = put_digits 32 base (2 ^ 32 - (n + 1)) []

-- `printint` of kernel/printf.c, for a `long long`; the digits of the kernel are in lower case, which
-- is no difference below the base 11
unfoldable pub kernel_printint : ℤ → Bool → Result (List ℕ)
kernel_printint (pos x) sign = put_digits 64 10 x []
kernel_printint (negsuc n) true = put_digits 64 10 (n + 1) [] >>= λ buf. put b'-' buf
kernel_printint (negsuc n) false = put_digits 64 10 (2 ^ 64 - (n + 1)) []

-- The loop of `atoi` from the sum `n`. The `int` of the source may pass 2^31 before the character '0' is
-- taken off, for results from 2147483600 on, and wraps back then; the numbers here do not.
abbrev pub atoi_from : ℕ → List ℕ → ℕ
atoi_from n [] = n
atoi_from n (c ∷ s) =
    let rest = atoi_from (n * 10 + c - b'0') s in if leb b'0' c && leb c b'9' then rest else n

abbrev pub atoi : List ℕ → ℕ
atoi s = atoi_from 0 s
