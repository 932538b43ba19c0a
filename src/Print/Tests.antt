-- ===== src/Print/Tests.antt =====
-- kernel/printf.c and user/printf.c: their theorems at numbers of 6 and of 17 digits.
use os_prioritypipes.Prelude.{◌≡◌, true, arith}
use os_prioritypipes.Prelude.Int.{pos}
use os_prioritypipes.Prelude.Results.{Returns}
use os_prioritypipes.Print.{printint, atoi}
use os_prioritypipes.Print.Decimal.{atoi-printint}

atoi-printint_example : Returns (λ s. atoi s ≡ 907160) (printint (pos 907160) 10 true)
atoi-printint_example = atoi-printint 907160 (omega arith)
