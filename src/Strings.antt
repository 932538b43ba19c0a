-- ===== src/Strings.antt =====
-- kernel/string.c: the routines on byte memories and on strings that end in a NUL. A memory is a
-- function from addresses to bytes, from 0 to 255, and a buffer does not wrap around the end of
-- the address space. A count that is an `int` and negative acts like 0.
use os_prioritypipes.Prelude.{
  ℕ, zero, suc, ◌+◌, ◌%◌, Bool, true, false, ◌&&◌, ◌||◌, not, Option, none, some, ltb, ◌==◌,
  if◌then◌else◌,
}
use os_prioritypipes.Prelude.Int.{ℤ, pos, ◌-ℤ◌}
use os_prioritypipes.Prelude.Maps.{update}
pub mod Moving
pub mod Copying
pub mod Comparing
mod Tests

abbrev pub Memory : Type 0
Memory = ℕ → ℕ

unfoldable pub memset : ℕ → ℕ → ℕ → Memory → Memory
memset dst c zero m = m
memset dst c (suc n) m = memset (dst + 1) c n (update m dst (c % 256))

-- `while(n-- > 0) *d++ = *s++;`
unfoldable pub copy_up : ℕ → ℕ → ℕ → Memory → Memory
copy_up d s zero m = m
copy_up d s (suc n) m = copy_up (d + 1) (s + 1) n (update m d (m s))

-- `while(n-- > 0) *--d = *--s;` from `d + n` and `s + n`
unfoldable pub copy_down : ℕ → ℕ → ℕ → Memory → Memory
copy_down d s zero m = m
copy_down d s (suc n) m = copy_down d s n (update m (d + n) (m (s + n)))

unfoldable pub memmove : ℕ → ℕ → ℕ → Memory → Memory
unfolding copy_up copy_down
memmove dst src n m =
    if n == 0
    then m
    else if ltb src dst && ltb dst (src + n)
    then copy_down dst src n m
    else copy_up dst src n m

unfoldable pub memcmp : ℕ → ℕ → ℕ → Memory → ℤ
memcmp v1 v2 zero m = pos 0
memcmp v1 v2 (suc n) m =
    let rest = memcmp (v1 + 1) (v2 + 1) n m in
    if m v1 == m v2 then rest else pos (m v1) -ℤ pos (m v2)

unfoldable pub strncmp : ℕ → ℕ → ℕ → Memory → ℤ
strncmp p q zero m = pos 0
strncmp p q (suc n) m =
    let rest = strncmp (p + 1) (q + 1) n m in
    if not (m p == 0) && (m p == m q) then rest else pos (m p) -ℤ pos (m q)

-- `while(n-- > 0) *s++ = 0;`
unfoldable pub pad : ℕ → ℕ → Memory → Memory
pad s zero m = m
pad s (suc n) m = pad (s + 1) n (update m s 0)

unfoldable pub strncpy : ℕ → ℕ → ℕ → Memory → Memory
strncpy s t zero m = m
strncpy s t (suc n) m =
    let m1 = update m s (m t) in
    let rest = strncpy (s + 1) (t + 1) n m1 in if m t == 0 then pad (s + 1) n m1 else rest

-- `while(--n > 0 && (*s++ = *t++) != 0);` and `*s = 0;`, with `n` less its first decrement
unfoldable pub safe_loop : ℕ → ℕ → ℕ → Memory → Memory
safe_loop s t zero m = update m s 0
safe_loop s t (suc n) m =
    let m1 = update m s (m t) in
    let rest = safe_loop (s + 1) (t + 1) n m1 in if m t == 0 then update m1 (s + 1) 0 else rest

unfoldable pub safestrcpy : ℕ → ℕ → ℕ → Memory → Memory
safestrcpy s t zero m = m
safestrcpy s t (suc n) m = safe_loop s t n m

-- `strlen`, on fuel: none if no NUL is found with it.
unfoldable pub strlen : ℕ → ℕ → ℕ → Memory → Option ℕ
strlen zero s n m = none
strlen (suc k) s n m = let rest = strlen k s (n + 1) m in if m (s + n) == 0 then some n else rest
