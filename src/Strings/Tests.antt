-- ===== src/Strings/Tests.antt =====
-- Runs of kernel/string.c, and its theorems at concrete inputs.
use os_prioritypipes.Prelude.{◌≡◌, refl, ◌↔◌, [], ◌∷◌, arith, get_or}
use os_prioritypipes.Prelude.Int.{pos}
use os_prioritypipes.Strings.{Memory, memmove, strncmp}
use os_prioritypipes.Strings.Moving.{Moved, memmove-Moved}

-- "init" at 0, "in" at 10, and spaces elsewhere
abbrev text : Memory
text a = get_or (b'i' ∷ b'n' ∷ b'i' ∷ b't' ∷ 0 ∷ 32 ∷ 32 ∷ 32 ∷ 32 ∷ 32 ∷ b'i' ∷ b'n' ∷ 0 ∷ []) a 32

memmove-Moved_example : Moved 2 0 4 text (memmove 2 0 4 text)
memmove-Moved_example = memmove-Moved 2 0 4 text

strncmp_run : (strncmp 0 10 2 text ≡ pos 0) × (strncmp 0 10 3 text ≡ pos b'i')
unfolding strncmp os_prioritypipes.Prelude.Int.◌-ℤ◌
strncmp_run = (refl, refl)
