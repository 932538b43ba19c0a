-- ===== src/Grep/Tests.antt =====
-- user/grep.c: its theorem at the pattern `^ab*c$`.
use os_prioritypipes.Prelude.{◌≡◌, ◌↔◌, true, [], ◌∷◌}
use os_prioritypipes.Grep.{match}
use os_prioritypipes.Grep.Regex.{Occurs}
use os_prioritypipes.Grep.Equivalence.{match-Occurs}

match-Occurs_example :
    (match (b'^' ∷ b'a' ∷ b'b' ∷ b'*' ∷ b'c' ∷ b'$' ∷ []) (b'a' ∷ b'b' ∷ b'b' ∷ b'c' ∷ []) ≡ true)
    ↔ Occurs (b'^' ∷ b'a' ∷ b'b' ∷ b'*' ∷ b'c' ∷ b'$' ∷ []) (b'a' ∷ b'b' ∷ b'b' ∷ b'c' ∷ [])
match-Occurs_example =
    match-Occurs (b'^' ∷ b'a' ∷ b'b' ∷ b'*' ∷ b'c' ∷ b'$' ∷ []) (b'a' ∷ b'b' ∷ b'b' ∷ b'c' ∷ [])
