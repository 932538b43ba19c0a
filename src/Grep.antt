-- ===== src/Grep.antt =====
-- user/grep.c: the matcher. A string is the list of its characters, without the null at its end.
use os_prioritypipes.Prelude.{
  ℕ, Bool, true, false, ◌&&◌, ◌||◌, not, List, [], ◌∷◌, ◌==◌, if◌then◌else◌,
}
pub mod Regex
pub mod Equivalence
mod Tests

-- `matchstar` at the character `c`, with `matchhere` of the pattern that follows
abbrev pub matchstar : ℕ → (List ℕ → Bool) → List ℕ → Bool
matchstar c here [] = here []
matchstar c here (t ∷ text) =
    let more = matchstar c here text in
    if here (t ∷ text) then true else if (t == c) || (c == b'.') then more else false

-- the last tests of `matchhere` at a pattern that begins with `c`, whose rest is matched by `next`
abbrev pub match_one : ℕ → (List ℕ → Bool) → List ℕ → Bool
match_one c next [] = false
match_one c next (t ∷ text) = if (c == b'.') || (c == t) then next text else false

abbrev pub is_end : List ℕ → Bool
is_end [] = true
is_end (t ∷ text) = false

unfoldable pub matchhere : List ℕ → List ℕ → Bool
matchhere [] text = true
matchhere (c ∷ []) text = if c == b'$' then is_end text else match_one c (matchhere []) text
matchhere (c ∷ d ∷ re) text =
    let starred = matchstar c (matchhere re) text in
    let plain = match_one c (matchhere (d ∷ re)) text in if d == b'*' then starred else plain

-- the loop of `match`
abbrev pub match_from : (List ℕ → Bool) → List ℕ → Bool
match_from here [] = here []
match_from here (t ∷ text) =
    let later = match_from here text in if here (t ∷ text) then true else later

unfoldable pub match : List ℕ → List ℕ → Bool
match [] text = match_from (matchhere []) text
match (c ∷ re) text = if c == b'^' then matchhere re text else match_from (matchhere (c ∷ re)) text
