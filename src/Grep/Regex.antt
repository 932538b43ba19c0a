-- ===== src/Grep/Regex.antt =====
-- user/grep.c: the regular expressions that a pattern stands for, and what they match.
use os_prioritypipes.Prelude.{
  ℕ, ◌≡◌, Bool, true, false, ◌||◌, List, [], ◌∷◌, ◌++◌, ◌==◌, if◌then◌else◌,
}

-- `c`, `c*` and a `$` at the end
pub data Item : Type 0 where
  one : ℕ → Item
  many : ℕ → Item
  at_end : Item

-- `.` is any character.
abbrev pub Fits : ℕ → ℕ → Type 0
Fits c t = ((c == b'.') || (c == t)) ≡ true

-- The items match a text that begins with a word of theirs.
pub data Matches : List Item → List ℕ → Type 0 where
  done : (text : List ℕ) → Matches [] text
  here :
      {c t : ℕ} {items : List Item} {text : List ℕ}
      → Fits c t
      → Matches items text
      → Matches (one c ∷ items) (t ∷ text)
  none_of :
      {c : ℕ} {items : List Item} {text : List ℕ}
      → Matches items text
      → Matches (many c ∷ items) text
  one_more :
      {c t : ℕ} {items : List Item} {text : List ℕ}
      → Fits c t
      → Matches (many c ∷ items) text
      → Matches (many c ∷ items) (t ∷ text)
  end_of_text : Matches (at_end ∷ []) []

-- how the pattern is read: a character before a `*` is repeated
abbrev pub parse : List ℕ → List Item
parse [] = []
parse (c ∷ []) = if c == b'$' then at_end ∷ [] else one c ∷ []
parse (c ∷ d ∷ re) =
    let repeated = many c ∷ parse re in
    let single = one c ∷ parse (d ∷ re) in if d == b'*' then repeated else single

abbrev pub has_caret : List ℕ → Bool
has_caret [] = false
has_caret (c ∷ re) = c == b'^'

-- A pattern that begins with `^` matches at the beginning of the text, another anywhere.
pub data Occurs : List ℕ → List ℕ → Type 0 where
  anchored : {re text : List ℕ} → Matches (parse re) text → Occurs (b'^' ∷ re) text
  anywhere :
      {re : List ℕ} (before after : List ℕ)
      → has_caret re ≡ false
      → Matches (parse re) after
      → Occurs re (before ++ after)
