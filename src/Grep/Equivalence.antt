-- ===== src/Grep/Equivalence.antt =====
-- user/grep.c: `match` decides what a pattern stands for.
use os_prioritypipes.Prelude.{
  ℕ, ◌≡◌, ◌↔◌, refl, sym, ap, subst, ◌∙◌, inl, inr, Bool, true, false, ◌||◌, List, [], ◌∷◌, ◌++◌,
  ◌==◌, Bool-cases, arith,
}
use os_prioritypipes.Grep.{matchstar, match_one, is_end, matchhere, match_from, match}
use os_prioritypipes.Grep.Regex.{
  Item, one, many, at_end, Fits, Matches, done, here, none_of, one_more, end_of_text, parse,
  has_caret, Occurs, anchored, anywhere,
}

-- A test of texts decides what the items match.
abbrev Decides : (List ℕ → Bool) → List Item → Type 0
Decides test items = (text : List ℕ) → (test text ≡ true) ↔ Matches items text

many_fits : (c t : ℕ) → ((t == c) || (c == b'.')) ≡ ((c == b'.') || (c == t))
many_fits c t = ground arith

-- what `many` begins with
data Star (c : ℕ) (items : List Item) : List ℕ → Type 0 where
  stop : {text : List ℕ} → Matches items text → Star c items text
  go_on :
      {t : ℕ} {text : List ℕ} → Fits c t → Matches (many c ∷ items) text → Star c items (t ∷ text)

split_many :
    {c : ℕ} {items : List Item} {text : List ℕ} → Matches (many c ∷ items) text → Star c items text
split_many (none_of m) = stop m
split_many (one_more f m) = go_on f m

star_sound :
    (c : ℕ) (test : List ℕ → Bool) (items : List Item)
    → Decides test items
    → (text : List ℕ) → matchstar c test text ≡ true
    → Matches (many c ∷ items) text
star_sound c test items d [] e = none_of ((d []).0 e)
star_sound c test items d (t ∷ text) e = elim (Bool-cases (test (t ∷ text))) [
  | inl now ↦ none_of ((d (t ∷ text)).0 now)
  | inr not_now ↦
      let fits : Fits c t = ground (arith, e, not_now) in
      let more : matchstar c test text ≡ true = ground (arith, e, not_now) in
      one_more fits (star_sound c test items d text more)
]

star_complete :
    (c : ℕ) (test : List ℕ → Bool) (items : List Item)
    → Decides test items
    → (text : List ℕ) → Matches (many c ∷ items) text
    → matchstar c test text ≡ true
star_complete c test items d [] m = of_star (split_many m)
  where
    of_star : Star c items [] → test [] ≡ true
    of_star (stop m') = (d []).1 m'
star_complete c test items d (t ∷ text) m =
    of_star (λ m'. star_complete c test items d text m') (split_many m)
  where
    of_star :
        (Matches (many c ∷ items) text → matchstar c test text ≡ true)
        → Star c items (t ∷ text)
        → matchstar c test (t ∷ text) ≡ true
    of_star again (stop m') = ground (arith, (d (t ∷ text)).1 m')
    of_star again (go_on f m') = ground (arith, f, again m')

one-Decides :
    (c : ℕ) (next : List ℕ → Bool) (items : List Item)
    → Decides next items
    → Decides (match_one c next) (one c ∷ items)
one-Decides c next items d [] = (λ e. absurd (ground (arith, e)), λ m. no_text m)
  where
    no_text : Matches (one c ∷ items) [] → match_one c next [] ≡ true
    no_text m = elim m [ ]
one-Decides c next items d (t ∷ text) =
    (λ e. here (ground (arith, e)) ((d text).0 (ground (arith, e))), λ m. complete m)
  where
    complete : Matches (one c ∷ items) (t ∷ text) → match_one c next (t ∷ text) ≡ true
    complete (here f m) = ground (arith, f, (d text).1 m)

end-Decides : Decides is_end (at_end ∷ [])
end-Decides [] = (λ e. end_of_text, λ m. refl)
end-Decides (t ∷ text) = (λ e. absurd (ground (arith, e)), λ m. no_end m)
  where
    no_end : Matches (at_end ∷ []) (t ∷ text) → is_end (t ∷ text) ≡ true
    no_end m = elim m [ ]

-- `matchhere` decides whether the items of the pattern match the text.
matchhere-Decides : (re : List ℕ) → Decides (matchhere re) (parse re)
unfolding matchhere
matchhere-Decides [] text = (λ e. done text, λ m. refl)
matchhere-Decides (c ∷ []) text = elim (Bool-cases (c == b'$')) [
  | inl dollar ↦ rw (matchhere, dollar) (end-Decides text)
  | inr other ↦ rw (matchhere, other) (one-Decides c (matchhere []) [] (matchhere-Decides []) text)
]
matchhere-Decides (c ∷ d ∷ re) text =
    let rest = matchhere-Decides re in
    let next = matchhere-Decides (d ∷ re) in
    elim (Bool-cases (d == b'*')) [
      | inl star ↦
          rw (matchhere, star)
            (
              star_sound c (matchhere re) (parse re) rest text,
              star_complete c (matchhere re) (parse re) rest text,
            )
      | inr plain ↦
          rw (matchhere, plain) (one-Decides c (matchhere (d ∷ re)) (parse (d ∷ re)) next text)
    ]

from_sound :
    (re : List ℕ) (text : List ℕ)
    → match_from (matchhere re) text ≡ true
    → (before : List ℕ) × (after : List ℕ) × (text ≡ before ++ after) × Matches (parse re) after
from_sound re [] e = ([], [], refl, (matchhere-Decides re []).0 e)
from_sound re (t ∷ text) e = elim (Bool-cases (matchhere re (t ∷ text))) [
  | inl now ↦ ([], (t ∷ text), refl, (matchhere-Decides re (t ∷ text)).0 now)
  | inr not_now ↦
      let (before, after, split, m) = from_sound re text (ground (arith, e, not_now)) in
      (t ∷ before, after, ap (λ xs. t ∷ xs) split, m)
]

from_complete :
    (re before after : List ℕ)
    → Matches (parse re) after
    → match_from (matchhere re) (before ++ after) ≡ true
from_complete re [] [] m = (matchhere-Decides re []).1 m
from_complete re [] (t ∷ after) m = ground (arith, (matchhere-Decides re (t ∷ after)).1 m)
from_complete re (t ∷ before) after m = ground (arith, from_complete re before after m)

match_plain :
    (re text : List ℕ) → has_caret re ≡ false → match re text ≡ match_from (matchhere re) text
unfolding match
match_plain [] text e = refl
match_plain (c ∷ re) text e = rw e refl

-- `match` decides whether the regular expression that the pattern stands for occurs in the text: at
-- its beginning after a `^`, else anywhere.
pub match-Occurs : (re text : List ℕ) → (match re text ≡ true) ↔ Occurs re text
unfolding match
match-Occurs re text = (sound re, λ o. complete o)
  where
    plain_sound : (re : List ℕ) → has_caret re ≡ false → match re text ≡ true → Occurs re text
    plain_sound re no_caret e =
        let (before, after, split, m) =
          from_sound re text (sym (match_plain re text no_caret) ∙ e) in
        subst (λ xs. Occurs re xs) (sym split) (anywhere before after no_caret m)

    sound : (re : List ℕ) → match re text ≡ true → Occurs re text
    sound [] e = plain_sound [] refl e
    sound (c ∷ re) e = elim (Bool-cases (c == b'^')) [
      | inr other ↦ plain_sound (c ∷ re) other e
      | inl caret ↦
          let same : c ≡ b'^' = ground (arith, caret) in
          let now : matchhere re text ≡ true = ground (arith, e, caret) in
          subst (λ x. Occurs (x ∷ re) text) (sym same)
            (anchored ((matchhere-Decides re text).0 now))
    ]

    complete : {re text : List ℕ} → Occurs re text → match re text ≡ true
    complete (anchored {re} {text} m) = (matchhere-Decides re text).1 m
    complete (anywhere {re} before after no_caret m) =
        match_plain re (before ++ after) no_caret ∙ from_complete re before after m
