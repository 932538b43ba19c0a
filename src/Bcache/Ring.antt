-- ===== src/Bcache/Ring.antt =====
-- kernel/bio.c: the list of buffers, linked in both directions through its head.
use os_prioritypipes.Prelude.{ℕ, ◌≡◌, List, [], ◌∷◌, ◌++◌, arith, ◌==◌, if◌then◌else◌}
use os_prioritypipes.Prelude.Sets.{◌∈◌, ◌∉◌, Distinct, has-append, ne_of_not-mem}
use os_prioritypipes.Prelude.Maps.{update}
use os_prioritypipes.Bcache.{Links, link_first, unlink}

-- From `p` the links lead through `xs` to `q`, and back.
abbrev pub Segment : (ℕ → ℕ) → (ℕ → ℕ) → ℕ → List ℕ → ℕ → Type 0
Segment next prev p [] q = (next p ≡ q) × (prev q ≡ p)
Segment next prev p (x ∷ xs) q = (next p ≡ x) × (prev x ≡ p) × Segment next prev x xs q

-- The buffers `xs`, from the most to the least recently used.
pub record Ring (l : Links) (xs : List ℕ) : Type 0 where
  pub linked : Segment l.next l.prev 0 xs 0
  pub distinct : Distinct (0 ∷ xs)

-- Links that start and end elsewhere can change.
Segment-update :
    (next prev : ℕ → ℕ) (p : ℕ) (xs : List ℕ) (q k v j w : ℕ)
    → Segment next prev p xs q
    → k ∉ p ∷ xs
    → j ∉ q ∷ xs
    → Segment (update next k v) (update prev j w) p xs q
Segment-update next prev p [] q k v j w s a b = ground arith
Segment-update next prev p (x ∷ xs) q k v j w s a b =
    ground (arith, Segment-update next prev x xs q k v j w s.2)

pub link_first-Ring :
    (b : ℕ) (l : Links) (xs : List ℕ) → b ∉ 0 ∷ xs → Ring l xs → Ring (link_first b l) (b ∷ xs)
unfolding link_first
link_first-Ring b l [] fresh r = record {
  linked = ground (arith, r.linked);
  distinct = ground (arith, r.distinct);
}
link_first-Ring b l (x ∷ xs) fresh r =
    let n1 = update l.next b (l.next 0) in
    let p1 = update l.prev b 0 in
    let second : Segment n1 p1 x xs 0 =
      Segment-update l.next l.prev x xs 0 b (l.next 0) b 0 r.linked.2 fresh_rest (ground arith) in
    let third : Segment (update n1 0 b) (update p1 (n1 0) b) x xs 0 =
      Segment-update n1 p1 x xs 0 0 b (n1 0) b second r.distinct.0
        (ground (arith, r.distinct, r.linked.0)) in
    record {
      linked =
          (ground arith, ground arith, (ground (arith, r.linked), ground (arith, r.linked), third));
      distinct = ground (arith, r.distinct);
    }
  where
    fresh_rest : b ∉ x ∷ xs
    fresh_rest = ground arith

-- The last buffer before `b` is one of those before it, or `p`.
before_mem :
    (next prev : ℕ → ℕ) (p : ℕ) (xs : List ℕ) (b : ℕ) → Segment next prev p xs b → prev b ∈ p ∷ xs
before_mem next prev p [] b s = ground arith
before_mem next prev p (x ∷ xs) b s = ground (arith, before_mem next prev x xs b s.2)

after_mem :
    (next prev : ℕ → ℕ) (b : ℕ) (ys : List ℕ) (q : ℕ) → Segment next prev b ys q → next b ∈ q ∷ ys
after_mem next prev b [] q s = ground arith
after_mem next prev b (y ∷ ys) q s = ground arith

-- `b` is taken out from between `xs` and `ys`.
unlink-Segment :
    (next prev : ℕ → ℕ) (p : ℕ) (xs ys : List ℕ) (b q : ℕ)
    → Segment next prev p xs b
    → Segment next prev b ys q
    → Distinct (p ∷ xs ++ b ∷ ys)
    → Distinct (q ∷ xs ++ b ∷ ys)
    → Segment (update next (prev b) (next b)) (update prev (next b) (prev b)) p (xs ++ ys) q
unlink-Segment next prev p [] [] b q s t d e = ground arith
unlink-Segment next prev p [] (y ∷ ys) b q s t d e =
    let rest : Segment (update next p (next b)) (update prev (next b) p) y ys q =
      Segment-update next prev y ys q p (next b) (next b) p t.2 (ground arith) (ground arith) in
    ground (arith, rest)
unlink-Segment next prev p (x ∷ xs) ys b q s t d e =
    let rest = unlink-Segment next prev x xs ys b q s.2 t d.1 (ground arith) in
    let behind = before_mem next prev x xs b s.2 in
    let ahead = after_mem next prev b ys q t in
    ground (
      arith,
      rest,
      has-append p xs (b ∷ ys),
      has-append x xs (b ∷ ys),
      ne_of_not-mem (prev b) p (x ∷ xs) behind,
      ne_of_not-mem (next b) x (q ∷ ys) ahead,
    )

split_at :
    (next prev : ℕ → ℕ) (p : ℕ) (xs ys : List ℕ) (b q : ℕ)
    → Segment next prev p (xs ++ b ∷ ys) q
    → Segment next prev p xs b × Segment next prev b ys q
split_at next prev p [] ys b q s = ((s.0, s.1), s.2)
split_at next prev p (x ∷ xs) ys b q s =
    let r = split_at next prev x xs ys b q s.2 in ((s.0, s.1, r.0), r.1)

Distinct-skip : (xs : List ℕ) (b : ℕ) (ys : List ℕ) → Distinct (xs ++ b ∷ ys) → Distinct (xs ++ ys)
Distinct-skip [] b ys d = d.1
Distinct-skip (x ∷ xs) b ys d =
    ground (arith, Distinct-skip xs b ys d.1, has-append x xs (b ∷ ys), has-append x xs ys)

pub Distinct-fresh : (xs : List ℕ) (b : ℕ) (ys : List ℕ) → Distinct (xs ++ b ∷ ys) → b ∉ xs ++ ys
Distinct-fresh [] b ys d = d.0
Distinct-fresh (x ∷ xs) b ys d =
    ground (arith, Distinct-fresh xs b ys d.1, has-append x xs (b ∷ ys))

pub unlink-Ring :
    (b : ℕ) (l : Links) (xs ys : List ℕ) → Ring l (xs ++ b ∷ ys) → Ring (unlink b l) (xs ++ ys)
unfolding unlink
unlink-Ring b l xs ys r =
    let parts = split_at l.next l.prev 0 xs ys b 0 r.linked in
    let linked = unlink-Segment l.next l.prev 0 xs ys b 0 parts.0 parts.1 r.distinct r.distinct in
    record { linked = rw (same b) linked; distinct = Distinct-skip (0 ∷ xs) b ys r.distinct }
  where
    same : (b : ℕ) → (if b == l.next b then l.prev b else l.prev b) ≡ l.prev b
    same b = ground arith
