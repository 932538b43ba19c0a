-- ===== src/Console/Reading.antt =====
-- kernel/console.c: what `consoleread` takes of the characters handed to the readers.
use os_prioritypipes.Prelude.{
  ℕ, zero, suc, ◌+◌, ◌%◌, ◌≤◌, ◌<◌, ◌≡◌, ◌≢◌, refl, ap, ◌∙◌, inl, inr, Bool, true, false, List, [],
  ◌∷◌, ◌++◌, length, All, ltb, ◌==◌, Bool-cases, arith,
}
use os_prioritypipes.Prelude.Maps.{update}
use os_prioritypipes.Console.{
  input_buf_size, minus, Cons, control, Reader, ReadPass, sleeps, ends, fails, read_line,
}
use os_prioritypipes.Console.Editing.{InWindow}

-- The characters from a place in the ring on.
abbrev pub chars : (ℕ → ℕ) → ℕ → ℕ → List ℕ
chars buf r zero = []
chars buf r (suc k) = buf (r % input_buf_size) ∷ chars buf ((r + 1) % 0x100000000) k

-- The characters that have been handed to the readers.
abbrev pub pending : Cons → List ℕ
pending c = chars c.buf c.r (minus c.w c.r)

abbrev pub store : ℕ → List ℕ → (ℕ → ℕ) → ℕ → ℕ
store a [] m = m
store a (ch ∷ chs) m = store (a + 1) chs (update m a ch)

-- Neither the end of a line nor that of the file.
abbrev pub ArePlain : List ℕ → Type 0
ArePlain = All (λ ch. (ch ≢ b'\n') × (ch ≢ control b'D'))

-- `taken` has been stored, and only the read index has moved.
pub record Moved (count to : ℕ) (m : ℕ → ℕ) (c : Cons) (taken : List ℕ) (r : Reader) : Type 0 where
  pub window : InWindow r.cons
  pub ring : (r.cons.buf ≡ c.buf) × (r.cons.w ≡ c.w) × (r.cons.e ≡ c.e)
  pub left : r.left + length taken ≡ count
  pub dst : r.dst ≡ to + length taken
  pub memory : r.memory ≡ store to taken m

-- What a pass takes: all there is, and the process has been killed or sleeps; as many as were asked for; a
-- line; the rest before an end of file, which stays if something had been read before; or what it could store.
pub data Took (killed : Bool) (writable : ℕ → Bool) (target left dst : ℕ) (m : ℕ → ℕ) (c : Cons)
    : ReadPass → Type 0 where
  waits :
      (taken : List ℕ) (r : Reader)
      → Moved left dst m c taken r
      → ArePlain taken
      → pending c ≡ taken
      → killed ≡ false
      → 0 < r.left
      → Took killed writable target left dst m c (sleeps r)
  gives_up :
      (taken : List ℕ) (r : Reader)
      → Moved left dst m c taken r
      → ArePlain taken
      → pending c ≡ taken
      → killed ≡ true
      → 0 < r.left
      → Took killed writable target left dst m c (fails r)
  all_read :
      (taken : List ℕ) (r : Reader)
      → Moved left dst m c taken r
      → ArePlain taken
      → pending c ≡ taken ++ pending r.cons
      → r.left ≡ 0
      → Took killed writable target left dst m c (ends r)
  line :
      (taken : List ℕ) (r : Reader)
      → Moved left dst m c (taken ++ b'\n' ∷ []) r
      → ArePlain taken
      → pending c ≡ taken ++ b'\n' ∷ pending r.cons
      → Took killed writable target left dst m c (ends r)
  before_end :
      (taken chs : List ℕ) (r : Reader)
      → Moved left dst m c taken r
      → ArePlain taken
      → pending c ≡ taken ++ pending r.cons
      → pending r.cons ≡ control b'D' ∷ chs
      → r.left < target
      → Took killed writable target left dst m c (ends r)
  end_of_file :
      (taken : List ℕ) (r : Reader)
      → Moved left dst m c taken r
      → ArePlain taken
      → pending c ≡ taken ++ control b'D' ∷ pending r.cons
      → target ≤ r.left
      → Took killed writable target left dst m c (ends r)
  unwritable :
      (taken : List ℕ) (ch : ℕ) (r : Reader)
      → Moved left dst m c taken r
      → ArePlain taken
      → pending c ≡ taken ++ ch ∷ pending r.cons
      → writable r.dst ≡ false
      → Took killed writable target left dst m c (ends r)

-- The read index goes on by one character.
abbrev next : Cons → Cons
next c = record c { r = (c.r + 1) % 0x100000000 }

module _ (c : Cons) (h : InWindow c) where
  next-InWindow : (c.r == c.w) ≡ false → InWindow (next c)
  next-InWindow more = record {
    ranges = omega (arith, h.ranges);
    order = ground (arith, more, h.ranges, h.order, h.fits);
    fits = ground (arith, more, h.ranges, h.order, h.fits);
  }

  pending-next : (c.r == c.w) ≡ false → pending c ≡ c.buf (c.r % input_buf_size) ∷ pending (next c)
  pending-next more =
      let count : minus c.w c.r ≡ suc (minus c.w (next c).r) = ground (arith, more, h.ranges) in
      ap (chars c.buf c.r) count

  pending_none : (c.r == c.w) ≡ true → pending c ≡ []
  pending_none same =
      let count : minus c.w c.r ≡ 0 = ground (arith, same, h.ranges) in ap (chars c.buf c.r) count

  -- nothing taken yet
  stays-Moved :
      (left dst : ℕ) (m : ℕ → ℕ)
      → Moved left dst m c [] record { left = left; dst = dst; memory = m; cons = c }
  stays-Moved left dst m = record {
    window = h;
    ring = (refl, refl, refl);
    left = omega arith;
    dst = omega arith;
    memory = refl;
  }

module _ (killed : Bool) (writable : ℕ → Bool) (target k dst : ℕ) (m : ℕ → ℕ) (c : Cons) (ch : ℕ)
    (plain : (ch ≢ b'\n') × (ch ≢ control b'D')) (e : pending c ≡ ch ∷ pending (next c)) where
  onward :
      (taken : List ℕ) (r : Reader)
      → Moved k (dst + 1) (update m dst ch) (next c) taken r
      → Moved (suc k) dst m c (ch ∷ taken) r
  onward taken r s = record {
    window = s.window;
    ring = s.ring;
    left = omega (arith, s.left);
    dst = omega (arith, s.dst);
    memory = s.memory;
  }

  onward-Took :
      (p : ReadPass)
      → Took killed writable target k (dst + 1) (update m dst ch) (next c) p
      → Took killed writable target (suc k) dst m c p
  onward-Took _ (waits taken r s ps q alive pos) =
      waits (ch ∷ taken) r (onward taken r s) (plain, ps) (e ∙ ap (λ t. ch ∷ t) q) alive pos
  onward-Took _ (gives_up taken r s ps q dead pos) =
      gives_up (ch ∷ taken) r (onward taken r s) (plain, ps) (e ∙ ap (λ t. ch ∷ t) q) dead pos
  onward-Took _ (all_read taken r s ps q z) =
      all_read (ch ∷ taken) r (onward taken r s) (plain, ps) (e ∙ ap (λ t. ch ∷ t) q) z
  onward-Took _ (line taken r s ps q) =
      line (ch ∷ taken) r (onward (taken ++ b'\n' ∷ []) r s) (plain, ps) (e ∙ ap (λ t. ch ∷ t) q)
  onward-Took _ (before_end taken chs r s ps q d lt) =
      before_end (ch ∷ taken) chs r (onward taken r s) (plain, ps) (e ∙ ap (λ t. ch ∷ t) q) d lt
  onward-Took _ (end_of_file taken r s ps q le) =
      end_of_file (ch ∷ taken) r (onward taken r s) (plain, ps) (e ∙ ap (λ t. ch ∷ t) q) le
  onward-Took _ (unwritable taken x r s ps q u) =
      unwritable (ch ∷ taken) x r (onward taken r s) (plain, ps) (e ∙ ap (λ t. ch ∷ t) q) u

-- The read index taken back after an end of file.
kept_back : (c : Cons) → InWindow c → record (next c) { r = minus (next c).r 1 } ≡ c
kept_back c h =
    let same : minus (next c).r 1 ≡ c.r = ground (arith, h.ranges) in
    ap (λ (x : ℕ). record c { r = x }) same

-- When the indices are in order and within the ring, a pass of `consoleread`, with `left` characters still to be read of `target`, stores the first characters that
-- have been handed to the readers, in their order, and takes no others off the ring: a line with its end; or,
-- with no end of a line or of the file among them, as many as were asked for, or up to one that cannot be stored,
-- or all there are, when the process then sleeps, or has been killed and -1 is returned; or those before an end
-- of file, which is taken off only if nothing had been read. The indices stay in order.
pub read_line-Took :
    (killed : Bool) (writable : ℕ → Bool) (target left dst : ℕ) (m : ℕ → ℕ) (c : Cons)
    → InWindow c
    → Took killed writable target left dst m c (read_line killed writable target left dst m c)
unfolding read_line
read_line-Took killed writable target zero dst m c h =
    all_read [] record { left = 0; dst = dst; memory = m; cons = c } (stays-Moved c h 0 dst m) tt
      refl refl
read_line-Took killed writable target (suc k) dst m c h = elim (Bool-cases (c.r == c.w)) [
  | inl empty ↦ elim (Bool-cases killed) [
    | inl dead ↦
        rw (empty, dead)
          (gives_up [] record { left = suc k; dst = dst; memory = m; cons = c }
            (stays-Moved c h (suc k) dst m) tt (pending_none c h empty) refl (omega arith))
    | inr alive ↦
        rw (empty, alive)
          (waits [] record { left = suc k; dst = dst; memory = m; cons = c }
            (stays-Moved c h (suc k) dst m) tt (pending_none c h empty) refl (omega arith))
  ]
  | inr more ↦
      let ch = c.buf (c.r % input_buf_size) in
      let e = pending-next c h more in
      let window = next-InWindow c h more in
      let taken : Reader = record { left = suc k; dst = dst; memory = m; cons = next c } in
      let stored : Reader = record {
        left = k;
        dst = dst + 1;
        memory = update m dst ch;
        cons = next c;
      } in
      let passed : Moved (suc k) dst m c [] taken = record {
        window = window;
        ring = (refl, refl, refl);
        left = omega arith;
        dst = omega arith;
        memory = refl;
      } in
      elim (Bool-cases (ch == control b'D')) [
        | inl over ↦ elim (Bool-cases (ltb (suc k) target)) [
          | inl later ↦
              rw (more, over, later, kept_back c h)
                (before_end [] (pending (next c))
                  record { left = suc k; dst = dst; memory = m; cons = c }
                  (stays-Moved c h (suc k) dst m) tt refl
                  (e ∙ ap (λ x. x ∷ pending (next c)) (ground (arith, over)))
                  (ground (arith, later)))
          | inr first ↦
              rw (more, over, first)
                (end_of_file [] taken passed tt
                  (e ∙ ap (λ x. x ∷ pending (next c)) (ground (arith, over)))
                  (ground (arith, first)))
        ]
        | inr char ↦ elim (Bool-cases (writable dst)) [
          | inr fault ↦ rw (more, char, fault) (unwritable [] ch taken passed tt e fault)
          | inl fine ↦ elim (Bool-cases (ch == b'\n')) [
            | inl newline ↦
                let is_newline : ch ≡ b'\n' = ground (arith, newline) in
                rw (more, char, fine, newline)
                  (line [] stored
                    record {
                      window = window;
                      ring = (refl, refl, refl);
                      left = omega arith;
                      dst = omega arith;
                      memory = ap (λ x. update m dst x) is_newline;
                    }
                    tt (e ∙ ap (λ x. x ∷ pending (next c)) is_newline))
            | inr inside ↦
                rw (more, char, fine, inside)
                  (onward-Took killed writable target k dst m c ch
                    (ground (arith, inside), ground (arith, char)) e _
                    (read_line-Took killed writable target k (dst + 1) (update m dst ch) (next c)
                      window))
          ]
        ]
      ]
]
