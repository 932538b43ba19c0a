-- ===== src/Console/Editing.antt =====
-- kernel/console.c: the three indices under `consoleintr`.
use os_prioritypipes.Prelude.{
  ℕ, zero, suc, ◌+◌, ◌%◌, ◌≤◌, ◌<◌, ◌≡◌, inl, inr, Bool, false, ◌&&◌, ◌||◌, not, ltb, ◌==◌,
  if◌then◌else◌, Bool-cases, arith,
}
use os_prioritypipes.Console.{
  input_buf_size, minus, Cons, control, kills, kill_line, store_char, consoleintr,
}

-- Of the characters from `r` on, at most 128, those up to `w` are for the readers, and those from
-- `w` to `e` are still edited.
pub record InWindow (c : Cons) : Type 0 where
  pub ranges : (c.r < 0x100000000) × (c.w < 0x100000000) × (c.e < 0x100000000)
  pub order : minus c.w c.r ≤ minus c.e c.r
  pub fits : minus c.e c.r ≤ input_buf_size

erase-InWindow :
    (c : Cons) → (c.e == c.w) ≡ false → InWindow c → InWindow (record c { e = minus c.e 1 })
erase-InWindow c more h = record {
  ranges = omega (arith, h.ranges);
  order = ground (arith, more, h.ranges, h.order, h.fits);
  fits = ground (arith, more, h.ranges, h.order, h.fits);
}

kill_line-InWindow : (k : ℕ) (c : Cons) → InWindow c → InWindow (kill_line k c)
unfolding kill_line
kill_line-InWindow zero c h = h
kill_line-InWindow (suc k) c h = elim (Bool-cases (kills c)) [
  | inl more ↦ rw more (
      kill_line-InWindow k (record c { e = minus c.e 1 })
        (erase-InWindow c (ground (arith, more)) h))
  | inr stop ↦ rw stop h
]

-- whether a character that is stored ends a line or fills the ring
abbrev handed : ℕ → Cons → Bool
handed ch c =
    let ch1 = if ch == b'\r' then b'\n' else ch in
    (ch1 == b'\n')
    || (ch1 == control b'D')
    || (minus ((c.e + 1) % 0x100000000) c.r == input_buf_size)

store_char-InWindow : (ch : ℕ) (c : Cons) → InWindow c → InWindow (store_char ch c)
unfolding store_char
store_char-InWindow ch c h =
    elim (Bool-cases (not (ch == 0) && ltb (minus c.e c.r) input_buf_size)) [
      | inr refused ↦ rw refused h
      | inl stored ↦ elim (Bool-cases (handed ch c)) [
        | inl line ↦
            rw (stored, line)
              (record {
                ranges = omega (arith, h.ranges);
                order = omega arith;
                fits = ground (arith, stored, h.ranges, h.fits);
              })
        | inr more ↦
            rw (stored, more)
              (record {
                ranges = omega (arith, h.ranges);
                order = ground (arith, stored, h.ranges, h.order, h.fits);
                fits = ground (arith, stored, h.ranges, h.fits);
              })
      ]
    ]

-- The fuel of `kill_line` is enough: the loop ends where its condition is false.
kill_line_stops :
    (k : ℕ) (c : Cons) → InWindow c → minus c.e c.w < k → kills (kill_line k c) ≡ false
unfolding kill_line
kill_line_stops zero c h lt = absurd (omega arith)
kill_line_stops (suc k) c h lt = elim (Bool-cases (kills c)) [
  | inl more ↦ rw more (
      kill_line_stops k (record c { e = minus c.e 1 }) (erase-InWindow c (ground (arith, more)) h)
        (ground (arith, more, h.ranges, lt)))
  | inr stop ↦ rw stop stop
]

-- The indices stay in order and within the ring under every character typed, and the loop that
-- erases a line ends.
pub consoleintr-InWindow :
    (ch : ℕ) (c : Cons)
    → InWindow c
    → InWindow (consoleintr ch c) × (kills (kill_line (input_buf_size + 1) c) ≡ false)
unfolding consoleintr
consoleintr-InWindow ch c h = (
  elim (Bool-cases (ch == control b'P')) [
    | inl dump ↦ rw dump h
    | inr a ↦ elim (Bool-cases (ch == control b'U')) [
      | inl kill ↦ rw (a, kill) (kill_line-InWindow (input_buf_size + 1) c h)
      | inr b ↦ elim (Bool-cases ((ch == control b'H') || (ch == 0x7f))) [
        | inl back ↦ elim (Bool-cases (c.e == c.w)) [
          | inl none ↦ rw (a, b, back, none) h
          | inr some ↦ rw (a, b, back, some) (erase-InWindow c some h)
        ]
        | inr plain ↦ rw (a, b, plain) (store_char-InWindow ch c h)
      ]
    ]
  ],
  kill_line_stops (input_buf_size + 1) c h (ground (arith, h.ranges, h.order, h.fits)),
)
