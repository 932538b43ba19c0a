-- ===== src/Fs/Words.antt =====
-- kernel/fs.c: a block as the `uint` of an indirect block, the low byte of each first.
use os_prioritypipes.Prelude.{
  ℕ, ◌+◌, ◌*◌, ◌/◌, ◌%◌, ◌<◌, ◌≡◌, refl, inl, inr, false, ◌==◌, if◌then◌else◌, Bool-cases, arith,
}

-- `((uint*)bytes)[i]`
abbrev pub word : (ℕ → ℕ) → ℕ → ℕ
word bytes i =
    bytes (4 * i)
    + 256 * bytes (4 * i + 1)
    + 65536 * bytes (4 * i + 2)
    + 16777216 * bytes (4 * i + 3)

abbrev byte_of : ℕ → ℕ → ℕ
byte_of v i =
    if i % 4 == 0
    then v % 256
    else (if i % 4 == 1
        then v / 256 % 256
        else (if i % 4 == 2 then v / 65536 % 256 else v / 16777216 % 256))

-- `((uint*)bytes)[i] = v`
abbrev pub put_word : (ℕ → ℕ) → ℕ → ℕ → ℕ → ℕ
put_word bytes i v = λ (j : ℕ). if j / 4 == i then byte_of v j else bytes j

digits :
    (v : ℕ)
    → v < 4294967296
    → v % 256 + 256 * (v / 256 % 256) + 65536 * (v / 65536 % 256) + 16777216 * (v / 16777216 % 256)
      ≡ v
digits v lt = omega (arith, lt)

pub word-put_word :
    (bytes : ℕ → ℕ) (i j v : ℕ)
    → v < 4294967296
    → word (put_word bytes i v) j ≡ (if j == i then v else word bytes j)
word-put_word bytes i j v lt = elim (Bool-cases (j == i)) [
  | inr other ↦
      let e0 : (4 * j / 4 == i) ≡ false = ground (arith, other) in
      let e1 : ((4 * j + 1) / 4 == i) ≡ false = ground (arith, other) in
      let e2 : ((4 * j + 2) / 4 == i) ≡ false = ground (arith, other) in
      let e3 : ((4 * j + 3) / 4 == i) ≡ false = ground (arith, other) in
      rw (other, e0, e1, e2, e3) refl
  | inl this ↦
      let same : j ≡ i = ground (arith, this) in
      let e0 : put_word bytes i v (4 * j) ≡ v % 256 = ground (arith, same) in
      let e1 : put_word bytes i v (4 * j + 1) ≡ v / 256 % 256 = ground (arith, same) in
      let e2 : put_word bytes i v (4 * j + 2) ≡ v / 65536 % 256 = ground (arith, same) in
      let e3 : put_word bytes i v (4 * j + 3) ≡ v / 16777216 % 256 = ground (arith, same) in
      rw this (rw (e0, e1, e2, e3) (digits v lt))
]

pub put_word_byte : (bytes : ℕ → ℕ) (i v j : ℕ) → bytes j < 256 → put_word bytes i v j < 256
put_word_byte bytes i v j lt = ground (arith, lt)

pub word_zero : (bytes : ℕ → ℕ) (i : ℕ) → ((j : ℕ) → bytes j ≡ 0) → word bytes i ≡ 0
word_zero bytes i h = rw (h (4 * i), h (4 * i + 1), h (4 * i + 2), h (4 * i + 3)) refl
