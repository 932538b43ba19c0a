-- ===== src/Pipe/Ring.antt =====
-- kernel/pipe.c: the ring buffer as the list of the bytes in the pipe.
use os_prioritypipes.Prelude.{
  ℕ, zero, suc, ◌+◌, ◌%◌, ◌≤◌, ◌<◌, ◌≡◌, refl, ap, inl, inr, Bool-cases, ◌∙◌, true, false, some,
  List, [], ◌∷◌, ◌++◌, ◌==◌, length, length-append, get_elem?, arith,
}
use os_prioritypipes.Pipe.{Pipe, pipe_size, uint_range, is_full, put_byte, next_byte, drop_byte}

-- The bytes of the list are those of the pipe, the next one to be read first.
pub record Holds (pi : Pipe) (bytes : List ℕ) : Type 0 where
  pub bounded : length bytes ≤ pipe_size
  pub reads : pi.nread < uint_range
  pub counts : pi.nwrite ≡ (pi.nread + length bytes) % uint_range
  pub slots :
      (j : ℕ) → j < length bytes → get_elem? bytes j ≡ some (pi.ring ((pi.nread + j) % pipe_size))

pub is_full_lem :
    (pi : Pipe) (bytes : List ℕ) → Holds pi bytes → is_full pi ≡ (length bytes == pipe_size)
is_full_lem pi bytes h = ground (arith, h.bounded, h.reads, h.counts)

pub is_empty_lem :
    (pi : Pipe) (bytes : List ℕ) → Holds pi bytes → (pi.nread == pi.nwrite) ≡ (length bytes == 0)
is_empty_lem pi bytes h = ground (arith, h.bounded, h.reads, h.counts)

get_elem?-append_last : (xs : List ℕ) (x : ℕ) → get_elem? (xs ++ x ∷ []) (length xs) ≡ some x
get_elem?-append_last [] x = refl
get_elem?-append_last (y ∷ xs) x = get_elem?-append_last xs x

get_elem?-append_early :
    (xs ys : List ℕ) (j : ℕ) → j < length xs → get_elem? (xs ++ ys) j ≡ get_elem? xs j
get_elem?-append_early [] ys j h = absurd (omega arith)
get_elem?-append_early (x ∷ xs) ys zero h = refl
get_elem?-append_early (x ∷ xs) ys (suc j) h = get_elem?-append_early xs ys j (omega arith)

put_byte_slots :
    (pi : Pipe) (bytes : List ℕ) (ch : ℕ)
    → length bytes < pipe_size
    → Holds pi bytes
    → (j : ℕ) → j ≤ length bytes
    → get_elem? (bytes ++ ch ∷ []) j ≡ some ((put_byte pi ch).ring ((pi.nread + j) % pipe_size))
put_byte_slots pi bytes ch room h j le = elim (Bool-cases (j == length bytes)) [
  | inl last ↦ rw (eq last) (get_elem?-append_last bytes ch ∙ ground (arith, h.counts))
  | inr early ↦
      get_elem?-append_early bytes (ch ∷ []) j (ground (arith, early))
      ∙ h.slots j (ground (arith, early))
      ∙ ground (arith, h.counts, h.reads, h.bounded, early)
]
  where
    eq : (j == length bytes) ≡ true → j ≡ length bytes
    eq e = ground arith

pub put_byte-Holds :
    (pi : Pipe) (bytes : List ℕ) (ch : ℕ)
    → length bytes < pipe_size
    → Holds pi bytes
    → Holds (put_byte pi ch) (bytes ++ ch ∷ [])
put_byte-Holds pi bytes ch room h =
    let len : length (bytes ++ ch ∷ []) ≡ length bytes + 1 = length-append bytes (ch ∷ []) in
    record {
      bounded = omega (arith, len);
      reads = h.reads;
      counts = omega (arith, len, h.counts);
      slots = λ j lt. put_byte_slots pi bytes ch room h j (omega (arith, lt, len));
    }

pub drop_byte-Holds :
    (pi : Pipe) (ch : ℕ) (bytes : List ℕ) → Holds pi (ch ∷ bytes) → Holds (drop_byte pi) bytes
drop_byte-Holds pi ch bytes h = record {
  bounded = omega (arith, h.bounded);
  reads = omega arith;
  counts = omega (arith, h.reads, h.counts);
  slots = λ j lt. h.slots (suc j) (omega arith) ∙ ap (λ k. some (pi.ring k)) (omega arith);
}

pub next_byte_lem :
    (pi : Pipe) (ch : ℕ) (bytes : List ℕ) → Holds pi (ch ∷ bytes) → next_byte pi ≡ ch
next_byte_lem pi ch bytes h = ground (arith, h.slots 0)

-- A pipe that holds a byte is not empty.
pub is_empty_cons :
    (pi : Pipe) (ch : ℕ) (bytes : List ℕ) → Holds pi (ch ∷ bytes) → (pi.nread == pi.nwrite) ≡ false
is_empty_cons pi ch bytes h = ground (arith, h.bounded, h.reads, h.counts)
