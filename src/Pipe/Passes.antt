-- ===== src/Pipe/Passes.antt =====
-- kernel/pipe.c: what one pass of `pipewrite` and of `piperead` does to the bytes in the pipe.
use os_prioritypipes.Prelude.{
  ℕ, zero, suc, ◌+◌, ◌<◌, ◌≡◌, refl, subst, ap, if◌then◌else◌, ◌⊎◌, inl, inr, Bool, true, false,
  not, ◌||◌, ◌&&◌, Option, none, some, List, [], ◌∷◌, ◌++◌, append_assoc, append-nil, length, arith,
  ◌==◌, Bool-cases, Option-cases,
}
use os_prioritypipes.Pipe.{
  Pipe, Pass, End, returned, failed, asleep, pipe_size, is_full, put_byte, drop_byte, pipewrite,
  read_loop, piperead,
}
use os_prioritypipes.Pipe.Ring.{
  Holds, is_full_lem, is_empty_lem, is_empty_cons, put_byte-Holds, drop_byte-Holds, next_byte_lem,
}

-- `copyin` finds these bytes from the index `i` on.
abbrev pub Fetched : (ℕ → Option ℕ) → ℕ → List ℕ → Type 0
Fetched fetch i [] = Unit
Fetched fetch i (b ∷ bs) = (fetch i ≡ some b) × Fetched fetch (i + 1) bs

-- Why a write that was to come to the index `last` ended at `index`, with `held` bytes in the pipe.
abbrev pub WriteEnds :
    (ℕ → Bool) → (ℕ → Option ℕ) → (readable : Bool) → (last index held : ℕ) → End → Type 0
WriteEnds killed fetch readable last index held returned =
    (index ≡ last) ⊎ ((index < last) × (fetch index ≡ none))
WriteEnds killed fetch readable last index held failed =
    (index < last) × ((readable ≡ false) ⊎ (killed index ≡ true))
WriteEnds killed fetch readable last index held asleep = (index < last) × (held ≡ pipe_size)

-- A pass of a write has put the bytes `sent` behind those that the pipe held.
pub record Wrote (killed : ℕ → Bool) (fetch : ℕ → Option ℕ) (left i : ℕ) (pi : Pipe)
    (bytes : List ℕ) (r : Pass) : Type 0 where
  pub sent : List ℕ
  pub fetched : Fetched fetch i sent
  pub index : r.index ≡ i + length sent
  pub holds : Holds r.pipe (bytes ++ sent)
  pub readopen : r.pipe.readopen ≡ pi.readopen
  pub writeopen : r.pipe.writeopen ≡ pi.writeopen
  pub ends : WriteEnds killed fetch pi.readopen (i + left) r.index (length (bytes ++ sent)) r.end

refusal : (a b : Bool) → (not a || b) ≡ true → (a ≡ false) ⊎ (b ≡ true)
refusal true b h = inr h
refusal false b h = inl refl

write_stopped :
    (killed : ℕ → Bool) (fetch : ℕ → Option ℕ) (left i : ℕ) (pi : Pipe) (bytes : List ℕ) (end : End)
    → Holds pi bytes
    → WriteEnds killed fetch pi.readopen (i + suc left) i (length bytes) end
    → Wrote killed fetch
        (suc left)
        i
        pi
        bytes
        (record { end = end; index = i; delivered = []; pipe = pi })
write_stopped killed fetch left i pi bytes end h e = record {
  sent = [];
  fetched = tt;
  index = omega arith;
  holds = rw (append-nil bytes) h;
  readopen = refl;
  writeopen = refl;
  ends = rw (append-nil bytes) e;
}

write_more :
    (killed : ℕ → Bool) (fetch : ℕ → Option ℕ) (left i : ℕ) (pi : Pipe) (bytes : List ℕ) (ch : ℕ)
    (r : Pass)
    → fetch i ≡ some ch
    → Wrote killed fetch left (i + 1) (put_byte pi ch) (bytes ++ ch ∷ []) r
    → Wrote killed fetch (suc left) i pi bytes r
write_more killed fetch left i pi bytes ch r e w =
    let joined : (bytes ++ ch ∷ []) ++ w.sent ≡ bytes ++ ch ∷ w.sent =
      append_assoc bytes (ch ∷ []) w.sent in
    record {
      sent = ch ∷ w.sent;
      fetched = (e, w.fetched);
      index = omega (arith, w.index);
      holds = subst (λ l. Holds r.pipe l) joined w.holds;
      readopen = w.readopen;
      writeopen = w.writeopen;
      ends =
          subst (λ l. WriteEnds killed fetch pi.readopen (i + suc left) r.index (length l) r.end)
            joined
            (subst
              (λ k.
                WriteEnds killed fetch pi.readopen k r.index (length ((bytes ++ ch ∷ []) ++ w.sent))
                  r.end)
              (omega arith) w.ends);
    }

-- A pass of `pipewrite` puts bytes of its user, in order, behind those in the pipe. It returns
-- once it has put all or meets an address that `copyin` refuses, returns -1 only with the read end
-- closed or the process killed, and sleeps only with 512 bytes in the pipe.
pub pipewrite-Wrote :
    (killed : ℕ → Bool) (fetch : ℕ → Option ℕ) (left i : ℕ) (pi : Pipe) (bytes : List ℕ)
    → Holds pi bytes
    → Wrote killed fetch left i pi bytes (pipewrite killed fetch left i pi)
unfolding pipewrite
pipewrite-Wrote killed fetch zero i pi bytes h = record {
  sent = [];
  fetched = tt;
  index = omega arith;
  holds = rw (append-nil bytes) h;
  readopen = refl;
  writeopen = refl;
  ends = inl (omega arith);
}
pipewrite-Wrote killed fetch (suc left) i pi bytes h =
    elim (Bool-cases (not pi.readopen || killed i)) [
      | inl refused ↦ rw refused (
          write_stopped killed fetch left i pi bytes failed h
            (omega arith, refusal pi.readopen (killed i) refused))
      | inr go ↦ elim (Bool-cases (is_full pi)) [
        | inl full ↦
            rw (go, full)
              (write_stopped killed fetch left i pi bytes asleep h
                (omega arith, ground (arith, is_full_lem pi bytes h)))
        | inr room ↦ elim (Option-cases (fetch i)) [
          | inl gone ↦
              rw (go, room, gone)
                (write_stopped killed fetch left i pi bytes returned h (inr (omega arith, gone)))
          | inr (ch, e) ↦
              rw (go, room, e)
                (write_more killed fetch left i pi bytes ch _ e (
                  pipewrite-Wrote killed fetch left (i + 1) (put_byte pi ch) (bytes ++ ch ∷ []) (
                    put_byte-Holds pi bytes ch (ground (arith, is_full_lem pi bytes h, h.bounded))
                      h)))
        ]
      ]
    ]

-- A pass of a read has taken the bytes `delivered` and then `lost` from the front of the pipe.
pub record Took (deliver : ℕ → Bool) (left i : ℕ) (pi : Pipe) (bytes : List ℕ) (r : Pass)
    : Type 0 where
  pub lost : List ℕ
  pub kept : List ℕ
  pub splits : bytes ≡ r.delivered ++ lost ++ kept
  pub index : r.index ≡ i + length r.delivered
  pub holds : Holds r.pipe kept
  pub readopen : r.pipe.readopen ≡ pi.readopen
  pub writeopen : r.pipe.writeopen ≡ pi.writeopen
  pub returns : r.end ≡ returned
  pub ends :
      ((lost ≡ []) × ((r.index ≡ i + left) ⊎ (kept ≡ [])))
      ⊎ ((length lost ≡ 1) × (r.index < i + left) × (deliver r.index ≡ false))

-- The loop of `piperead` takes the first bytes of the pipe in order, as many as were asked for or
-- are there. It stops short where `copyout` fails: the byte that it has then taken is lost.
pub read_loop-Took :
    (deliver : ℕ → Bool) (left i : ℕ) (pi : Pipe) (bytes : List ℕ)
    → Holds pi bytes
    → Took deliver left i pi bytes (read_loop deliver left i pi)
unfolding read_loop
read_loop-Took deliver zero i pi bytes h = record {
  lost = [];
  kept = bytes;
  splits = refl;
  index = omega arith;
  holds = h;
  readopen = refl;
  writeopen = refl;
  returns = refl;
  ends = inl (refl, inl (omega arith));
}
read_loop-Took deliver (suc left) i pi [] h = rw (is_empty_lem pi [] h) record {
  lost = [];
  kept = [];
  splits = refl;
  index = omega arith;
  holds = h;
  readopen = refl;
  writeopen = refl;
  returns = refl;
  ends = inl (refl, inr refl);
}
read_loop-Took deliver (suc left) i pi (ch ∷ bytes) h =
    let rest =
      read_loop-Took deliver left (i + 1) (drop_byte pi) bytes (drop_byte-Holds pi ch bytes h) in
    elim (Bool-cases (deliver i)) [
      | inl sent ↦
          rw (is_empty_cons pi ch bytes h, sent, next_byte_lem pi ch bytes h)
            record {
              lost = rest.lost;
              kept = rest.kept;
              splits = ap (λ l. ch ∷ l) rest.splits;
              index = omega (arith, rest.index);
              holds = rest.holds;
              readopen = rest.readopen;
              writeopen = rest.writeopen;
              returns = rest.returns;
              ends = grind (arith, rest.ends);
            }
      | inr unsent ↦
          rw (is_empty_cons pi ch bytes h, unsent)
            record {
              lost = ch ∷ [];
              kept = bytes;
              splits = refl;
              index = omega arith;
              holds = drop_byte-Holds pi ch bytes h;
              readopen = refl;
              writeopen = refl;
              returns = refl;
              ends = inr (refl, omega arith, unsent);
            }
    ]

abbrev pub waiting : Pipe → End → Pass
waiting pi end = record { end = end; index = 0; delivered = []; pipe = pi }

-- A pass of `piperead` on an empty pipe with its write end open sleeps, or returns -1 if the
-- process is killed; any other pass takes bytes in order and returns their number.
pub piperead-Took :
    (killed : Bool) (deliver : ℕ → Bool) (n : ℕ) (pi : Pipe) (bytes : List ℕ)
    → Holds pi bytes
    → ((bytes ≡ [])
        × (pi.writeopen ≡ true)
        × (piperead killed deliver n pi ≡ waiting pi (if killed then failed else asleep)))
      ⊎ Took deliver n 0 pi bytes (piperead killed deliver n pi)
unfolding piperead
piperead-Took killed deliver n pi [] h =
    elim (Bool-cases ((pi.nread == pi.nwrite) && pi.writeopen)) [
      | inl waits ↦ inl (refl, ground arith, rw waits (either killed))
      | inr over ↦ inr (rw over (read_loop-Took deliver n 0 pi [] h))
    ]
  where
    either :
        (b : Bool)
        → (if b then waiting pi failed else waiting pi asleep)
          ≡ waiting pi (if b then failed else asleep)
    either true = refl
    either false = refl
piperead-Took killed deliver n pi (ch ∷ bytes) h =
    inr (rw (is_empty_cons pi ch bytes h) (read_loop-Took deliver n 0 pi (ch ∷ bytes) h))
