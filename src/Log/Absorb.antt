-- ===== src/Log/Absorb.antt =====
-- kernel/log.c: `log_write` and `end_op` within the space that was reserved.
use os_prioritypipes.Prelude.{
  ℕ, suc, ◌+◌, ◌-◌, ◌<◌, ◌≡◌, ◌≢◌, refl, true, false, ◌||◌, inl, inr, some, List, [], ◌∷◌, arith,
  ltb, leb, ◌==◌, Bool-cases, length, get_elem?, set,
}
use os_prioritypipes.Prelude.Maps.{update}
use os_prioritypipes.Prelude.Results.{panic, Returns, returns}
use os_prioritypipes.Log.{log_size, Log, Disk, commit, end_op, find_block, log_write}
use os_prioritypipes.Log.Reserve.{
  delete, Reserved, total-set, length-set_lem, each-set, total-delete, length-delete, each-delete,
  find_block_lem,
}

-- Block `b` is in the transaction.
abbrev pub Logs : Log → ℕ → Type 0
Logs log b = (i : ℕ) × (i < log.n) × (log.block i ≡ b)

module _ (b : ℕ) (log : Log) (d : Disk) (left : List ℕ) (r : Reserved log left) where
  at : ℕ
  at = find_block log.n log.block b 0

  logged : Log
  logged = record log { block = update log.block at b }

  absorbed :
      at ≢ log.n
      → (i m : ℕ) → get_elem? left i ≡ some (suc m)
      → Reserved logged (set left i m) × Logs logged b
  unfolding logged at
  absorbed ne i m e =
      let (le, hit, before) = find_block_lem log.n 0 b log.block in
      (
        record {
          count = omega (arith, r.count, length-set_lem left i m);
          each = each-set left i m e r.each;
          room = omega (arith, r.room, total-set left i m e);
          idle = r.idle;
          distinct = λ j k lt hi. ground (arith, r.distinct j k, hit);
        },
        (at, omega arith, ground arith),
      )

  appended :
      at ≡ log.n
      → (i m : ℕ) → get_elem? left i ≡ some (suc m)
      → Reserved (record logged { n = log.n + 1 }) (set left i m)
        × Logs (record logged { n = log.n + 1 }) b
  unfolding logged at
  appended eq i m e =
      let (le, hit, before) = find_block_lem log.n 0 b log.block in
      (
        record {
          count = omega (arith, r.count, length-set_lem left i m);
          each = each-set left i m e r.each;
          room = omega (arith, r.room, total-set left i m e);
          idle = r.idle;
          distinct = λ j k lt hi. ground (arith, r.distinct j k, before j);
        },
        (at, omega arith, ground arith),
      )

  -- An operation that has a block left of those it reserved can write any block, if the log has
  -- more than LOGSIZE blocks: `log_write` does not panic, the block is in the transaction
  -- afterwards, none is there twice, and one block less is left to the operation.
  pub log_write-Reserved :
      (i m : ℕ)
      → get_elem? left i ≡ some (suc m)
      → log_size < log.size
      → Returns (λ s. Reserved s.0 (set left i m) × Logs s.0 b) (log_write b log d)
  unfolding log_write logged at
  log_write-Reserved i m e big =
      let space = total-set left i m e in
      let fits : (leb log_size log.n || leb (log.size - 1) log.n) ≡ false =
        ground (arith, r.room) in
      let busy : ltb log.outstanding 1 ≡ false = ground (arith, r.count, nonempty left i e) in
      rw (fits, busy)
        (elim (Bool-cases (find_block log.n log.block b 0 == log.n)) [
          | inl new ↦ rw new (returns (appended (ground arith) i m e))
          | inr old ↦ rw old (returns (absorbed (ground arith) i m e))
        ])
    where
      nonempty : (xs : List ℕ) (j : ℕ) → get_elem? xs j ≡ some (suc m) → 0 < length xs
      nonempty [] j h = cc
      nonempty (x ∷ xs) j h = omega arith

  -- With a log of LOGSIZE blocks, as mkfs makes it, the last reserved block panics: one of the
  -- blocks is the header, and `begin_op` does not count it.
  pub log_write_overruns : log.size ≡ log_size → log.n + 1 ≡ log_size → log_write b log d ≡ panic
  unfolding log_write
  log_write_overruns size last =
      let full : (leb log_size log.n || leb (log.size - 1) log.n) ≡ true = ground arith in rw full

commit-empties : (log : Log) (d : Disk) → (commit log d).0 ≡ record log { n = 0 }
unfolding commit
commit-empties log d = ground arith

-- Ending an operation gives up its reservation; the last one commits, which empties the
-- transaction. It does not panic.
pub end_op-Reserved :
    (log : Log) (d : Disk) (left : List ℕ) (i m : ℕ)
    → Reserved log left
    → get_elem? left i ≡ some m
    → Returns (λ s. Reserved s.0 (delete left i) × (length left ≡ 1 → s.0.n ≡ 0)) (end_op log d)
unfolding end_op
end_op-Reserved log d left i m r e =
    let size = length-delete left i m e in
    let log1 : Log = record log { outstanding = log.outstanding - 1; committing = true } in
    rw r.idle (elim (Bool-cases (log.outstanding - 1 == 0)) [
      | inl last ↦
          rw (last, commit-empties log1 d)
            (returns (
              record {
                count = ground (arith, r.count);
                each = each-delete left i r.each;
                room = ground (arith, r.room, total-delete left i m e);
                idle = refl;
                distinct = λ j k lt hi. absurd (omega arith);
              },
              λ one. refl,
            ))
      | inr more ↦ rw more (
          returns (
            record {
              count = omega (arith, r.count);
              each = each-delete left i r.each;
              room = omega (arith, r.room, total-delete left i m e);
              idle = refl;
              distinct = r.distinct;
            },
            λ one. ground (arith, r.count),
          ))
    ])
