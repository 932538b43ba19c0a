-- ===== src/Log/Points.antt =====
-- kernel/log.c: `commit` as a sequence of writes, and recovery after a crash between any two.
use native.Mathlib.Decide.{dec_le}
use os_prioritypipes.Prelude.{
  ℕ, zero, suc, ◌+◌, ◌-◌, ◌≤◌, ◌<◌, ◌≡◌, ◌≢◌, refl, ap, ◌∙◌, false, List, [], ◌∷◌, ◌++◌, arith,
  ◌==◌, ==_self, length, take, take-append-le, take-append-length,
}
use os_prioritypipes.Prelude.Maps.{update, apply, apply-append, apply-not-mem, has-take}
use os_prioritypipes.Log.{Block, Log, Disk, head_words, initlog}
use os_prioritypipes.Log.Writes.{head-not-home}
use os_prioritypipes.Log.Recover.{boot, Committed, initlog-Committed}
use os_prioritypipes.Log.Head.{head_words_lem}
use os_prioritypipes.Log.Commit.{
  slot, IsHome, IsApart, log_writes, home_writes, commit_writes, log_writes_home, log_writes_head,
  length-log_writes, length-home_writes, apply-home_writes, home_writes-out, apply-log_writes,
}

-- A transaction of no blocks, to say that the header counts none.
abbrev none_of : Log → Log
none_of log = record log { n = 0 }

abbrev pub recovered : Log → ℕ → (ℕ → Block) → ℕ → Block
recovered log nlog disk = (initlog log.start nlog (boot disk)).1.disk

-- What the blocks outside the log hold: the transaction's new contents, and the old elsewhere.
pub record Installed (log : Log) (old view after : ℕ → Block) : Type 0 where
  pub new : (i : ℕ) → i < log.n → after (log.block i) ≡ view (log.block i)
  pub rest : (b : ℕ) → IsHome log b → ((i : ℕ) → i < log.n → b ≢ log.block i) → after b ≡ old b

take_nil {ℓ} : {A : Type ℓ} (n : ℕ) → take {A = A} n [] ≡ []
take_nil zero = refl
take_nil (suc n) = refl

module _ (log : Log) (d : Disk) (nlog : ℕ) (apart : IsApart log)
    (idle : d.disk log.start 0 ≡ 0) where
  lw : List (ℕ × Block)
  lw = log_writes log d.view

  hw : List (ℕ × Block)
  hw = home_writes log d.view log.n 0

  head : Block
  head = head_words log (d.view log.start)

  -- the disk right after the header is written
  base : ℕ → Block
  base = update (apply lw d.disk) log.start head

  length-hw : length hw ≡ log.n
  unfolding hw
  length-hw = length-home_writes log d.view log.n 0

  base-home : (b : ℕ) → IsHome log b → base b ≡ d.disk b
  unfolding base lw
  base-home b home =
      let other : (b == log.start) ≡ false = ground (arith, home 0) in
      rw other (apply-not-mem (log_writes log d.view) d.disk b (log_writes_home log d.view b home))

  base-slot : (i : ℕ) → i < log.n → base (slot log i) ≡ d.view (log.block i)
  unfolding base lw
  base-slot i lt =
      let other : (slot log i == log.start) ≡ false = ground arith in
      rw other (apply-log_writes log d.view d.disk i lt)

  -- Before the header is written: nothing has happened to the blocks outside the log.
  crash_early :
      (k : ℕ) (b : ℕ) → IsHome log b → recovered log nlog (apply (take k lw) d.disk) b ≡ d.disk b
  unfolding lw
  crash_early k b home =
      (initlog-Committed (none_of log) d.view (apply (take k (log_writes log d.view)) d.disk) nlog
          (λ i lt. absurd (omega arith)) still).1
        b (λ e. home 0 (omega arith) (omega arith)) (λ i lt. absurd (omega arith))
      ∙ apply-not-mem (take k (log_writes log d.view)) d.disk b
          (has-take k b (log_writes log d.view) (log_writes_home log d.view b home))
    where
      still : Committed (none_of log) d.view (apply (take k (log_writes log d.view)) d.disk)
      still = record {
        count =
            ap (λ words. words 0)
              (apply-not-mem (take k (log_writes log d.view)) d.disk log.start
                (has-take k log.start (log_writes log d.view) (log_writes_head log d.view)))
            ∙ idle;
        blocks = λ i lt. absurd (omega arith);
        slots = λ i lt. absurd (omega arith);
      }

  -- From the write of the header on, while blocks are installed: recovery installs them all.
  crash_installing :
      (j : ℕ) → Installed log d.disk d.view (recovered log nlog (apply (take j hw) base))
  unfolding hw
  crash_installing j =
      let (new, rest, _) =
        initlog-Committed log d.view (apply (take j (home_writes log d.view log.n 0)) base) nlog
          apart held in
      record {
        new = new;
        rest = λ b home out.
            rest b (λ e. home 0 (omega arith) (omega arith)) out
            ∙ apply-not-mem (take j (home_writes log d.view log.n 0)) base b
                (has-take j b (home_writes log d.view log.n 0) (home_writes-out log d.view b out))
            ∙ base-home b home;
      }
    where
      disk : ℕ → Block
      disk = apply (take j (home_writes log d.view log.n 0)) base

      header : disk log.start ≡ head
      header =
          apply-not-mem (take j (home_writes log d.view log.n 0)) base log.start
            (has-take j log.start (home_writes log d.view log.n 0) (head-not-home log d.view apart))
          ∙ (unfold base in rw (==_self log.start))

      held : Committed log d.view disk
      held = record {
        count =
            ap (λ words. words 0) header
            ∙ (unfold head in (head_words_lem log (d.view log.start)).0);
        blocks = λ i lt.
            ap (λ words. words (i + 1)) header
            ∙ (unfold head in (head_words_lem log (d.view log.start)).1 i lt);
        slots = λ i lt.
            apply-not-mem (take j (home_writes log d.view log.n 0)) base (slot log i) (
              has-take j (slot log i) (home_writes log d.view log.n 0) (
                home_writes-out log d.view (slot log i)
                  (λ k lk e. apart k lk (i + 1) (omega arith) (omega arith))))
            ∙ base-slot i lt;
      }

  -- After the header is cleared: the blocks are installed, and recovery leaves them.
  crash_late :
      (words : Block)
      → words 0 ≡ 0
      → Installed log d.disk d.view (recovered log nlog (update (apply hw base) log.start words))
  unfolding hw
  crash_late words zero_count =
      let (_, same, _) =
        initlog-Committed (none_of log) d.view
          (update (apply (home_writes log d.view log.n 0) base) log.start words) nlog
          (λ i lt. absurd (omega arith)) cleared in
      record {
        new = λ i lt.
            let other : (log.block i == log.start) ≡ false = ground (arith, apart i lt 0) in
            same (log.block i) (ground arith) (λ k lk. absurd (omega arith))
            ∙ rw other (apply-home_writes log d.view base i lt);
        rest = λ b home out.
            let other : (b == log.start) ≡ false = ground (arith, home 0) in
            same b (ground arith) (λ k lk. absurd (omega arith))
            ∙ rw other (
                apply-not-mem (home_writes log d.view log.n 0) base b
                  (home_writes-out log d.view b out)
                ∙ base-home b home);
      }
    where
      cleared :
          Committed
            (none_of log)
            d.view
            (update (apply (home_writes log d.view log.n 0) base) log.start words)
      cleared = record {
        count = rw (==_self log.start) zero_count;
        blocks = λ i lt. absurd (omega arith);
        slots = λ i lt. absurd (omega arith);
      }

  crash_after :
      (j : ℕ) (words : Block)
      → words 0 ≡ 0
      → Installed log d.disk d.view
          (recovered log nlog (apply (take j (hw ++ (log.start, words) ∷ [])) base))
  crash_after j words z = elim (dec_le j log.n) [
    | yes le ↦
        rw (take-append-le j hw ((log.start, words) ∷ []) (omega (arith, length-hw)))
          (crash_installing j)
    | no gt ↦
        rw
          (
            take-append-length j (suc (j - log.n - 1)) hw ((log.start, words) ∷ [])
                (omega (arith, length-hw)),
            take_nil (j - log.n - 1),
            apply-append hw ((log.start, words) ∷ []) base,
          )
          (crash_late words z)
  ]

  -- The writes of a commit up to the `k`th, and recovery from what they leave.
  pub crash_at :
      (k : ℕ)
      → let after = recovered log nlog (apply (take k (commit_writes log d.view)) d.disk) in
        (k ≤ log.n → (b : ℕ) → IsHome log b → after b ≡ d.disk b)
        × (log.n < k → Installed log d.disk d.view after)
  unfolding lw hw base head
  crash_at k = (
    λ le b home.
        rw
          (take-append-le k (log_writes log d.view) _
            (omega (arith, length-log_writes log d.view log.n 0)))
          (crash_early k b home),
    λ lt.
        rw
          (
            take-append-length k (suc (k - log.n - 1)) (log_writes log d.view) _
                (omega (arith, length-log_writes log d.view log.n 0)),
            apply-append (log_writes log d.view),
          )
          (crash_after (k - log.n - 1) _ (head_words_lem (none_of log) head).0),
  )

  hw-Installed :
      (words : Block) → Installed log d.disk d.view (update (apply hw base) log.start words)
  unfolding hw
  hw-Installed words = record {
    new = λ i lt.
        let other : (log.block i == log.start) ≡ false = ground (arith, apart i lt 0) in
        rw other (apply-home_writes log d.view base i lt);
    rest = λ b home out.
        let other : (b == log.start) ≡ false = ground (arith, home 0) in
        rw other (
          apply-not-mem (home_writes log d.view log.n 0) base b (home_writes-out log d.view b out)
          ∙ base-home b home);
  }

  pub commit_writes-Installed :
      let after = apply (commit_writes log d.view) d.disk in
      Installed log d.disk d.view after × (after log.start 0 ≡ 0)
  unfolding base lw hw head
  commit_writes-Installed =
      rw (apply-append (log_writes log d.view), apply-append (home_writes log d.view log.n 0))
        (hw-Installed _, rw (==_self log.start) (head_words_lem (none_of log) head).0)
