-- ===== src/Log/Recover.antt =====
-- kernel/log.c: recovery at boot from what a crash has left on the disk.
use os_prioritypipes.Prelude.{
  ℕ, ◌+◌, ◌<◌, ◌≡◌, ◌≢◌, sym, ap, ◌∙◌, true, false, [], arith, ◌==◌, ==_self,
}
use os_prioritypipes.Prelude.Maps.{apply, apply-not-mem}
use os_prioritypipes.Log.{Block, Log, Disk, install_trans, write_head, read_head, initlog}
use os_prioritypipes.Log.Copy.{Copied}
use os_prioritypipes.Log.Head.{head_words_lem, read_head_lem}
use os_prioritypipes.Log.Commit.{
  slot, IsApart, home_writes, apply-home_writes, home_writes-out, install_trans-Copied,
}

-- the disk behind an empty cache
abbrev pub boot : (ℕ → Block) → Disk
boot disk = record { disk = disk; view = disk; pins = λ b. 0; writes = [] }

-- The disk holds the transaction `log`, with the contents that `view` gives to its blocks. With
-- no blocks it says that the header counts none.
pub record Committed (log : Log) (view disk : ℕ → Block) : Type 0 where
  pub count : disk log.start 0 ≡ log.n
  pub blocks : (i : ℕ) → i < log.n → disk log.start (i + 1) ≡ log.block i
  pub slots : (i : ℕ) → i < log.n → disk (slot log i) ≡ view (log.block i)

abbrev fresh : ℕ → ℕ → Log
fresh start size = record {
  start = start;
  size = size;
  outstanding = 0;
  committing = false;
  n = 0;
  block = λ i. 0;
}

module _ (log : Log) (view disk : ℕ → Block) (nlog : ℕ) (apart : IsApart log)
    (c : Committed log view disk) where
  log1 : Log
  log1 = read_head (fresh log.start nlog) (boot disk)

  log1_lem :
      (log1.start ≡ log.start)
      × (log1.n ≡ log.n)
      × ((i : ℕ) → i < log.n → log1.block i ≡ log.block i)
  unfolding log1
  log1_lem =
      let (en, eb, es) = read_head_lem (fresh log.start nlog) (boot disk) in
      (es, en ∙ c.count, λ i lt. eb i (omega (arith, c.count)) ∙ c.blocks i lt)

  log1-IsApart : IsApart log1
  log1-IsApart i lt j le e =
      let (es, en, eb) = log1_lem in
      apart i (omega arith) j (omega arith) (omega (arith, eb i (omega arith)))

  installed : Disk
  installed = install_trans true log1 (boot disk)

  installed-Copied : Copied (home_writes log1 view log1.n 0) (boot disk) installed
  unfolding installed
  installed-Copied =
      let (es, en, eb) = log1_lem in
      install_trans-Copied log1 (boot disk) log1-IsApart true view
        λ j lt. ap disk (omega arith) ∙ c.slots j (omega arith) ∙ ap view (sym (eb j (omega arith)))

  cleared : Disk
  cleared = write_head (record log1 { n = 0 }) installed

  cleared_lem :
      (b : ℕ) → b ≢ log.start → cleared.disk b ≡ apply (home_writes log1 view log1.n 0) disk b
  unfolding cleared write_head
  cleared_lem b ne =
      let (es, en, eb) = log1_lem in
      let other : (b == log1.start) ≡ false = ground arith in
      rw other (ap (λ d. d b) installed-Copied.disk)

  cleared-head : cleared.disk log.start 0 ≡ 0
  unfolding cleared write_head
  cleared-head =
      let (es, en, eb) = log1_lem in
      let here : (log.start == log1.start) ≡ true = ground arith in
      rw (here, ==_self log1.start)
        (head_words_lem (record log1 { n = 0 }) (installed.view log1.start)).0

  -- Recovery puts the contents of a committed transaction in place and leaves every other block
  -- but the header alone; afterwards the header counts no block.
  pub initlog-Committed :
      let after = (initlog log.start nlog (boot disk)).1.disk in
      ((i : ℕ) → i < log.n → after (log.block i) ≡ view (log.block i))
      × ((b : ℕ) → b ≢ log.start → ((i : ℕ) → i < log.n → b ≢ log.block i) → after b ≡ disk b)
      × (after log.start 0 ≡ 0)
  unfolding initlog cleared installed log1
  initlog-Committed =
      let (es, en, eb) = log1_lem in
      (
        λ i lt.
            cleared_lem (log.block i) (λ e. apart i lt 0 (omega arith) (omega arith))
            ∙ (rw (← eb i lt) (apply-home_writes log1 view disk i (omega arith))),
        λ b ne out.
            cleared_lem b ne
            ∙ apply-not-mem (home_writes log1 view log1.n 0) disk b (
                home_writes-out log1 view b
                  (λ i lt e. out i (omega arith) (e ∙ eb i (omega arith)))),
        cleared-head,
      )
