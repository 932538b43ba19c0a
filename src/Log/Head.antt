-- ===== src/Log/Head.antt =====
-- kernel/log.c: `write_head` and `read_head` agree on the header block.
use os_prioritypipes.Prelude.{ℕ, ◌+◌, ◌<◌, ◌≡◌, refl, arith}
use os_prioritypipes.Prelude.Loops.{rounds_keep}
use os_prioritypipes.Prelude.Maps.{update}
use os_prioritypipes.Log.{Block, Log, Disk, head_words, read_head}

-- The words of the header are the count, and then the block numbers.
pub head_words_lem :
    (log : Log) (old : Block)
    → (head_words log old 0 ≡ log.n)
      × ((i : ℕ) → i < log.n → head_words log old (i + 1) ≡ log.block i)
unfolding head_words
head_words_lem log old =
    rounds_keep (λ i words. update words (i + 1) (log.block i))
      (λ i (words : Block). (words 0 ≡ log.n) × ((j : ℕ) → j < i → words (j + 1) ≡ log.block j))
      (λ i words h. (ground (arith, h.0), λ j lt. ground (arith, h.1 j))) log.n 0 log.n
      (update old 0 log.n) (refl, λ j lt. absurd (omega arith)) (omega arith)

-- Reading the header takes over the count and that many block numbers, and nothing else.
pub read_head_lem :
    (log : Log) (d : Disk)
    → ((read_head log d).n ≡ d.view log.start 0)
      × ((i : ℕ) → i < d.view log.start 0 → (read_head log d).block i ≡ d.view log.start (i + 1))
      × ((read_head log d).start ≡ log.start)
unfolding read_head
read_head_lem log d = (
  refl,
  rounds_keep (λ i block. update block i (d.view log.start (i + 1)))
      (λ i (block : ℕ → ℕ). (j : ℕ) → j < i → block j ≡ d.view log.start (j + 1))
      (λ i block h j lt. ground (arith, h j)) (d.view log.start 0) 0 (d.view log.start 0) log.block
      (λ j lt. absurd (omega arith)) (omega arith),
  refl,
)
