-- ===== src/Log/Writes.antt =====
-- kernel/log.c: `commit` as a sequence of writes, in their order.
use os_prioritypipes.Prelude.{
  ℕ, ◌<◌, ◌≡◌, refl, ap, ◌∙◌, false, List, [], ◌∷◌, ◌++◌, append_assoc, arith, ◌==◌, ==_self,
  lt→ltb,
}
use os_prioritypipes.Prelude.Maps.{keys, apply-append, apply-not-mem}
use os_prioritypipes.Prelude.Sets.{◌∉◌}
use os_prioritypipes.Log.{
  Block, Log, Disk, install_trans, write_log, head_words, write_head, commit,
}
use os_prioritypipes.Log.Copy.{Copied}
use os_prioritypipes.Log.Commit.{
  slot, IsApart, log_writes, home_writes, commit_writes, log_writes_head, home_writes-out,
  apply-log_writes, write_log-Copied, install_trans-Copied,
}

Copied-trans :
    {vs ws : List (ℕ × Block)} {a b c : Disk}
    → Copied vs a b
    → Copied ws b c
    → Copied (vs ++ ws) a c
Copied-trans {vs} {ws} {a} {b} {c} p q = record {
  disk = q.disk ∙ rw (p.disk, apply-append vs ws a.disk);
  view = q.view ∙ rw (p.view, apply-append vs ws a.view);
  writes = q.writes ∙ rw p.writes (append_assoc a.writes vs ws);
}

write_head-Copied :
    (log : Log) (d : Disk) (words : Block)
    → head_words log (d.view log.start) ≡ words
    → Copied ((log.start, words) ∷ []) d (write_head log d)
unfolding write_head
write_head-Copied log d words e =
    rw (← e)
      (record { disk = rw (==_self log.start); view = refl; writes = rw (==_self log.start) })

pub head-not-home :
    (log : Log) (view : ℕ → Block) → IsApart log → log.start ∉ keys (home_writes log view log.n 0)
head-not-home log view apart =
    home_writes-out log view log.start (λ i lt e. apart i lt 0 (omega arith) (omega arith))

module _ (log : Log) (d : Disk) (apart : IsApart log) (busy : 0 < log.n) where
  -- `commit` makes exactly these writes in this order, and the cache has the same contents.
  pub commit-Copied : Copied (commit_writes log d.view) d (commit log d).1
  unfolding commit
  commit-Copied = rw (lt→ltb 0 log.n busy) (Copied-trans w1 (Copied-trans w2 (Copied-trans w3 w4)))
    where
      d1 : Disk
      d1 = write_log log d

      d2 : Disk
      d2 = write_head log d1

      d3 : Disk
      d3 = install_trans false log d2

      head : Block
      head = head_words log (d.view log.start)

      w1 : Copied (log_writes log d.view) d d1
      w1 = write_log-Copied log d apart

      same : d1.view log.start ≡ d.view log.start
      same =
          ap (λ v. v log.start) w1.view
          ∙ apply-not-mem (log_writes log d.view) d.view log.start (log_writes_head log d.view)

      w2 : Copied ((log.start, head) ∷ []) d1 d2
      w2 = write_head-Copied log d1 head (ap (head_words log) same)

      held : (j : ℕ) → j < log.n → d2.view (slot log j) ≡ d.view (log.block j)
      held j lt =
          ap (λ v. v (slot log j)) w2.view
          ∙ (let e : (slot log j == log.start) ≡ false = ground arith in
              rw (e, w1.view) (apply-log_writes log d.view d.view j lt))

      w3 : Copied (home_writes log d.view log.n 0) d2 d3
      w3 = install_trans-Copied log d2 apart false d.view held

      kept : d3.view log.start ≡ head
      kept =
          ap (λ v. v log.start) w3.view
          ∙ apply-not-mem (home_writes log d.view log.n 0) d2.view log.start
              (head-not-home log d.view apart)
          ∙ ap (λ v. v log.start) w2.view
          ∙ rw (==_self log.start)

      w4 :
          Copied
            ((log.start, head_words (record log { n = 0 }) head) ∷ [])
            d3
            (write_head (record log { n = 0 }) d3)
      w4 =
          write_head-Copied (record log { n = 0 }) d3 _
            (ap (head_words (record log { n = 0 })) kept)

  -- `commit` empties the transaction, and records these writes.
  pub commit_empties : ((commit log d).0 ≡ record log { n = 0 })
  unfolding commit
  commit_empties = rw (lt→ltb 0 log.n busy)
