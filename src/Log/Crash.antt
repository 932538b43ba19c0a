-- ===== src/Log/Crash.antt =====
-- kernel/log.c: a commit, whole or cut short by a crash.
use os_prioritypipes.Prelude.{ℕ, ◌≤◌, ◌<◌, ◌≡◌, ◌∙◌, ap, [], ◌++◌, take}
use os_prioritypipes.Prelude.Maps.{apply}
use os_prioritypipes.Log.{Log, Disk, commit}
use os_prioritypipes.Log.Commit.{IsHome, IsApart, commit_writes}
use os_prioritypipes.Log.Writes.{commit-Copied}
use os_prioritypipes.Log.Points.{recovered, Installed, crash_at, commit_writes-Installed}

module _ (log : Log) (d : Disk) (apart : IsApart log) (busy : 0 < log.n)
    (idle : d.disk log.start 0 ≡ 0) where
  -- Run `commit` on a transaction of home blocks, on a disk whose header counts none, and let it
  -- crash after any number `k` of its writes. Recovery at boot then leaves the blocks outside the
  -- log as if the transaction had not happened, if at most the log blocks were written, and as if
  -- it had happened in full from the write of the header on.
  pub commit_crash :
      (nlog k : ℕ)
      → d.writes ≡ []
      → let after = recovered log nlog (apply (take k (commit log d).1.writes) d.disk) in
        (k ≤ log.n → (b : ℕ) → IsHome log b → after b ≡ d.disk b)
        × (log.n < k → Installed log d.disk d.view after)
  commit_crash nlog k none_yet =
      let e : (commit log d).1.writes ≡ commit_writes log d.view =
        (commit-Copied log d apart busy).writes
        ∙ ap (λ ws. ws ++ commit_writes log d.view) none_yet in
      rw e (crash_at log d nlog apart idle k)

  -- A commit that runs to its end puts every block of the transaction in its place on the disk,
  -- changes no other block outside the log, and leaves a header that counts no block, so that the
  -- next transaction starts like this one.
  pub commit-Installed :
      Installed log d.disk d.view (commit log d).1.disk × ((commit log d).1.disk log.start 0 ≡ 0)
  commit-Installed =
      rw (commit-Copied log d apart busy).disk (commit_writes-Installed log d 0 apart idle)
