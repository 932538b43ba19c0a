-- ===== src/Log/Copy.antt =====
-- kernel/log.c: the loops of `write_log` and `install_trans` as one copy of blocks.
use os_prioritypipes.Prelude.{
  ℕ, zero, suc, ◌+◌, ◌≤◌, ◌<◌, ◌≡◌, ◌≢◌, refl, ◌∙◌, List, [], ◌∷◌, ◌++◌, append_assoc, append-nil,
  arith, ==_self,
}
use os_prioritypipes.Prelude.Loops.{rounds}
use os_prioritypipes.Prelude.Maps.{apply}
use os_prioritypipes.Log.{Block, Disk, fill, bwrite}

-- One round of a copy: the block `src i` to `dst i`, in the cache and on the disk.
abbrev pub copy : (ℕ → ℕ) → (ℕ → ℕ) → ℕ → Disk → Disk
copy src dst i d = bwrite (dst i) (fill (dst i) (d.view (src i)) d)

-- the writes of `n` rounds from `i` on, by what `view` holds at the sources
abbrev pub copies : (ℕ → ℕ) → (ℕ → ℕ) → (ℕ → Block) → ℕ → ℕ → List (ℕ × Block)
copies src dst view zero i = []
copies src dst view (suc n) i = (dst i, view (src i)) ∷ copies src dst view n (i + 1)

-- What a copy makes of the disk: `pins` is not looked at.
pub record Copied (ws : List (ℕ × Block)) (before after : Disk) : Type 0 where
  pub disk : after.disk ≡ apply ws before.disk
  pub view : after.view ≡ apply ws before.view
  pub writes : after.writes ≡ before.writes ++ ws

copies-congr :
    (src dst : ℕ → ℕ) (v w : ℕ → Block) (n i : ℕ)
    → ((j : ℕ) → i ≤ j → j < i + n → v (src j) ≡ w (src j))
    → copies src dst v n i ≡ copies src dst w n i
copies-congr src dst v w zero i h = refl
copies-congr src dst v w (suc n) i h =
    ground
      (arith, h i, copies-congr src dst v w n (i + 1) (λ j lo hi. h j (omega arith) (omega arith)))

-- If no source is a destination, the loop of such rounds makes the writes of the first view.
pub loop-Copied :
    (src dst : ℕ → ℕ) (body : ℕ → Disk → Disk) (n i : ℕ) (d : Disk)
    → ((j : ℕ) (e : Disk)
        → ((body j e).disk ≡ (copy src dst j e).disk)
          × ((body j e).view ≡ (copy src dst j e).view)
          × ((body j e).writes ≡ (copy src dst j e).writes))
    → ((j k : ℕ) → j < i + n → k < i + n → src j ≢ dst k)
    → Copied (copies src dst d.view n i) d (rounds body n i d)
unfolding rounds
loop-Copied src dst body zero i d h apart = record {
  disk = refl;
  view = refl;
  writes = ground (arith, append-nil d.writes);
}
loop-Copied src dst body (suc n) i d h apart =
    let rest =
      loop-Copied src dst body n (i + 1) (body i d) h
        (λ j k lo hi. apart j k (omega arith) (omega arith)) in
    let same : copies src dst (body i d).view n (i + 1) ≡ copies src dst d.view n (i + 1) =
      copies-congr src dst (body i d).view d.view n (i + 1)
        λ j lo hi. rw (h i d).1 (ground (arith, apart j i)) in
    record {
      disk = rest.disk ∙ rw (same, (h i d).0, ==_self (dst i));
      view = rest.view ∙ rw (same, (h i d).1);
      writes = rest.writes ∙ rw (same, (h i d).2, ==_self (dst i)) (append_assoc d.writes _ _);
    }
