-- ===== src/Sleeplock.antt =====
-- kernel/sleeplock.c: a lock that a process may hold while it sleeps. The spinlock inside makes
-- each function one step, up to the point where `acquiresleep` sleeps.
use os_prioritypipes.Prelude.{
  ℕ, ◌≡◌, refl, ◌⊎◌, inl, inr, Bool-cases, ==_self, Bool, true, false, ◌&&◌, Option, none, some,
  ◌==◌, if◌then◌else◌,
}

-- `struct sleeplock` less its spinlock and name
pub record Sleeplock : Type 0 where
  pub locked : Bool
  pub pid : ℕ

-- `initsleeplock` and `releasesleep` leave the lock free.
abbrev pub unlocked : Sleeplock
unlocked = record { locked = false; pid = 0 }

-- A pass of the loop of `acquiresleep`: none if the process sleeps.
unfoldable pub acquiresleep : ℕ → Sleeplock → Option Sleeplock
acquiresleep pid lk = if lk.locked then none else some (record { locked = true; pid = pid })

unfoldable pub releasesleep : Sleeplock → Sleeplock
releasesleep lk = unlocked

unfoldable pub holdingsleep : ℕ → Sleeplock → Bool
holdingsleep pid lk = lk.locked && (lk.pid == pid)

-- A process gets a lock that is free, and then holds it; else it sleeps.
pub acquiresleep_cases :
    (pid : ℕ) (lk : Sleeplock)
    → ((lk.locked ≡ true) × (acquiresleep pid lk ≡ none))
      ⊎ ((lk.locked ≡ false)
          × (mine : Sleeplock) × (acquiresleep pid lk ≡ some mine)
          × (holdingsleep pid mine ≡ true))
unfolding acquiresleep holdingsleep
acquiresleep_cases pid lk = elim (Bool-cases lk.locked) [
  | inl taken ↦ inl (taken, rw taken refl)
  | inr free ↦ inr (free, record { locked = true; pid = pid }, rw free refl, ==_self pid)
]
