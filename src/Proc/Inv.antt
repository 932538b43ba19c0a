-- ===== src/Proc/Inv.antt =====
-- kernel/proc.c: what holds of the process table between two steps.
use os_prioritypipes.Prelude.{
  ℕ, ◌≤◌, ◌<◌, ◌≡◌, ◌≢◌, refl, ◌⊎◌, inl, inr, Bool, true, false, ◌==◌, Bool-cases, arith,
}
use os_prioritypipes.Prelude.Loops.{rounds_keep}
use os_prioritypipes.Prelude.Maps.{update}
use os_prioritypipes.Proc.{
  nproc, State, used, runnable, is_unused, is_sleeping, is_running, is_zombie, Table, System, woken,
  wakeup,
}

abbrev pub InTable : ℕ → Type 0
InTable p = (1 ≤ p) × (p ≤ nproc)

abbrev pub is_used : State → Bool
is_used used = true
is_used _ = false

pub record Inv (s : System) : Type 0 where
  -- `initproc` is there and never exits.
  pub init_live :
      InTable s.initproc
      × (is_unused (s.table s.initproc).state ≡ false)
      × (is_zombie (s.table s.initproc).state ≡ false)
  -- Only the processes have identifiers, which differ and have been given out.
  pub free_pid : (p : ℕ) → InTable p → is_unused (s.table p).state ≡ true → (s.table p).pid ≡ 0
  pub live_pid :
      (p : ℕ)
      → InTable p
      → is_unused (s.table p).state ≡ false
      → (0 < (s.table p).pid) × ((s.table p).pid < s.nextpid)
  pub distinct :
      (p q : ℕ)
      → InTable p
      → InTable q
      → p ≢ q
      → is_unused (s.table p).state ≡ false
      → (s.table p).pid ≢ (s.table q).pid
  -- A parent is a process that has not exited.
  pub parents :
      (p q : ℕ)
      → InTable p
      → (s.table p).parent ≡ q
      → q ≢ 0
      → (is_unused (s.table p).state ≡ false)
        × InTable q
        × (is_unused (s.table q).state ≡ false)
        × (is_zombie (s.table q).state ≡ false)
  -- A process whose `fork` is over has a parent, but for `initproc`.
  pub has_parent :
      (p : ℕ)
      → InTable p
      → is_unused (s.table p).state ≡ false
      → is_used (s.table p).state ≡ false
      → p ≢ s.initproc
      → (s.table p).parent ≢ 0
  -- No parent of a zombie is asleep in `wait`.
  pub awaited :
      (p q : ℕ)
      → InTable p
      → (s.table p).parent ≡ q
      → q ≢ 0
      → is_zombie (s.table p).state ≡ true
      → is_sleeping (s.table q).state ≡ true
      → (s.table q).chan ≢ q
  -- A CPU runs a process that is marked as running, and no two run the same.
  pub on_cpu :
      (c : ℕ) → s.cpu c ≢ 0 → InTable (s.cpu c) × (is_running (s.table (s.cpu c)).state ≡ true)
  pub one_cpu : (c d : ℕ) → s.cpu c ≢ 0 → s.cpu c ≡ s.cpu d → c ≡ d

-- The table `t'` is `t` with some sleeping processes made runnable.
abbrev pub Roused : Table → Table → Type 0
Roused t t' =
    (p : ℕ)
    → (t' p ≡ t p) ⊎ ((is_sleeping (t p).state ≡ true) × (t' p ≡ record (t p) { state = runnable }))

pub Roused-Inv :
    (s : System) (t' : Table) → Roused s.table t' → Inv s → Inv (record s { table = t' })
Roused-Inv s t' r h = record {
  init_live = ground (arith, r s.initproc, h.init_live);
  free_pid = λ p i u. ground (arith, r p, h.free_pid p);
  live_pid = λ p i u. ground (arith, r p, h.live_pid p);
  distinct = λ p q i j ne u. ground (arith, r p, r q, h.distinct p q);
  parents = λ p q i e nz. ground (arith, r p, r q, h.parents p q);
  has_parent = λ p i u v ne. ground (arith, r p, h.has_parent p);
  awaited = λ p q i e nz z sl. ground (arith, r p, r q, h.awaited p q);
  on_cpu = λ c e. ground (arith, r (s.cpu c), h.on_cpu c);
  one_cpu = h.one_cpu;
}

-- The part of a table that another function can change one process at a time.
pub update-Roused :
    (t : Table) (p : ℕ)
    → is_sleeping (t p).state ≡ true
    → Roused t (update t p (record (t p) { state = runnable }))
update-Roused t p sl q = elim (Bool-cases (q == p)) [
  | inl same ↦ ground (arith, sl)
  | inr other ↦ inl (rw other refl)
]

pub Roused-trans : (t u v : Table) → Roused t u → Roused u v → Roused t v
Roused-trans t u v r r' p = ground (arith, r p, r' p)

woken-Roused : (me chan p : ℕ) (t : Table) → Roused t (woken me chan p t)
woken-Roused me chan p t q = ground (arith, t q)

pub wakeup-Roused : (me chan : ℕ) (t : Table) → Roused t (wakeup me chan t)
unfolding wakeup
wakeup-Roused me chan t =
    rounds_keep (woken me chan) (λ k u. Roused t u)
      (λ k u r. Roused-trans t u (woken me chan k u) r (woken-Roused me chan k u)) nproc 1 65 t
      (λ p. inl refl) refl

-- `wakeup` leaves what sleeps on another channel.
pub wakeup_other : (me chan : ℕ) (t : Table) (p : ℕ) → (t p).chan ≢ chan → wakeup me chan t p ≡ t p
unfolding wakeup
wakeup_other me chan t p ne =
    rounds_keep (woken me chan) (λ k u. u p ≡ t p) again nproc 1 65 t refl refl
  where
    again : (k : ℕ) (u : Table) → u p ≡ t p → woken me chan k u p ≡ t p
    again k u e = ground (arith, e)

-- The processes below `k` but `me` do not sleep on the channel.
abbrev Quiet : ℕ → ℕ → ℕ → Table → Type 0
Quiet me chan k t =
    (p : ℕ) → 1 ≤ p → p < k → p ≢ me → is_sleeping (t p).state ≡ true → (t p).chan ≢ chan

-- After `wakeup` no other process of the table sleeps on the channel.
pub wakeup_wakes :
    (me chan : ℕ) (t : Table) (p : ℕ)
    → InTable p
    → p ≢ me
    → is_sleeping (wakeup me chan t p).state ≡ true
    → (wakeup me chan t p).chan ≢ chan
unfolding wakeup
wakeup_wakes me chan t p i ne =
    rounds_keep (woken me chan) (Quiet me chan) (λ k u h q lo hi ne'. ground (arith, h q)) nproc 1
      65 t (λ q lo hi. absurd (omega arith)) refl p i.0 (omega (arith, i.1)) ne
