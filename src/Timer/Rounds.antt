-- ===== src/Timer/Rounds.antt =====
-- kernel/trap.c: the rounds of the loop of `clockintr` over the timers, before a timer's tick and at it.
use os_prioritypipes.Prelude.{
  ℕ, ◌+◌, ◌≤◌, ◌<◌, ◌≡◌, ◌≢◌, refl, subst, ◌∙◌, inl, inr, true, false, leb, ◌==◌, Option, none,
  some, Bool-cases, arith,
}
use os_prioritypipes.Proc.{is_sleeping, is_runnable, is_unused, period_callback}
use os_prioritypipes.Timer.{Xv6timer, Clock, plus, check_timer}

-- Every timer is for the process that has it.
abbrev pub Own : Clock → Type 0
Own c = (q : ℕ) (t : Xv6timer) → c.timer q ≡ some t → t.proc ≡ q

-- The process `p` sleeps, but on no channel, and its timer is to ring at the tick `due`.
pub record Armed (p n due : ℕ) (c : Clock) : Type 0 where
  pub asleep : is_sleeping (c.table p).state ≡ true
  pub off_channels : (c.table p).chan ≡ 0
  pub set : c.timer p ≡ some (record { expiry = n; next_tick = due; proc = p; callback = true })

-- It has rung.
pub record Rung (p n due : ℕ) (c : Clock) : Type 0 where
  pub awake : is_runnable (c.table p).state ≡ true
  pub set : c.timer p ≡ some (record { expiry = n; next_tick = due; proc = p; callback = true })

-- Another process's timer changes nothing of the process `p`.
check_timer_other :
    (q p : ℕ) (c : Clock)
    → Own c
    → q ≢ p
    → ((check_timer q c).table p ≡ c.table p) × ((check_timer q c).timer p ≡ c.timer p)
unfolding check_timer period_callback
check_timer_other q p c own ne = go (c.timer q) refl
  where
    go :
        (t : Option Xv6timer)
        → c.timer q ≡ t
        → ((check_timer q c).table p ≡ c.table p) × ((check_timer q c).timer p ≡ c.timer p)
    go none e = rw e (refl, refl)
    go (some t) e = rw e (ground (arith, own q t e))

check_timer-Own : (q : ℕ) (c : Clock) → Own c → Own (check_timer q c)
unfolding check_timer
check_timer-Own q c own = go (c.timer q) refl
  where
    go : (t : Option Xv6timer) → c.timer q ≡ t → Own (check_timer q c)
    go none e = rw e own
    go (some t) e = rw e (λ r u e'. ground (arith, own q t e, own r u, e'))

check_timer_ticks : (q : ℕ) (c : Clock) → (check_timer q c).ticks ≡ c.ticks
unfolding check_timer
check_timer_ticks q c = go (c.timer q) refl
  where
    go : (t : Option Xv6timer) → c.timer q ≡ t → (check_timer q c).ticks ≡ c.ticks
    go none e = rw e refl
    go (some t) e = rw e (ground arith)

-- Its own, before the time and at the time.
check_timer-Armed :
    (p n due : ℕ) (c : Clock) → c.ticks < due → Armed p n due c → Armed p n due (check_timer p c)
unfolding check_timer
check_timer-Armed p n due c lt a = rw (a.set, live, early) a
  where
    live : is_unused (c.table p).state ≡ false
    live = ground (arith, a.asleep)

    early : leb due c.ticks ≡ false
    early = ground (arith, lt)

check_timer-Rung :
    (p n due : ℕ) (c : Clock)
    → due ≤ c.ticks
    → Armed p n due c
    → Rung p n (plus c.ticks n) (check_timer p c)
unfolding check_timer period_callback
check_timer-Rung p n due c le a =
    rw (a.set, live, late) record { awake = ground (arith, a.asleep); set = ground arith }
  where
    live : is_unused (c.table p).state ≡ false
    live = ground (arith, a.asleep)

    late : leb due c.ticks ≡ true
    late = ground (arith, le)

-- What the loop of `clockintr` has done before the process `k`.
pub record Early (p n due ticks k : ℕ) (c : Clock) : Type 0 where
  pub own : Own c
  pub now : c.ticks ≡ ticks
  pub armed : Armed p n due c

pub check_timer-Early :
    (p n due ticks : ℕ)
    → ticks < due
    → (k : ℕ) (c : Clock) → Early p n due ticks k c
    → Early p n due ticks (k + 1) (check_timer k c)
check_timer-Early p n due ticks lt k c h = record {
  own = check_timer-Own k c h.own;
  now = check_timer_ticks k c ∙ h.now;
  armed = elim (Bool-cases (k == p)) [
    | inl mine ↦
        let same : p ≡ k = ground (arith, mine) in
        subst (λ q. Armed p n due (check_timer q c)) same
          (check_timer-Armed p n due c (omega (arith, h.now, lt)) h.armed)
    | inr other ↦
        let kept = check_timer_other k p c h.own (ground (arith, other)) in
        record {
          asleep = ground (arith, kept.0, h.armed.asleep);
          off_channels = ground (arith, kept.0, h.armed.off_channels);
          set = kept.1 ∙ h.armed.set;
        }
  ];
}

pub record Due (p n due ticks k : ℕ) (c : Clock) : Type 0 where
  pub own : Own c
  pub now : c.ticks ≡ ticks
  pub before : k ≤ p → Armed p n due c
  pub after : p < k → Rung p n (plus ticks n) c

pub check_timer-Due :
    (p n due ticks : ℕ)
    → due ≤ ticks
    → (k : ℕ) (c : Clock) → Due p n due ticks k c
    → Due p n due ticks (k + 1) (check_timer k c)
check_timer-Due p n due ticks le k c h = record {
  own = check_timer-Own k c h.own;
  now = check_timer_ticks k c ∙ h.now;
  before = λ lt.
      let kept = check_timer_other k p c h.own (omega (arith, lt)) in
      let a = h.before (omega (arith, lt)) in
      record {
        asleep = ground (arith, kept.0, a.asleep);
        off_channels = ground (arith, kept.0, a.off_channels);
        set = kept.1 ∙ a.set;
      };
  after = λ lt. elim (Bool-cases (k == p)) [
    | inl mine ↦
        let same : p ≡ k = ground (arith, mine) in
        subst (λ q. Rung p n (plus ticks n) (check_timer q c)) same
          (subst (λ m. Rung p n (plus m n) (check_timer p c)) h.now
            (check_timer-Rung p n due c (omega (arith, h.now, le))
              (h.before (omega (arith, same)))))
    | inr other ↦
        let kept = check_timer_other k p c h.own (ground (arith, other)) in
        let a = h.after (ground (arith, other, lt)) in
        record { awake = ground (arith, kept.0, a.awake); set = kept.1 ∙ a.set }
  ];
}
