-- ===== src/Spinlock/Exclusion.antt =====
-- kernel/spinlock.c: mutual exclusion, and interrupts while a lock is held.
use os_prioritypipes.Prelude.{
  ℕ, ◌+◌, ◌-◌, ◌<◌, ◌≡◌, refl, subst, Bool, true, false, Option, none, some, [], ◌∷◌, ltb, arith,
}
use os_prioritypipes.Prelude.Maps.{update}
use os_prioritypipes.Prelude.Sets.{◌∈◌, remove, not-mem-remove_self, remove-Distinct}
use os_prioritypipes.Prelude.Results.{Returns, returns}
use os_prioritypipes.Spinlock.{is_cpu, holding, push_off, pop_off, release}
use os_prioritypipes.Spinlock.Steps.{
  World, Step, enters, takes, releases, pushes, pops, sets_intr, Steps, start, then_step, Inv,
  popped, unlocked, enter-ok, pop_off-ok, release-ok, test_and_set-some, has-remove, length-remove,
}

enter-Inv :
    (w : World) (c l : ℕ)
    → w.waits c ≡ none
    → Inv w
    → Inv (record w { machine = push_off c w.machine; waits = update w.waits c (some l) })
enter-Inv w c l idle h = record {
  depth = λ d. ground (arith, h.depth d, idle);
  off = λ d p. ground (arith, h.off d);
  held_once = h.held_once;
  held_locked = h.held_locked;
  locked_held = h.locked_held;
}

take-Inv :
    (w : World) (c l : ℕ)
    → w.waits c ≡ some l
    → (w.machine.locks l).locked ≡ false
    → Inv w
    → Inv (record w {
      machine = record w.machine {
        locks = update w.machine.locks l (record { locked = true; owner = some c });
      };
      waits = update w.waits c none;
      held = update w.held c (l ∷ w.held c);
    })
take-Inv w c l waiting free h = record {
  depth = λ d. ground (arith, h.depth d, waiting);
  off = h.off;
  held_once = λ d. ground (arith, h.held_once d, h.held_locked c l, free);
  held_locked = λ d k i. ground (arith, h.held_locked d k, free);
  locked_held = λ d k e. ground (arith, h.locked_held d k);
}

release-Inv :
    (w : World) (c l : ℕ)
    → w.waits c ≡ none
    → holding c l w.machine ≡ true
    → Inv w
    → Inv (record w {
      machine = popped c (unlocked l w.machine);
      held = update w.held c (remove l (w.held c));
    })
release-Inv w c l idle mine h =
    let i : l ∈ w.held c = h.locked_held c l mine in
    record {
      depth = λ d. ground (arith, h.depth d, length-remove l (w.held c) i);
      off = λ d p. ground (arith, h.off d);
      held_once = λ d. ground (arith, h.held_once d, remove-Distinct l (w.held c));
      held_locked = λ d k j. ground (
        arith,
        h.held_locked d k,
        mine,
        has-remove l k (w.held c),
        not-mem-remove_self l (w.held c),
        h.held_once c,
      );
      locked_held = λ d k e. ground (arith, h.locked_held d k, has-remove l k (w.held c));
    }

push-Inv :
    (w : World) (c : ℕ)
    → Inv w
    → Inv (record w { machine = push_off c w.machine; pushed = update w.pushed c (w.pushed c + 1) })
push-Inv w c h = record {
  depth = λ d. ground (arith, h.depth d);
  off = λ d p. ground (arith, h.off d);
  held_once = h.held_once;
  held_locked = h.held_locked;
  locked_held = h.locked_held;
}

pop-Inv :
    (w : World) (c : ℕ)
    → 0 < w.pushed c
    → Inv w
    → Inv (record w { machine = popped c w.machine; pushed = update w.pushed c (w.pushed c - 1) })
pop-Inv w c some_pushed h = record {
  depth = λ d. ground (arith, h.depth d);
  off = λ d p. ground (arith, h.off d);
  held_once = h.held_once;
  held_locked = h.held_locked;
  locked_held = h.locked_held;
}

intr-Inv :
    (w : World) (c : ℕ) (on : Bool)
    → (w.machine.cpus c).noff ≡ 0
    → Inv w
    → Inv (record w {
      machine = record w.machine {
        cpus = update w.machine.cpus c (record (w.machine.cpus c) { intr = on });
      };
    })
intr-Inv w c on none_held h = record {
  depth = λ d. ground (arith, h.depth d);
  off = λ d p. ground (arith, h.off d);
  held_once = h.held_once;
  held_locked = h.held_locked;
  locked_held = h.locked_held;
}

-- Every step keeps the invariant.
Step-Inv : {w u : World} → Step w u → Inv w → Inv u
Step-Inv {w} (enters c l idle e) h =
    subst (λ m. Inv (record w { machine = m; waits = update w.waits c (some l) }))
      (enter-ok c l w.machine _ e) (enter-Inv w c l idle h)
Step-Inv {w} (takes c l waiting e) h =
    let t = test_and_set-some c l w.machine _ e in
    subst
      (λ m. Inv (record w {
        machine = m;
        waits = update w.waits c none;
        held = update w.held c (l ∷ w.held c);
      }))
      t.0 (take-Inv w c l waiting t.1 h)
Step-Inv {w} (releases c l idle e) h =
    let r = release-ok c l w.machine _ e in
    subst (λ m. Inv (record w { machine = m; held = update w.held c (remove l (w.held c)) })) r.0
      (release-Inv w c l idle r.2 h)
Step-Inv {w} (pushes c idle) h = push-Inv w c h
Step-Inv {w} (pops c idle some_pushed e) h =
    subst (λ m. Inv (record w { machine = m; pushed = update w.pushed c (w.pushed c - 1) }))
      (pop_off-ok c w.machine _ e).0 (pop-Inv w c some_pushed h)
Step-Inv {w} (sets_intr c on none_held) h = intr-Inv w c on none_held h

pub Steps-Inv : {w u : World} → Steps w u → Inv w → Inv u
Steps-Inv start h = h
Steps-Inv (then_step before step) h = Step-Inv step (Steps-Inv before h)

-- No lock is held, and no CPU is in a call.
abbrev pub idle_world : World
idle_world = record {
  machine = record {
    locks = λ l. record { locked = false; owner = none };
    cpus = λ c. record { noff = 0; intena = false; intr = false };
  };
  held = λ c. [];
  waits = λ c. none;
  pushed = λ c. 0;
}

idle-Inv : Inv idle_world
idle-Inv = record {
  depth = λ c. refl;
  off = λ c p. refl;
  held_once = λ c. tt;
  held_locked = λ c l i. absurd (ground (arith, i));
  locked_held = λ c l e. absurd (ground (arith, e));
}

release-Returns :
    (w : World) (c l : ℕ)
    → l ∈ w.held c
    → Inv w
    → Returns (λ m. (m.locks l).locked ≡ false) (release c l w.machine)
unfolding release pop_off
release-Returns w c l i h =
    let mine = h.held_locked c l i in
    let deep : ltb (w.machine.cpus c).noff 1 ≡ false =
      ground (arith, h.depth c, length-remove l (w.held c) i) in
    let off : (w.machine.cpus c).intr ≡ false = ground (arith, h.off c, deep) in
    rw (mine, off, deep) (returns (ground arith))

-- Whatever the CPUs do in whatever order, from the start on: two CPUs never hold the same lock, a CPU
-- that holds a lock takes no interrupts, and its `release` of the lock does not panic and unlocks it.
pub held_alone :
    {w : World} (run : Steps idle_world w) (c d l : ℕ)
    → l ∈ w.held c
    → l ∈ w.held d
    → (c ≡ d)
      × ((w.machine.cpus c).intr ≡ false)
      × Returns (λ m. (m.locks l).locked ≡ false) (release c l w.machine)
held_alone {w} run c d l i j =
    let h = Steps-Inv run idle-Inv in
    (
      one_owner (w.machine.locks l).owner (ground (arith, h.held_locked c l i))
          (ground (arith, h.held_locked d l j)),
      h.off c (omega (arith, h.depth c, length-remove l (w.held c) i)),
      release-Returns w c l i h,
    )
  where
    one_owner : (o : Option ℕ) → is_cpu c o ≡ true → is_cpu d o ≡ true → c ≡ d
    one_owner none e e' = absurd (ground (arith, e))
    one_owner (some k) e e' = ground (arith, e, e')
