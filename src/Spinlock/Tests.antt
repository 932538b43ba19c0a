-- ===== src/Spinlock/Tests.antt =====
-- kernel/spinlock.c: its theorem where the CPU 1 takes the lock 5 while the CPU 2 waits for it.
use os_prioritypipes.Prelude.{ℕ, ◌≡◌, refl, true, false, none, some, [], ◌∷◌}
use os_prioritypipes.Prelude.Maps.{update}
use os_prioritypipes.Prelude.Results.{Returns}
use os_prioritypipes.Spinlock.{enter, release, test_and_set, push_off}
use os_prioritypipes.Spinlock.Steps.{World, Steps, start, then_step, enters, takes}
use os_prioritypipes.Spinlock.Exclusion.{idle_world, held_alone}

abbrev cpu_1 : ℕ
cpu_1 = 1

abbrev w1 : World
w1 = record idle_world {
  machine = push_off 1 idle_world.machine;
  waits = update idle_world.waits 1 (some 5);
}

abbrev w2 : World
w2 = record w1 { machine = push_off 2 w1.machine; waits = update w1.waits 2 (some 5) }

abbrev w3 : World
w3 = record w2 {
  machine = record w2.machine {
    locks = update w2.machine.locks 5 (record { locked = true; owner = some 1 });
  };
  waits = update w2.waits 1 none;
  held = update w2.held 1 (5 ∷ []);
}

run : Steps idle_world w3
unfolding enter test_and_set
run =
    then_step (then_step (then_step start (enters 1 5 refl refl)) (enters 2 5 refl refl))
      (takes 1 5 refl refl)

held_alone_example :
    (cpu_1 ≡ 1)
    × ((w3.machine.cpus 1).intr ≡ false)
    × Returns (λ m. (m.locks 5).locked ≡ false) (release 1 5 w3.machine)
held_alone_example = held_alone run 1 1 5 refl refl
