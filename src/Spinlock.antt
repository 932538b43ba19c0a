-- ===== src/Spinlock.antt =====
-- kernel/spinlock.c: spin locks and the nesting of interrupt disabling. CPUs and locks are numbers.
use os_prioritypipes.Prelude.{
  ℕ, ◌+◌, ◌-◌, Bool, true, false, ◌&&◌, not, Option, none, some, ltb, ◌==◌, if◌then◌else◌,
}
use os_prioritypipes.Prelude.Maps.{update}
use os_prioritypipes.Prelude.Results.{Result, ok, panic, ◌>>=◌, ◌>>◌, panic_if}
pub mod Steps
pub mod Exclusion
mod Tests

-- `struct spinlock`, and of `struct cpu` the fields that the locks use, with whether the CPU takes
-- interrupts
pub record Lock : Type 0 where
  pub locked : Bool
  pub owner : Option ℕ

pub record Cpu : Type 0 where
  pub noff : ℕ
  pub intena : Bool
  pub intr : Bool

pub record Machine : Type 0 where
  pub locks : ℕ → Lock
  pub cpus : ℕ → Cpu

abbrev pub initlock : ℕ → Machine → Machine
initlock l m = record m { locks = update m.locks l (record { locked = false; owner = none }) }

abbrev pub is_cpu : ℕ → Option ℕ → Bool
is_cpu c none = false
is_cpu c (some d) = c == d

abbrev pub holding : ℕ → ℕ → Machine → Bool
holding c l m = (m.locks l).locked && is_cpu c (m.locks l).owner

abbrev pub push_off : ℕ → Machine → Machine
push_off c m =
    let k = m.cpus c in
    record m {
      cpus = update m.cpus c (record {
        noff = k.noff + 1;
        intena = if k.noff == 0 then k.intr else k.intena;
        intr = false;
      });
    }

unfoldable pub pop_off : ℕ → Machine → Result Machine
pop_off c m =
    let k = m.cpus c in
    let n = k.noff - 1 in
    panic_if k.intr
    >> panic_if (ltb k.noff 1)
    >> ok (record m {
      cpus =
          update m.cpus c
            (record k { noff = n; intr = if (n == 0) && k.intena then true else k.intr });
    })

-- `acquire` before its loop
unfoldable pub enter : ℕ → ℕ → Machine → Result Machine
enter c l m = let m1 = push_off c m in panic_if (holding c l m1) >> ok m1

-- A round of its loop, which goes on if the lock is taken, and what follows the loop.
unfoldable pub test_and_set : ℕ → ℕ → Machine → Option Machine
test_and_set c l m =
    if (m.locks l).locked
    then none
    else some (record m { locks = update m.locks l (record { locked = true; owner = some c }) })

unfoldable pub release : ℕ → ℕ → Machine → Result Machine
release c l m =
    let m1 = record m { locks = update m.locks l (record { locked = false; owner = none }) } in
    panic_if (not (holding c l m)) >> pop_off c m1
