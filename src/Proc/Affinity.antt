-- ===== src/Proc/Affinity.antt =====
-- kernel/proc.c: the CPU that the scheduler lets a process run on.
use os_prioritypipes.Prelude.{
  ℕ, ◌≡◌, ◌≢◌, refl, subst, ap, ◌∙◌, ◌⊎◌, inl, inr, Bool, true, false, ◌&&◌, not, ◌==◌, Bool-cases,
  arith,
}
use os_prioritypipes.Prelude.Int.{ℤ, pos}
use os_prioritypipes.Prelude.Loops.{rounds_keep}
use os_prioritypipes.Prelude.Maps.{update}
use os_prioritypipes.Prelude.Results.{Result, ok, panic}
use os_prioritypipes.Proc.{
  nproc, procinit, Table, System, woken, wakeup, freeproc, allocproc, fork, reparent_one, reparent,
  exit, sleep, yield, wait, kill, sys_wait_until_next_period, period_callback, schedule, userinit,
}
use os_prioritypipes.Proc.Steps.{
  Step, Steps, start, then_step, forks, sets_parent, readies, exits, looks, sleeps_on, goes_on,
  yields, dozes, schedules, wakes, rings, kills, marks, pins,
}
use os_prioritypipes.Proc.Boot.{blank, boot}

abbrev is_pin : {s t : System} → Step s t → Bool
is_pin (pins p mask) = true
is_pin _ = false

-- Nobody calls `set_cpu_affinity`.
abbrev pub unpinned : {s t : System} → Steps s t → Bool
unpinned start = true
unpinned (then_step before step) = not (is_pin step) && unpinned before

-- No process has an affinity, and only the CPU 0 runs processes.
record Unset (s : System) : Type 0 where
  masks : (p : ℕ) → (s.table p).cpu_mask ≡ pos 0
  idle : (c : ℕ) → c ≢ 0 → s.cpu c ≡ 0

-- The tables agree on the affinities.
abbrev Masks : Table → Table → Type 0
Masks t t' = (p : ℕ) → (t' p).cpu_mask ≡ (t p).cpu_mask

woken-Masks : (me chan : ℕ) (t : Table) → Masks t (wakeup me chan t)
unfolding wakeup
woken-Masks me chan t =
    rounds_keep (woken me chan) (λ k u. Masks t u) (λ k u h p. ground (arith, h p)) nproc 1 65 t
      (λ p. refl) refl

reparent-Masks : (initproc p : ℕ) (t : Table) → Masks t (reparent initproc p t)
unfolding reparent
reparent-Masks initproc p t =
    rounds_keep (reparent_one initproc p) (λ k u. Masks t u) (λ k u h q. one k u h q) nproc 1 65 t
      (λ p. refl) refl
  where
    one : (k : ℕ) (u : Table) → Masks t u → Masks t (reparent_one initproc p k u)
    one k u h q =
        let u' = update u k (record (u k) { parent = initproc }) in
        ground (arith, h q, woken-Masks p initproc u' q)

freeproc-Masks : (p : ℕ) (t : Table) → Masks t (freeproc p t)
unfolding freeproc
freeproc-Masks p t q = ground arith

kill-Masks : (n : ℕ) (t : Table) → Masks t (kill n t).1
unfolding kill
kill-Masks n t q = ground arith

allocproc-Masks :
    (fits : Bool) (s : System)
    → Masks s.table (allocproc fits s).1.table × ((c : ℕ) → (allocproc fits s).1.cpu c ≡ s.cpu c)
unfolding allocproc freeproc
allocproc-Masks fits s = (λ q. ground arith, λ c. ground arith)

fork-Masks :
    (fits copied : Bool) (s : System)
    → Masks s.table (fork fits copied s).1.table
      × ((c : ℕ) → (fork fits copied s).1.cpu c ≡ s.cpu c)
unfolding fork freeproc
fork-Masks fits copied s =
    let a = allocproc-Masks fits s in (λ q. ground (arith, a.0 q), λ c. ground (arith, a.1 c))

-- A step that changes no affinity, and gives no CPU but 0 a process, keeps both as they are.
keep-Unset :
    (s t : System)
    → Masks s.table t.table
    → ((c : ℕ) → c ≢ 0 → (t.cpu c ≡ s.cpu c) ⊎ (t.cpu c ≡ 0))
    → Unset s
    → Unset t
keep-Unset s t same cpus h = record {
  masks = λ p. same p ∙ h.masks p;
  idle = λ c ne. ground (arith, cpus c ne, h.idle c);
}

-- the state that a step leaves, the old one if it panics
abbrev left_by : System → Result System → System
left_by s panic = s
left_by s (ok t) = t

exit-Unset : (s : System) (c p : ℕ) (status : ℤ) → Unset s → Unset (left_by s (exit c p status s))
unfolding exit
exit-Unset s c p status h = elim (Bool-cases (p == s.initproc)) [
  | inl first ↦ rw first h
  | inr other ↦
      let u = reparent s.initproc p s.table in
      rw other (
        keep-Unset s _
          (λ q.
            ground (arith, reparent-Masks s.initproc p s.table q, woken-Masks p (u p).parent u q))
          (λ d ne. ground arith) h)
]

wait-Unset : (s : System) (c p : ℕ) (delivers : Bool) → Unset s → Unset (wait c delivers p s).1
unfolding wait freeproc sleep
wait-Unset s c p delivers h = keep-Unset s _ (λ q. ground arith) (λ d ne. ground arith) h

schedule-Unset : (s : System) (c p : ℕ) → Unset s → Unset (schedule c p s)
unfolding schedule
schedule-Unset s c p h = keep-Unset s _ (λ q. ground arith) (λ d ne. ground (arith, h.masks p)) h

sleep-Unset : (s : System) (c p chan : ℕ) → Unset s → Unset (sleep c p chan s)
unfolding sleep
sleep-Unset s c p chan h = keep-Unset s _ (λ q. ground arith) (λ d ne. ground arith) h

yield-Unset : (s : System) (c p : ℕ) → Unset s → Unset (yield c p s)
unfolding yield
yield-Unset s c p h = keep-Unset s _ (λ q. ground arith) (λ d ne. ground arith) h

doze-Unset : (s : System) (c p : ℕ) → Unset s → Unset (sys_wait_until_next_period c p s)
unfolding sys_wait_until_next_period
doze-Unset s c p h = keep-Unset s _ (λ q. ground arith) (λ d ne. ground arith) h

ring-Masks : (p : ℕ) (t : Table) → Masks t (period_callback p t)
unfolding period_callback
ring-Masks p t q = ground arith

Step-Unset : {s t : System} (step : Step s t) → is_pin step ≡ false → Unset s → Unset t
Step-Unset {s} (forks fits copied) free h =
    let a = fork-Masks fits copied s in keep-Unset s _ a.0 (λ d ne. inl (a.1 d)) h
Step-Unset {s} (sets_parent c np on i us) free h =
    keep-Unset s _ (λ q. ground arith) (λ d ne. inl refl) h
Step-Unset {s} (readies np i us par) free h =
    keep-Unset s _ (λ q. ground arith) (λ d ne. inl refl) h
Step-Unset {s} (exits c status on ne e) free h =
    subst (λ u. Unset u) (ap (left_by s) e) (exit-Unset s c (s.cpu c) status h)
Step-Unset {s} (looks c delivers on) free h = wait-Unset s c (s.cpu c) delivers h
Step-Unset {s} (sleeps_on c chan on ne) free h = sleep-Unset s c (s.cpu c) chan h
Step-Unset {s} (goes_on c on) free h = keep-Unset s _ (λ q. ground arith) (λ d ne. inl refl) h
Step-Unset {s} (yields c on) free h = yield-Unset s c (s.cpu c) h
Step-Unset {s} (dozes c on ch) free h = doze-Unset s c (s.cpu c) h
Step-Unset {s} (schedules c p idle i) free h = schedule-Unset s c p h
Step-Unset {s} (wakes me chan) free h =
    keep-Unset s _ (woken-Masks me chan s.table) (λ d ne. inl refl) h
Step-Unset {s} (rings p) free h = keep-Unset s _ (ring-Masks p s.table) (λ d ne. inl refl) h
Step-Unset {s} (kills pid) free h = keep-Unset s _ (kill-Masks pid s.table) (λ d ne. inl refl) h
Step-Unset {s} (marks p i) free h = keep-Unset s _ (λ q. ground arith) (λ d ne. inl refl) h
Step-Unset {s} (pins p mask) free h = absurd (ground (arith, free))

Steps-Unset : {s t : System} (run : Steps s t) → unpinned run ≡ true → Unset s → Unset t
Steps-Unset start free h = h
Steps-Unset (then_step before step) free h =
    Step-Unset step (ground (arith, free)) (Steps-Unset before (ground (arith, free)) h)

procinit-Masks : Masks blank (procinit blank)
unfolding procinit
procinit-Masks =
    rounds_keep _ (λ k u. Masks blank u) (λ k u h p. ground (arith, h p)) nproc 1 65 blank
      (λ p. refl) refl

userinit-Unset : (s : System) → Unset s → Unset (userinit s)
unfolding userinit
userinit-Unset s h =
    let a = allocproc-Masks true s in
    keep-Unset s _ (λ q. ground (arith, a.0 q)) (λ d ne. inl (a.1 d)) h

-- If nobody calls `set_cpu_affinity`, no CPU but 0 ever runs a process, since the affinity of a
-- process begins as 0 and not as -1.
pub only_first_cpu :
    {t : System} (run : Steps (userinit boot) t) (c : ℕ) → unpinned run ≡ true → c ≢ 0 → t.cpu c ≡ 0
only_first_cpu {t} run c free ne = (Steps-Unset run free booted).idle c ne
  where
    unset : Unset boot
    unset = record { masks = procinit-Masks; idle = λ d ne. refl }

    booted : Unset (userinit boot)
    booted = userinit-Unset boot unset
