-- ===== src/Proc/Waking.antt =====
-- kernel/proc.c: the `exit` of a process as its parent sees it.
use os_prioritypipes.Prelude.{
  ℕ, ◌≡◌, ◌≢◌, refl, ◌⊎◌, inl, inr, true, false, ◌==◌, Bool-cases, arith,
}
use os_prioritypipes.Prelude.Int.{ℤ}
use os_prioritypipes.Prelude.Loops.{rounds_keep}
use os_prioritypipes.Prelude.Maps.{update}
use os_prioritypipes.Prelude.Results.{Returns, returns}
use os_prioritypipes.Proc.{
  nproc, runnable, is_sleeping, is_runnable, is_zombie, Table, System, wakeup, reparent_one,
  reparent, exit, schedule, allowed,
}
use os_prioritypipes.Proc.Inv.{Roused, wakeup-Roused}

-- Processes are woken up or get another parent in place of `q`.
abbrev pub Handed : ℕ → Table → Table → Type 0
Handed q t t' =
    (r : ℕ)
    → (((t' r).state ≡ (t r).state)
        ⊎ ((is_sleeping (t r).state ≡ true) × ((t' r).state ≡ runnable)))
      × ((t' r).chan ≡ (t r).chan)
      × ((t' r).cpu_mask ≡ (t r).cpu_mask)
      × ((t' r).xstate ≡ (t r).xstate)
      × (((t r).parent ≡ q) ⊎ ((t' r).parent ≡ (t r).parent))

pub reparent-Handed : (initproc q : ℕ) (t : Table) → Handed q t (reparent initproc q t)
unfolding reparent
reparent-Handed initproc q t =
    rounds_keep (reparent_one initproc q) (λ k u. Handed q t u) one nproc 1 65 t
      (λ r. (inl refl, refl, refl, refl, inr refl)) refl
  where
    one : (k : ℕ) (u : Table) → Handed q t u → Handed q t (reparent_one initproc q k u)
    one k u h r = elim (Bool-cases ((u k).parent == q)) [
      | inr other ↦ rw other (h r)
      | inl child ↦
          let u' = update u k (record (u k) { parent = initproc }) in
          let w : Roused u' (wakeup q initproc u') = wakeup-Roused q initproc u' in
          rw child (ground (arith, h r, w r))
    ]

-- What the `exit` of the child `q` leaves of it and of its parent `p`.
pub record Left (p q : ℕ) (s t : System) (c : ℕ) : Type 0 where
  pub dead : is_zombie (t.table q).state ≡ true
  pub same_parent : (t.table q).parent ≡ p
  pub state_kept : ((t.table p).state ≡ (s.table p).state) ⊎ ((t.table p).state ≡ runnable)
  pub chan_kept : (t.table p).chan ≡ (s.table p).chan
  pub mask_kept : (t.table p).cpu_mask ≡ (s.table p).cpu_mask
  pub cpus : t.cpu ≡ update s.cpu c 0

pub exit-Left :
    (s : System) (c p q : ℕ) (status : ℤ)
    → q ≢ s.initproc
    → p ≢ q
    → (s.table q).parent ≡ p
    → Returns (λ t. Left p q s t c) (exit c q status s)
unfolding exit
exit-Left s c p q status ni ne par =
    let u = reparent s.initproc q s.table in
    let w : Roused u (wakeup q (u q).parent u) = wakeup-Roused q (u q).parent u in
    let a = reparent-Handed s.initproc q s.table in
    rw differs (
      returns record {
        dead = ground arith;
        same_parent = ground (arith, w q, a q);
        state_kept = ground (arith, w p, a p);
        chan_kept = ground (arith, w p, a p);
        mask_kept = ground (arith, w p, a p);
        cpus = refl;
      })
  where
    differs : (q == s.initproc) ≡ false
    differs = ground (arith, ni)

pub schedule-Runs :
    (s : System) (c p : ℕ)
    → is_runnable (s.table p).state ≡ true
    → allowed c (s.table p).cpu_mask ≡ true
    → ((schedule c p s).cpu c ≡ p) × ((q : ℕ) → q ≢ p → (schedule c p s).table q ≡ s.table q)
unfolding schedule
schedule-Runs s c p up fits = rw (up, fits) (ground arith, λ q ne. ground arith)
