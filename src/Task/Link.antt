-- ===== src/Task/Link.antt =====
-- `link_loop` on linked cells.
use os_prioritypipes.Prelude.{
  ℕ, zero, suc, ◌<◌, ◌≡◌, ◌≢◌, refl, Bool, false, inl, inr, some, [], ◌∷◌, arith, ◌==◌,
  if◌then◌else◌, Bool-cases, length,
}
use os_prioritypipes.Prelude.Sets.{◌∉◌, Distinct}
use os_prioritypipes.Prelude.Results.{◌>>=◌, Returns, returns, mono}
use os_prioritypipes.Task.{Task, Nodes, write, set_next, link_loop}
use os_prioritypipes.Task.Cells.{
  Cells, addresses, first, node, Linked, Linked-write, load-ok, set_next-ok,
}

-- `c` in its place among the cells behind the first one
unfoldable pub insert_behind : (Task → Task → Bool) → ℕ × Task → Cells → Cells
insert_behind ahead c [] = c ∷ []
insert_behind ahead c (d ∷ ds) = if ahead d.1 c.1 then d ∷ insert_behind ahead c ds else c ∷ d ∷ ds

-- Nothing changed but at the new cell and the cells `cs`.
abbrev pub SameOutside : ℕ → Cells → Nodes → Nodes → Type 0
SameOutside new cs old now = (b : ℕ) → b ≢ new → b ∉ addresses cs → now b ≡ old b

pub record Linkage (ahead : Task → Task → Bool) (c : ℕ × Task) (d : ℕ × Task) (ds : Cells)
    (old now : Nodes) : Type 0 where
  pub linked : Linked now (d ∷ insert_behind ahead c ds)
  pub same : SameOutside c.0 (d ∷ ds) old now

module _ (ahead : Task → Task → Bool) (new : ℕ) (task : Task) (nz : new ≢ 0) where
  -- The two writes put the new cell right behind the current one.
  stop-Linkage :
      (nodes : Nodes) (a q : ℕ) (u : Task) (ds : Cells)
      → Linked nodes ((a, u) ∷ ds)
      → a ∉ addresses ds
      → new ∉ addresses ((a, u) ∷ ds)
      → nodes new ≡ some (node task q)
      → insert_behind ahead (new, task) ds ≡ (new, task) ∷ ds
      → Returns
          (Linkage ahead (new, task) (a, u) ds nodes)
          (set_next new (first ds) nodes >>= set_next a new)
  unfolding write
  stop-Linkage nodes a q u ds h out fresh at e =
      let n1 = write new (some (node task (first ds))) nodes in
      let at1 : n1 a ≡ some (node u (first ds)) = ground arith in
      rw (set_next-ok nodes new q task nz at (first ds), set_next-ok n1 a (first ds) u h.0 at1 new)
        (returns (record {
          linked = rw e (
            h.0,
            ground arith,
            (
              nz,
              ground arith,
              Linked-write n1 a (some (node u new)) ds out
                  (Linked-write nodes new (some (node task (first ds))) ds (ground arith) h.2),
            ),
          );
          same = ground arith;
        }))

  -- With a round of fuel for each cell behind the current one and one more, the loop and its writes
  -- link the new cell in its place.
  pub link_loop-Linkage :
      (k : ℕ) (nodes : Nodes) (a q : ℕ) (u : Task) (ds : Cells)
      → Linked nodes ((a, u) ∷ ds)
      → Distinct (addresses ((a, u) ∷ ds))
      → new ∉ addresses ((a, u) ∷ ds)
      → nodes new ≡ some (node task q)
      → length ds < k
      → Returns (Linkage ahead (new, task) (a, u) ds nodes) (link_loop ahead k a new task nodes)
  unfolding link_loop insert_behind
  link_loop-Linkage zero nodes a q u ds h dis fresh at fuel = absurd (omega arith)
  link_loop-Linkage (suc k) nodes a q u [] h dis fresh at fuel =
      rw (load-ok nodes a 0 u h.0 h.1) (stop-Linkage nodes a q u [] h dis.0 fresh at refl)
  link_loop-Linkage (suc k) nodes a q u ((b, v) ∷ ds) h dis fresh at fuel =
      let nz2 : (b == 0) ≡ false = ground arith in
      rw (load-ok nodes a b u h.0 h.1, nz2, load-ok nodes b (first ds) v h.2.0 h.2.1)
        (elim (Bool-cases (ahead v task)) [
          | inl more ↦ rw more (
              mono (link_loop-Linkage k nodes b q v ds h.2 dis.1 (ground arith) at (omega arith))
                λ now l. record {
                  linked = (h.0, ground (arith, l.same a), rw more l.linked);
                  same = λ c n o. l.same c n (ground arith);
                })
          | inr here ↦ rw here (stop-Linkage nodes a q u ((b, v) ∷ ds) h dis.0 fresh at (rw here))
        ])
