-- ===== src/Pipe/Closing.antt =====
-- kernel/pipe.c: `pipeclose` and the page of the pipe.
use os_prioritypipes.Prelude.{
  ℕ, ◌≡◌, refl, inl, inr, Bool, ◌&&◌, not, List, ◌∷◌, Bool-cases, if◌then◌else◌,
}
use os_prioritypipes.Prelude.Sets.{◌∉◌}
use os_prioritypipes.Prelude.Results.{Returns, returns, bind}
use os_prioritypipes.Kalloc.Interface.{Allocator}
use os_prioritypipes.Pipe.{Pipe, shut_end, pipeclose}

-- whether no end is open any more
abbrev pub is_dead : Pipe → Bool
is_dead pi = not pi.readopen && not pi.writeopen

-- `pipeclose` shuts one end, does not panic, and frees the page of the pipe exactly if the other
-- end is shut already.
pub pipeclose-Free :
    (pages : Allocator) (p : ℕ) (pi : Pipe) (writable : Bool) (memory : pages.State) (xs : List ℕ)
    → pages.Valid p
    → p ∉ xs
    → pages.Free memory xs
    → Returns
        (λ r.
          (r.0 ≡ shut_end pi writable)
          × pages.Free r.1 (if is_dead (shut_end pi writable) then p ∷ xs else xs))
        (pipeclose pages p pi writable memory)
unfolding pipeclose
pipeclose-Free pages p pi writable memory xs valid fresh free =
    elim (Bool-cases (is_dead (shut_end pi writable))) [
      | inl dead ↦ rw dead (
          bind (pages.release_free p memory xs valid fresh free)
            λ memory' free'. returns (refl, free'))
      | inr live ↦ rw live (returns (refl, free))
    ]
