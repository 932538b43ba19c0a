-- ===== src/Kalloc/Interface.antt =====
-- What the rest of the kernel may rely on in kernel/kalloc.c, and the proof that it holds there.
use os_prioritypipes.Prelude.{ℕ, ◌<◌, ◌≡◌, ◌≢◌, List, [], ◌∷◌}
use os_prioritypipes.Prelude.Sets.{◌∉◌}
use os_prioritypipes.Prelude.Results.{Result, Returns}
use os_prioritypipes.Kalloc.{Kmem, kfree, kalloc}
use os_prioritypipes.Kalloc.FreeList.{IsPage, FreeList, kfree-FreeList, kalloc-cons, kalloc-nil}

-- `Free s xs`: the pages `xs` are free in `s`, and will be handed out in this order.
pub record Allocator : Type 1 where
  pub State : Type 0
  pub alloc : State → ℕ × State
  pub release : ℕ → State → Result State
  pub Valid : ℕ → Type 0
  pub Free : State → List ℕ → Type 0
  pub alloc_cons :
      (s : State) (x : ℕ) (xs : List ℕ)
      → Free s (x ∷ xs)
      → ((alloc s).0 ≡ x) × (x ≢ 0) × Valid x × (x ∉ xs) × Free (alloc s).1 xs
  pub alloc_nil : (s : State) → Free s [] → alloc s ≡ (0, s)
  pub release_free :
      (p : ℕ) (s : State) (xs : List ℕ)
      → Valid p
      → p ∉ xs
      → Free s xs
      → Returns (λ s'. Free s' (p ∷ xs)) (release p s)

abbrev pub kernel_pages : (kend : ℕ) → 0 < kend → Allocator
kernel_pages kend pos = record {
  State = Kmem;
  alloc = kalloc;
  release = kfree kend;
  Valid = IsPage kend;
  Free = FreeList kend;
  alloc_cons = kalloc-cons kend;
  alloc_nil = kalloc-nil kend;
  release_free = λ p s xs. kfree-FreeList kend p s xs pos;
}
