-- ===== src/Kalloc/Owners.antt =====
-- kernel/kalloc.c under a history of calls, by callers that free only pages they hold.
use os_prioritypipes.Prelude.{
  ℕ, ◌+◌, ◌<◌, ◌≡◌, false, inl, inr, List, [], ◌∷◌, arith, All, ◌==◌, if◌then◌else◌, Bool-cases,
  length,
}
use os_prioritypipes.Prelude.Sets.{
  has, ◌∈◌, ◌∉◌, Distinct, remove, not-mem-remove, not-mem-remove_self, remove-Distinct,
}
use os_prioritypipes.Prelude.Results.{Result, ok, ◌>>=◌, Returns, returns, bind}
use os_prioritypipes.Kalloc.{Kmem, kfree, kalloc}
use os_prioritypipes.Kalloc.FreeList.{IsPage, FreeList, kfree-FreeList, kalloc-cons, kalloc-nil}

-- the allocator, and the pages that its callers hold
pub record Owners : Type 0 where
  pub mem : Kmem
  pub held : List ℕ

pub data Call : Type 0 where
  takes : Call
  frees : ℕ → Call

taken : List ℕ → ℕ × Kmem → Owners
taken held (p, m) =
    if p == 0 then record { mem = m; held = held } else record { mem = m; held = p ∷ held }

pub call : ℕ → Owners → Call → Result Owners
unfolding taken
call kend o takes = ok (taken o.held (kalloc o.mem))
call kend o (frees p) =
    if has p o.held
    then (kfree kend p o.mem >>= λ m. ok (record { mem = m; held = remove p o.held }))
    else ok o

pub calls : ℕ → Owners → List Call → Result Owners
calls kend o [] = ok o
calls kend o (c ∷ cs) = call kend o c >>= λ o'. calls kend o' cs

-- No page is twice on the free list, twice held, or free and held at once, and together they
-- are `total` pages.
pub record Split (kend total : ℕ) (o : Owners) : Type 0 where
  pub free : List ℕ
  pub free_list : FreeList kend o.mem free
  pub held_distinct : Distinct o.held
  pub held_pages : All (IsPage kend) o.held
  pub apart : (a : ℕ) → a ∈ o.held → a ∉ free
  pub all_there : length free + length o.held ≡ total

length-remove : (p : ℕ) (xs : List ℕ) → p ∈ xs → length (remove p xs) + 1 ≡ length xs
length-remove p [] h = cc
length-remove p (x ∷ xs) h = ground (arith, length-remove p xs)

All-IsPage : (kend p : ℕ) (xs : List ℕ) → All (IsPage kend) xs → p ∈ xs → IsPage kend p
All-IsPage kend p [] h i = cc
All-IsPage kend p (x ∷ xs) h i = ground (arith, All-IsPage kend p xs)

All-remove : (kend p : ℕ) (xs : List ℕ) → All (IsPage kend) xs → All (IsPage kend) (remove p xs)
All-remove kend p [] h = tt
All-remove kend p (x ∷ xs) h = ground (arith, All-remove kend p xs)

takes-Split :
    (kend total : ℕ) (o : Owners) (free : List ℕ)
    → FreeList kend o.mem free
    → Distinct o.held
    → All (IsPage kend) o.held
    → ((a : ℕ) → a ∈ o.held → a ∉ free)
    → length free + length o.held ≡ total
    → Split kend total (taken o.held (kalloc o.mem))
unfolding taken
takes-Split kend total o [] f d h ap n = rw (kalloc-nil kend o.mem f) (record {
  free = [];
  free_list = f;
  held_distinct = d;
  held_pages = h;
  apart = ap;
  all_there = n;
})
takes-Split kend total o (x ∷ xs) f d h ap n =
    let (e, nz, page, out, f') = kalloc-cons kend o.mem x xs f in
    let test : (x == 0) ≡ false = ground arith in
    rw (e, taken, test)
      (record {
        free = xs;
        free_list = f';
        held_distinct = ground (arith, ap x);
        held_pages = (page, h);
        apart = λ a i. ground (arith, ap a);
        all_there = omega arith;
      })

call-Split :
    (kend total : ℕ) (o : Owners) (c : Call)
    → 0 < kend
    → Split kend total o
    → Returns (Split kend total) (call kend o c)
unfolding call
call-Split kend total o takes pos s =
    returns
      (takes-Split kend total o s.free s.free_list s.held_distinct s.held_pages s.apart s.all_there)
call-Split kend total o (frees p) pos s = elim (Bool-cases (has p o.held)) [
  | inl held ↦ rw held (
      bind
        (kfree-FreeList kend p o.mem s.free pos (All-IsPage kend p o.held s.held_pages held)
          (s.apart p held) s.free_list)
        λ m f. returns (record {
          free = p ∷ s.free;
          free_list = f;
          held_distinct = remove-Distinct p o.held s.held_distinct;
          held_pages = All-remove kend p o.held s.held_pages;
          apart = λ a i. ground (
            arith,
            not-mem-remove a p o.held,
            not-mem-remove_self p o.held s.held_distinct,
            s.apart a,
          );
          all_there = omega (arith, length-remove p o.held held, s.all_there);
        }))
  | inr other ↦ rw other (returns s)
]

-- Whatever pages the callers take, and whichever of those they hold they free, in any order: no
-- call panics, no page is handed out twice or lost, and every page that is held is an aligned page
-- of the managed range.
pub calls-Split :
    (kend total : ℕ) (cs : List Call) (o : Owners)
    → 0 < kend
    → Split kend total o
    → Returns (Split kend total) (calls kend o cs)
unfolding calls
calls-Split kend total [] o pos s = returns s
calls-Split kend total (c ∷ cs) o pos s =
    bind (call-Split kend total o c pos s) λ o' s'. calls-Split kend total cs o' pos s'
