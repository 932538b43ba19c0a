-- ===== src/Vm/Copy.antt =====
-- kernel/vm.c: the copies between kernel and user against copies of one byte after the other.
use os_prioritypipes.Prelude.{
  ℕ, zero, suc, ◌+◌, ◌-◌, ◌*◌, ◌/◌, ◌%◌, ◌≤◌, ◌<◌, ◌≡◌, refl, sym, ap, ◌∙◌, ◌⊎◌, inl, inr, Bool,
  true, false, List, [], ◌∷◌, ◌++◌, ◌==◌, leb, ltb, min, if◌then◌else◌, Bool-cases, arith,
}
use os_prioritypipes.Prelude.Results.{ok}
use os_prioritypipes.Kalloc.Interface.{Allocator}
use os_prioritypipes.Vm.{Vm}
use os_prioritypipes.Vm.Pte.{maxva, px}
use os_prioritypipes.Vm.Lookup.{user_page, walkaddr-user_page}
use os_prioritypipes.Vm.User.{read, read_string, copyin_from, copyin, copyinstr_from, copyinstr}

module _ (pages : Allocator) (aligned : (p : ℕ) → pages.Valid p → p % 4096 ≡ 0) where
  -- The addresses of a page have one entry.
  same_entry :
      (root u v : ℕ) (s : Vm pages)
      → u / 4096 ≡ v / 4096
      → user_page pages aligned root u s ≡ user_page pages aligned root v s
  same_entry root u v s same =
      let e2 : px 2 u ≡ px 2 v = omega (arith, same) in
      let e1 : px 1 u ≡ px 1 v = omega (arith, same) in
      let e0 : px 0 u ≡ px 0 v = omega (arith, same) in
      let beyond : leb maxva u ≡ leb maxva v = ground (arith, same) in rw (e2, e1, e0, beyond) refl

  -- One byte after the other, as far as the addresses are mapped for the user.
  abbrev pub bytes_at : ℕ → ℕ → ℕ → (ℕ → ℕ) → Vm pages → Bool × List ℕ
  bytes_at root va zero bytes s = (true, [])
  bytes_at root va (suc n) bytes s =
      let page = user_page pages aligned root va s in
      let (all, rest) = bytes_at root (va + 1) n bytes s in
      if page == 0 then (false, []) else (all, bytes (page + va % 4096) ∷ rest)

  -- the same up to a null byte
  abbrev pub string_at : ℕ → ℕ → ℕ → (ℕ → ℕ) → Vm pages → Bool × List ℕ
  string_at root va zero bytes s = (false, [])
  string_at root va (suc n) bytes s =
      let page = user_page pages aligned root va s in
      let b = bytes (page + va % 4096) in
      let (ended, rest) = string_at root (va + 1) n bytes s in
      if page == 0 then (false, []) else if b == 0 then (true, 0 ∷ []) else (ended, b ∷ rest)

  -- the bytes from one page, and those after it
  bytes_at-page :
      (n m len va va0 next q page root : ℕ) (bytes : ℕ → ℕ) (s : Vm pages)
      → len ≡ n + m
      → (m ≡ 0) ⊎ (next ≡ va + n)
      → va0 % 4096 ≡ 0
      → va0 ≤ va
      → va + n ≤ va0 + 4096
      → user_page pages aligned root va0 s ≡ page
      → (page == 0) ≡ false
      → q ≡ page + (va - va0)
      → bytes_at root va len bytes s
        ≡ ((bytes_at root next m bytes s).0, read bytes q n ++ (bytes_at root next m bytes s).1)
  bytes_at-page zero m len va va0 next q page root bytes s el (inl over) al lo hi e some_page eq =
      let el' : len ≡ 0 = omega (arith, el, over) in rw (el', over) refl
  bytes_at-page zero m len va va0 next q page root bytes s el (inr follows) al lo hi e some_page
        eq =
      let el' : len ≡ m = omega (arith, el) in
      let en' : next ≡ va = omega (arith, follows) in rw (el', en') refl
  bytes_at-page (suc n) m len va va0 next q page root bytes s el en al lo hi e some_page eq =
      let el' : len ≡ suc (n + m) = omega (arith, el) in
      let here : user_page pages aligned root va s ≡ page =
        same_entry root va va0 s (omega (arith, al, lo, hi)) ∙ e in
      let place : page + va % 4096 ≡ q = omega (arith, al, lo, hi, eq) in
      let rest =
        bytes_at-page n m (n + m) (va + 1) va0 next (q + 1) page root bytes s refl
          (ground (arith, en)) al (omega (arith, lo)) (omega (arith, hi)) e some_page
          (omega (arith, eq, lo)) in
      rw (el', here, some_page, place, rest) refl

  string_at-page :
      (n m len va va0 next q page root : ℕ) (bytes : ℕ → ℕ) (s : Vm pages)
      → len ≡ n + m
      → (m ≡ 0) ⊎ (next ≡ va + n)
      → va0 % 4096 ≡ 0
      → va0 ≤ va
      → va + n ≤ va0 + 4096
      → user_page pages aligned root va0 s ≡ page
      → (page == 0) ≡ false
      → q ≡ page + (va - va0)
      → string_at root va len bytes s ≡ (
          let r = read_string bytes q n in
          if r.0
          then (true, r.1)
          else ((string_at root next m bytes s).0, r.1 ++ (string_at root next m bytes s).1))
  string_at-page zero m len va va0 next q page root bytes s el (inl over) al lo hi e some_page eq =
      let el' : len ≡ 0 = omega (arith, el, over) in rw (el', over) refl
  string_at-page zero m len va va0 next q page root bytes s el (inr follows) al lo hi e some_page
        eq =
      let el' : len ≡ m = omega (arith, el) in
      let en' : next ≡ va = omega (arith, follows) in rw (el', en') refl
  string_at-page (suc n) m len va va0 next q page root bytes s el en al lo hi e some_page eq =
      let el' : len ≡ suc (n + m) = omega (arith, el) in
      let here : user_page pages aligned root va s ≡ page =
        same_entry root va va0 s (omega (arith, al, lo, hi)) ∙ e in
      let place : page + va % 4096 ≡ q = omega (arith, al, lo, hi, eq) in
      let rest =
        string_at-page n m (n + m) (va + 1) va0 next (q + 1) page root bytes s refl
          (ground (arith, en)) al (omega (arith, lo)) (omega (arith, hi)) e some_page
          (omega (arith, eq, lo)) in
      elim (Bool-cases (bytes q == 0)) [
        | inl null ↦ rw (el', here, some_page, place, null) refl
        | inr other ↦ elim (Bool-cases (read_string bytes (q + 1) n).0) [
          | inl later ↦ rw (el', here, some_page, place, other, rest, later) refl
          | inr not_yet ↦ rw (el', here, some_page, place, other, rest, not_yet) refl
        ]
      ]

  -- The rounds after the first begin at the next page, if there are any.
  pub next_page :
      (va len : ℕ)
      → let n = min (4096 - (va - va / 4096 * 4096)) (suc len) in
        ((suc len - n ≡ 0) ⊎ (va / 4096 * 4096 + 4096 ≡ va + n))
  next_page va len = elim (Bool-cases (ltb (suc len) (4096 - (va - va / 4096 * 4096)))) [
    | inl short ↦ inl (ground (arith, short))
    | inr long ↦ inr (ground (arith, long))
  ]

  copyin_from_lem :
      (rounds root va len : ℕ) (bytes : ℕ → ℕ) (s : Vm pages)
      → len < rounds
      → copyin_from pages rounds root va len bytes s ≡ ok (bytes_at root va len bytes s)
  unfolding copyin_from
  copyin_from_lem zero root va len bytes s lt = absurd (omega (arith, lt))
  copyin_from_lem (suc rounds) root va zero bytes s lt = refl
  copyin_from_lem (suc rounds) root va (suc len) bytes s lt =
      let va0 = va / 4096 * 4096 in
      let n = min (4096 - (va - va0)) (suc len) in
      let page = user_page pages aligned root va0 s in
      let some_bytes : (suc len == 0) ≡ false = ground arith in
      elim (Bool-cases (page == 0)) [
        | inl unmapped ↦
            let here : user_page pages aligned root va s ≡ page =
              same_entry root va va0 s (omega arith) in
            rw (some_bytes, walkaddr-user_page pages aligned root va0 s, unmapped, here, unmapped)
              refl
        | inr mapped ↦
            let rest =
              copyin_from_lem rounds root (va0 + 4096) (suc len - n) bytes s (omega (arith, lt)) in
            let next = va0 + 4096 in
            let round : copyin_from pages (suc rounds) root va (suc len) bytes s
                ≡ ok (
                  (bytes_at root next (suc len - n) bytes s).0,
                  read bytes (page + (va - va0)) n ++ (bytes_at root next (suc len - n) bytes s).1,
                ) =
              rw (some_bytes, walkaddr-user_page pages aligned root va0 s, mapped, rest) refl in
            round
            ∙ sym (
                ap ok (
                  bytes_at-page n (suc len - n) (suc len) va va0 next (page + (va - va0)) page root
                    bytes s (omega arith) (next_page va len) (omega arith) (omega arith)
                    (omega arith) refl mapped refl))
      ]

  -- `copyin` of any length copies byte after byte, up to the first address that is not mapped for the
  -- user, and returns 0 if there is none among them; what it copies before is the part of the bytes
  -- on the pages before.
  pub copyin-bytes_at :
      (root va len : ℕ) (bytes : ℕ → ℕ) (s : Vm pages)
      → copyin pages root va len bytes s ≡ ok (bytes_at root va len bytes s)
  unfolding copyin
  copyin-bytes_at root va len bytes s = copyin_from_lem (len + 1) root va len bytes s (omega arith)

  copyinstr_from_lem :
      (rounds root va len : ℕ) (bytes : ℕ → ℕ) (s : Vm pages)
      → len < rounds
      → copyinstr_from pages rounds root va len bytes s ≡ ok (string_at root va len bytes s)
  unfolding copyinstr_from
  copyinstr_from_lem zero root va len bytes s lt = absurd (omega (arith, lt))
  copyinstr_from_lem (suc rounds) root va zero bytes s lt = refl
  copyinstr_from_lem (suc rounds) root va (suc len) bytes s lt =
      let va0 = va / 4096 * 4096 in
      let n = min (4096 - (va - va0)) (suc len) in
      let page = user_page pages aligned root va0 s in
      let some_bytes : (suc len == 0) ≡ false = ground arith in
      elim (Bool-cases (page == 0)) [
        | inl unmapped ↦
            let here : user_page pages aligned root va s ≡ page =
              same_entry root va va0 s (omega arith) in
            rw (some_bytes, walkaddr-user_page pages aligned root va0 s, unmapped, here, unmapped)
              refl
        | inr mapped ↦
            let next = va0 + 4096 in
            let rest =
              copyinstr_from_lem rounds root next (suc len - n) bytes s (omega (arith, lt)) in
            let chunk = read_string bytes (page + (va - va0)) n in
            let tail = string_at root next (suc len - n) bytes s in
            let round : copyinstr_from pages (suc rounds) root va (suc len) bytes s
                ≡ ok (if chunk.0 then (true, chunk.1) else (tail.0, chunk.1 ++ tail.1)) =
              elim (Bool-cases chunk.0) [
                | inl null ↦
                    rw (some_bytes, walkaddr-user_page pages aligned root va0 s, mapped, null) refl
                | inr no_null ↦
                    rw
                      (
                        some_bytes,
                        walkaddr-user_page pages aligned root va0 s,
                        mapped,
                        no_null,
                        rest,
                      )
                      refl
              ] in
            round
            ∙ sym (
                ap ok (
                  string_at-page n (suc len - n) (suc len) va va0 next (page + (va - va0)) page root
                    bytes s (omega arith) (next_page va len) (omega arith) (omega arith)
                    (omega arith) refl mapped refl))
      ]

  -- `copyinstr` copies byte after byte up to the first null byte, and fails at the first address
  -- before that is not mapped for the user, or after `max` bytes.
  pub copyinstr-string_at :
      (root va max : ℕ) (bytes : ℕ → ℕ) (s : Vm pages)
      → copyinstr pages root va max bytes s ≡ ok (string_at root va max bytes s)
  unfolding copyinstr
  copyinstr-string_at root va max bytes s =
      copyinstr_from_lem (max + 1) root va max bytes s (omega arith)
