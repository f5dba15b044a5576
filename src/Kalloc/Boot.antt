-- ===== src/Kalloc/Boot.antt =====
-- kernel/mm/kalloc.c: `kinit` and `freerange`, and the amount of free memory that `freebytes` finds.
use os2025_yyds.Common.{
  ℕ, zero, suc, ◌+◌, ◌-◌, ◌*◌, ◌%◌, ◌/◌, ◌^◌, ◌≤◌, ◌<◌, ◌≡◌, refl, ◌∙◌, inl, inr, true, false, List,
  [], ◌∷◌, arith, leb, update, total, total-update, total-eq_zero, count, length, Outcome, done,
  Bool-cases, gt→leb,
}
use os2025_yyds.Kalloc.{
  Kmem, pgsize, ncpu, phystop, pg_round_up, is_page, drop_page, kfree, free_pages, freerange, boot,
  kinit, add_list, add_lists, freebytes,
}
use os2025_yyds.Kalloc.Invariant.{ExactBelow, IsExact, drop_page-ExactBelow}

-- The pages on all lists.
abbrev pub pages : Kmem → ℕ
pages s = total length ncpu s.freelist

add_list-length :
    (dst : ℕ) (l : List ℕ) → add_list dst l % 2 ^ 64 ≡ (dst + length l * pgsize) % 2 ^ 64
unfolding add_list
add_list-length dst [] = omega arith
add_list-length dst (r ∷ rest) = omega (arith, add_list-length ((dst + pgsize) % 2 ^ 64) rest)

add_lists-total :
    (n : ℕ) (s : Kmem) → add_lists n s % 2 ^ 64 ≡ (total length n s.freelist * pgsize) % 2 ^ 64
unfolding add_lists total
add_lists-total zero s = refl
add_lists-total (suc n) s =
    omega (arith, add_lists-total n s, add_list-length (add_lists n s) (s.freelist n))

add_list-lt : (dst : ℕ) (l : List ℕ) → dst < 2 ^ 64 → add_list dst l < 2 ^ 64
unfolding add_list
add_list-lt dst [] h = h
add_list-lt dst (r ∷ rest) h = add_list-lt ((dst + pgsize) % 2 ^ 64) rest (omega arith)

add_lists-lt : (n : ℕ) (s : Kmem) → add_lists n s < 2 ^ 64
unfolding add_lists
add_lists-lt zero s = omega arith
add_lists-lt (suc n) s = add_list-lt (add_lists n s) (s.freelist n) (add_lists-lt n s)

-- `freebytes` gives the size of all listed pages.
pub freebytes-pages : (s : Kmem) → freebytes s ≡ pages s * pgsize % 2 ^ 64
unfolding freebytes
freebytes-pages s = omega (arith, add_lists-lt 8 s, add_lists-total 8 s)

module _ (kernel_end : ℕ) where
  abbrev claimed : ℕ → Kmem → Kmem
  claimed p s = record s { cnt = update s.cnt (p / pgsize) 1 }

  -- One round of `freerange`, at an aligned `p`, extends the exact part by one page.
  round-ExactBelow :
      (id p : ℕ) (s : Kmem)
      → id < ncpu
      → is_page kernel_end p ≡ true
      → ExactBelow kernel_end p s
      → ExactBelow kernel_end (p + pgsize) (drop_page id p (claimed p s))
  round-ExactBelow id p s h page v =
      drop_page-ExactBelow kernel_end id p (p + pgsize) (claimed p s) h page (omega arith)
        (ground arith) (λ q. ground (arith, v q))

  round-pages :
      (id p : ℕ) (s : Kmem) → id < ncpu → pages (drop_page id p (claimed p s)) ≡ pages s + 1
  unfolding drop_page
  round-pages id p s h =
      ground (arith, total-update length ncpu s.freelist id (p ∷ s.freelist id) h)

  -- What `freerange` is to leave, started at `p` from `s`.
  record Freed (p : ℕ) (s : Kmem) (out : Outcome Kmem) : Type 0 where
    last : Kmem
    ended : out ≡ done last
    exact : IsExact kernel_end last
    number : pages last ≡ pages s + (phystop - p) / pgsize

  free_pages-more :
      (f id p : ℕ) (s : Kmem)
      → is_page kernel_end p ≡ true
      → leb (p + pgsize) phystop ≡ true
      → free_pages kernel_end (suc f) id p phystop s
        ≡ free_pages kernel_end f id (p + pgsize) phystop (drop_page id p (claimed p s))
  unfolding free_pages kfree
  free_pages-more f id p s page more = rw (more, page) refl

  free_pages-stop :
      (f id p : ℕ) (s : Kmem)
      → leb (p + pgsize) phystop ≡ false
      → p % pgsize ≡ 0
      → ExactBelow kernel_end p s
      → Freed p s (free_pages kernel_end (suc f) id p phystop s)
  unfolding free_pages
  free_pages-stop f id p s stop al v = record {
    last = s;
    ended = rw stop refl;
    exact = λ q. ground (arith, v q);
    number = ground arith;
  }

  free_pages-Freed :
      (f id p : ℕ) (s : Kmem)
      → id < ncpu
      → kernel_end ≤ p
      → p % pgsize ≡ 0
      → phystop < p + pgsize * suc f
      → ExactBelow kernel_end p s
      → Freed p s (free_pages kernel_end (suc f) id p phystop s)
  free_pages-Freed zero id p s h lo al enough v =
      free_pages-stop 0 id p s (gt→leb _ _ (omega arith)) al v
  free_pages-Freed (suc f) id p s h lo al enough v = elim (Bool-cases (leb (p + pgsize) phystop)) [
    | inl more ↦
        let page : is_page kernel_end p ≡ true = ground arith in
        let next = drop_page id p (claimed p s) in
        let rest =
          free_pages-Freed f id (p + pgsize) next h (omega arith) (omega arith) (omega arith)
            (round-ExactBelow id p s h page v) in
        record {
          last = rest.last;
          ended = free_pages-more (suc f) id p s page more ∙ rest.ended;
          exact = rest.exact;
          number = ground (arith, rest.number, round-pages id p s h);
        }
    | inr stop ↦ free_pages-stop (suc f) id p s stop al v
  ]

  -- `kinit` on one of the CPUs ends without a panic and within its fuel, leaves the free lists
  -- exact, and `freebytes` then gives the size of the memory from the rounded end of the kernel to
  -- PHYSTOP.
  pub kinit-IsExact :
      (id : ℕ)
      → id < ncpu
      → (s : Kmem) × (kinit kernel_end id ≡ done s)
        × IsExact kernel_end s
        × (freebytes s ≡ phystop - pg_round_up kernel_end)
  unfolding kinit freerange
  kinit-IsExact id h =
      let start = pg_round_up kernel_end in
      let r =
        free_pages-Freed (phystop / pgsize) id start boot h (omega arith) (omega arith)
          (omega arith)
          (λ q. ground (arith, total-eq_zero (count q) ncpu boot.freelist (λ i lt. refl))) in
      (
        r.last,
        r.ended,
        r.exact,
        omega (
          arith,
          r.number,
          freebytes-pages r.last,
          total-eq_zero length ncpu boot.freelist (λ i lt. refl),
        ),
      )
