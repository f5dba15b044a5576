-- ===== src/Kalloc/Invariant.antt =====
-- kernel/mm/kalloc.c: which pages are on the free lists, and how often.
use os2025_yyds.Common.{
  ℕ, ◌+◌, ◌-◌, ◌^◌, ◌/◌, ◌<◌, ◌≡◌, refl, ◌≢◌, true, ◌&&◌, List, ◌∷◌, arith, ltb, ◌==◌,
  if◌then◌else◌, update, total, total-update, count, done,
}
use os2025_yyds.Kalloc.{Kmem, pgsize, ncpu, int_dec, is_page, krefcnt, drop_page, kfree, kaddrefcnt}

-- How often an address stands on the free lists, all CPUs together.
abbrev pub listed : Kmem → ℕ → ℕ
listed s pa = total (count pa) ncpu s.freelist

module _ (kernel_end : ℕ) where
  -- A page below `p` is listed once if its count is 0, and no other address is listed.
  abbrev pub ExactBelow : ℕ → Kmem → Type 0
  ExactBelow p s =
      (pa : ℕ)
      → listed s pa
        ≡ (if is_page kernel_end pa && (ltb pa p && s.cnt (pa / pgsize) == 0) then 1 else 0)

  -- A page is on exactly one free list, once, exactly when its count is 0.
  abbrev pub IsExact : Kmem → Type 0
  IsExact s =
      (pa : ℕ) → listed s pa ≡ (if is_page kernel_end pa && s.cnt (pa / pgsize) == 0 then 1 else 0)

  listed-push :
      (id pa q : ℕ) (f : ℕ → List ℕ)
      → id < ncpu
      → total (count q) ncpu (update f id (pa ∷ f id))
        ≡ total (count q) ncpu f + (if pa == q then 1 else 0)
  listed-push id pa q f h = omega (arith, total-update (count q) ncpu f id (pa ∷ f id) h)

  listed-drop_page :
      (id pa : ℕ) (s : Kmem) (q : ℕ)
      → id < ncpu
      → listed (drop_page id pa s) q
        ≡ listed s q + (if int_dec (s.cnt (pa / pgsize)) == 0 && pa == q then 1 else 0)
  unfolding drop_page
  listed-drop_page id pa s q h = ground (arith, listed-push id pa q s.freelist h)

  pub drop_page-ExactBelow :
      (id pa p : ℕ) (s : Kmem)
      → id < ncpu
      → is_page kernel_end pa ≡ true
      → pa < p
      → s.cnt (pa / pgsize) ≢ 0
      → ExactBelow p s
      → ExactBelow p (drop_page id pa s)
  unfolding drop_page
  drop_page-ExactBelow id pa p s h page lt ne v q =
      ground (arith, v q, v pa, listed-drop_page id pa s q h)

  -- While the free lists are exact, `kfree` of a page whose count is a positive number below 2 ^ 32
  -- succeeds, takes one from the count of that page alone, and leaves the free lists exact.
  pub kfree-IsExact :
      (id pa : ℕ) (s : Kmem)
      → id < ncpu
      → is_page kernel_end pa ≡ true
      → krefcnt pa s ≢ 0
      → krefcnt pa s < 2 ^ 32
      → IsExact s
      → (s' : Kmem) × (kfree kernel_end id pa s ≡ done s')
        × IsExact s'
        × ((q : ℕ)
            → krefcnt q s' ≡ (if q / pgsize == pa / pgsize then krefcnt pa s - 1 else krefcnt q s))
  unfolding kfree krefcnt drop_page
  kfree-IsExact id pa s h page ne small v = (
    drop_page id pa s,
    rw page refl,
    λ q. ground (arith, v q, v pa, listed-drop_page id pa s q h),
    λ q. ground arith,
  )

  -- While the free lists are exact, `kaddrefcnt` of a page whose count is positive and below
  -- 2 ^ 32 - 1 succeeds, adds one to the count of that page alone, and leaves the lists exact.
  kaddrefcnt-IsExact :
      (pa : ℕ) (s : Kmem)
      → is_page kernel_end pa ≡ true
      → krefcnt pa s ≢ 0
      → krefcnt pa s + 1 < 2 ^ 32
      → IsExact s
      → let (b, s') = kaddrefcnt kernel_end pa s in
        (b ≡ true)
        × IsExact s'
        × ((q : ℕ)
            → krefcnt q s' ≡ (if q / pgsize == pa / pgsize then krefcnt pa s + 1 else krefcnt q s))
  unfolding kaddrefcnt krefcnt
  kaddrefcnt-IsExact pa s page ne small v =
      (rw page refl, λ q. ground (arith, v q, v pa), λ q. ground arith)
