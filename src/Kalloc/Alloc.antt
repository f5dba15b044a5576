-- ===== src/Kalloc/Alloc.antt =====
-- kernel/mm/kalloc.c: what `kalloc` hands out, and when it fails.
use os2025_yyds.Common.{
  ℕ, zero, suc, ◌+◌, ◌/◌, ◌≤◌, ◌<◌, ◌≡◌, refl, sym, ap, ◌≢◌, ◌⊎◌, inl, inr, true, List, [], ◌∷◌,
  Option, none, some, arith, ◌==◌, if◌then◌else◌, update, total-update, total-eq_zero, count,
  List-cases, ℕ_discrete,
}
use os2025_yyds.Kalloc.{Kmem, pgsize, ncpu, is_page, pop_page, steal, find_page, kalloc, krefcnt}
use os2025_yyds.Kalloc.Invariant.{listed, IsExact}

-- What is left when the page `r` is taken from the front of one CPU's list.
abbrev popped : ℕ → ℕ → List ℕ → Kmem → Kmem
popped cpu r rest s = record s {
  freelist = update s.freelist cpu rest;
  cnt = update s.cnt (r / pgsize) 1;
}

pub record Pops (s : Kmem) (r : ℕ) (s' : Kmem) : Type 0 where
  pub cpu : ℕ
  pub rest : List ℕ
  pub on : cpu < ncpu
  pub was : s.freelist cpu ≡ r ∷ rest
  pub is : s' ≡ popped cpu r rest s

abbrev Takes : Kmem → Option (ℕ × Kmem) → Type 0
Takes s o = (r : ℕ) × (s' : Kmem) × (o ≡ some (r, s')) × Pops s r s'

pop_page-cases :
    (cpu : ℕ) (s : Kmem)
    → cpu < ncpu
    → ((pop_page cpu s ≡ none) × (s.freelist cpu ≡ [])) ⊎ Takes s (pop_page cpu s)
unfolding pop_page
pop_page-cases cpu s h = elim (List-cases (s.freelist cpu)) [
  | inl e ↦ inl (rw (e, pop_page) refl, e)
  | inr (r, rest, e) ↦ inr (
    r,
    popped cpu r rest s,
    rw (e, pop_page) refl,
    record { cpu = cpu; rest = rest; on = h; was = e; is = refl },
  )
]

steal-cases :
    (n antid id : ℕ) (s : Kmem)
    → antid + n ≤ ncpu
    → ((steal n antid id s ≡ none)
        × ((j : ℕ) → antid ≤ j → j < antid + n → j ≢ id → s.freelist j ≡ []))
      ⊎ Takes s (steal n antid id s)
unfolding steal
steal-cases zero antid id s h = inl (refl, λ j a b ne. absurd (omega arith))
steal-cases (suc n) antid id s h = elim (ℕ_discrete antid id) [
  | yes same ↦ elim (steal-cases n (antid + 1) id s (omega arith)) [
    | inl (e, all) ↦ inl (ground arith, λ j a b ne. all j (omega arith) (omega arith) ne)
    | inr (r, s', e, p) ↦ inr (r, s', ground arith, p)
  ]
  | no other ↦ elim (pop_page-cases antid s (omega arith)) [
    | inl (e, first) ↦ elim (steal-cases n (antid + 1) id s (omega arith)) [
      | inl (e', all) ↦ inl (
        ground arith,
        λ j a b ne. elim (ℕ_discrete antid j) [
          | yes at ↦ rw (← at) first
          | no past ↦ all j (omega arith) (omega arith) ne
        ],
      )
      | inr (r, s', e', p) ↦ inr (r, s', ground arith, p)
    ]
    | inr (r, s', e, p) ↦ inr (r, s', ground arith, p)
  ]
]

find_page-cases :
    (id : ℕ) (s : Kmem)
    → id < ncpu
    → ((find_page id s ≡ none) × ((j : ℕ) → j < ncpu → s.freelist j ≡ []))
      ⊎ Takes s (find_page id s)
unfolding find_page
find_page-cases id s h = elim (pop_page-cases id s h) [
  | inl (e, own) ↦ elim (steal-cases ncpu 0 id s (omega arith)) [
    | inl (e', all) ↦ inl (
      ground arith,
      λ j lt. elim (ℕ_discrete id j) [
        | yes at ↦ rw (← at) own
        | no ne ↦ all j (omega arith) (omega arith) (λ q. ne (sym q))
      ],
    )
    | inr (r, s', e', p) ↦ inr (r, s', ground arith, p)
  ]
  | inr (r, s', e, p) ↦ inr (r, s', ground arith, p)
]

listed-popped :
    (s : Kmem) (cpu r : ℕ) (rest : List ℕ)
    → cpu < ncpu
    → s.freelist cpu ≡ r ∷ rest
    → (q : ℕ) → listed (popped cpu r rest s) q + (if r == q then 1 else 0) ≡ listed s q
listed-popped s cpu r rest on was q =
    omega (arith, ap (count q) was, total-update (count q) ncpu s.freelist cpu rest on)

module _ (kernel_end : ℕ) where
  -- What an allocation of the page `r` leaves: `s` before and `s'` after.
  pub record Allocated (s : Kmem) (r : ℕ) (s' : Kmem) : Type 0 where
    pub page : is_page kernel_end r ≡ true
    pub was_free : krefcnt r s ≡ 0
    pub was_listed : listed s r ≡ 1
    pub unlisted : listed s' r ≡ 0
    pub counts : (q : ℕ) → krefcnt q s' ≡ (if q / pgsize == r / pgsize then 1 else krefcnt q s)
    pub exact : IsExact kernel_end s'

  Pops-Allocated :
      (s : Kmem) (r : ℕ) (s' : Kmem) (n : ℕ)
      → IsExact kernel_end s
      → Pops s r s'
      → Allocated s r (record s' { filled = update s'.filled r n })
  unfolding krefcnt
  Pops-Allocated s r s' n v p = rw p.is (record {
    page = ground (arith, moved r, v r);
    was_free = ground (arith, moved r, v r);
    was_listed = ground (arith, moved r, v r);
    unlisted = ground (arith, moved r, v r);
    counts = λ q. ground arith;
    exact = λ q. ground (arith, moved q, v q, moved r, v r);
  })
    where
      moved : (q : ℕ) → listed (popped p.cpu r p.rest s) q + (if r == q then 1 else 0) ≡ listed s q
      moved = listed-popped s p.cpu r p.rest p.on p.was

  -- While the free lists are exact, `kalloc` on one of the CPUs either fails, changes nothing, and
  -- no CPU has a page on its list; or it gives a page as `Allocated` says.
  pub kalloc-Allocated :
      (id : ℕ) (s : Kmem)
      → id < ncpu
      → IsExact kernel_end s
      → ((kalloc id s ≡ (none, s)) × ((pa : ℕ) → listed s pa ≡ 0))
        ⊎ ((r : ℕ) × (s' : Kmem) × (kalloc id s ≡ (some r, s')) × Allocated s r s')
  unfolding kalloc
  kalloc-Allocated id s h v = elim (find_page-cases id s h) [
    | inl (e, empty) ↦
        inl
          (rw e refl, λ pa. total-eq_zero (count pa) ncpu s.freelist (λ j lt. rw (empty j lt) refl))
    | inr (r, s', e, p) ↦ inr (r, _, rw e refl, Pops-Allocated s r s' 5 v p)
  ]
