-- ===== src/Slab/Free.antt =====
-- kernel/mm/slab.c: what `slab_free` does with an object.
use os2025_yyds.Common.{
  ℕ, ◌+◌, ◌*◌, ◌/◌, ◌≡◌, refl, ap, ◌⊎◌, inl, inr, true, false, ◌||◌, List, ◌∷◌, Option, none, some,
  arith, ◌==◌, if◌then◌else◌, length, done, Bool-cases, ==_refl, ==_iff, ◌&&◌,
}
use os2025_yyds.Kalloc.{pgsize}
use os2025_yyds.Slab.{
  SlabPage, Cache, Slab, find_cache_index, count_up, remove_page, replace_page, unfull, give_back,
  freed, slab_free,
}
use os2025_yyds.Slab.Invariant.{IsPartial, IsFull, IsCache, free_in}
use os2025_yyds.Slab.Pages.{
  one_at, free_at, on_list, remove_page-none, HasRoom, Splits, remove_page-Splits,
}

-- The cache has got the object back.
GivesBack : ℕ → ℕ → ℕ → Cache → Option Cache → Type 0
GivesBack i a ptr c o =
    (c' : Cache) × (o ≡ some c')
    × IsCache i c'
    × ((q : ℕ) → free_in q c' ≡ free_in q c + (if ptr == q then 1 else 0))
    × ((b q : ℕ) → free_at b q c' ≡ free_at b q c + (if a == b && ptr == q then 1 else 0))

give_back-GivesBack :
    (i a ptr : ℕ) (c : Cache) → HasRoom i a c → GivesBack i a ptr c (give_back a ptr c)
unfolding give_back GivesBack
give_back-GivesBack i a ptr c h = elim (Bool-cases (h.page.free_objs + 1 == h.page.total_objs)) [
  | inl e ↦ (
    record c { free_count = count_up c.free_count; partial = h.rest; empty = larger ∷ c.empty },
    rw (h.found, e, give_back) refl,
    record {
      size = h.size;
      partials = h.partials;
      fulls = h.fulls;
      empties = ((omega (arith, h.number), ground (arith, e), h.many), h.empties);
    },
    (λ q. omega (arith, h.counts q)),
    λ b q. omega (arith, h.places b q, grown b q),
  )
  | inr e ↦
      (let r =
          h.replaced larger (omega (arith, h.number), omega arith, ground (arith, e, h.room)) in
        (
          record c {
            free_count = count_up c.free_count;
            partial = replace_page a larger c.partial;
          },
          rw (h.found, e, give_back) refl,
          record { size = h.size; partials = r.0; fulls = h.fulls; empties = h.empties },
          (λ q. omega (arith, h.counts q, r.1 q)),
          λ b q. omega (arith, h.places b q, r.2 b q, grown b q),
        ))
]
  where
    larger : SlabPage
    larger = record (h.page) { freelist = ptr ∷ h.page.freelist; free_objs = h.page.free_objs + 1 }

    grown :
        (b q : ℕ) → one_at b q larger ≡ one_at b q h.page + (if a == b && ptr == q then 1 else 0)
    grown b q =
        let same : h.page.address ≡ a = (==_iff h.page.address a).0 h.at in
        rw same (elim (Bool-cases (a == b)) [ inl e ↦ rw e (omega arith) | inr e ↦ rw e refl ])

-- A page that was full comes to the front of `partial`.
unfull-HasRoom :
    (i a : ℕ) (c : Cache) (page : SlabPage) (rest : List SlabPage)
    → IsCache i c
    → Splits IsFull a c.full page rest
    → HasRoom i a (record c { full = rest; partial = page ∷ c.partial })
unfolding remove_page replace_page
unfull-HasRoom i a c page rest v s = record {
  page = page;
  rest = c.partial;
  found = rw (s.at, remove_page) refl;
  number = omega (arith, s.it.0, ap length s.it.1);
  room = omega (arith, s.it.0, s.it.2);
  many = s.it.2;
  size = v.size;
  partials = v.partials;
  fulls = s.others;
  empties = v.empties;
  counts = λ q. refl;
  at = s.at;
  places = λ b q. refl;
  replaced = λ new h. rw (s.at, replace_page) ((h, v.partials), (λ q. refl), λ b q. refl);
}

partial-HasRoom :
    (i a : ℕ) (c : Cache) (page : SlabPage) (rest : List SlabPage)
    → IsCache i c
    → remove_page a c.partial ≡ some (page, rest)
    → Splits IsPartial a c.partial page rest
    → HasRoom i a c
partial-HasRoom i a c page rest v found s = record {
  page = page;
  rest = rest;
  found = found;
  number = s.it.0;
  room = s.it.2;
  many = omega (arith, s.it.1, s.it.2);
  size = v.size;
  partials = s.others;
  fulls = v.fulls;
  empties = v.empties;
  counts = s.counts;
  at = s.at;
  places = s.places;
  replaced = s.replaced;
}

-- The address is found on neither list, or the object comes back to the cache.
release-cases :
    (i a ptr : ℕ) (c : Cache)
    → IsCache i c
    → ((give_back a ptr (unfull a c) ≡ none) × ((on_list a c.full || on_list a c.partial) ≡ false))
      ⊎ (((on_list a c.full || on_list a c.partial) ≡ true)
          × GivesBack i a ptr c (give_back a ptr (unfull a c)))
unfolding unfull GivesBack give_back
release-cases i a ptr c v = elim (remove_page-Splits IsFull a c.full v.fulls) [
  | inr (page, rest, found, s) ↦
      (let (c', e, w, n, m) = give_back-GivesBack i a ptr _ (unfull-HasRoom i a c page rest v s) in
        inr (
          rw s.listed refl,
          (
            c',
            rw (found, unfull) e,
            w,
            (λ q. omega (arith, n q, s.counts q)),
            λ b q. omega (arith, m b q, s.places b q),
          ),
        ))
  | inl out ↦ elim (remove_page-Splits IsPartial a c.partial v.partials) [
    | inl nowhere ↦ inl (
      rw (out, unfull, nowhere, give_back) refl,
      rw (remove_page-none a c.full out, remove_page-none a c.partial nowhere) refl,
    )
    | inr (page, rest, found, s) ↦
        (let (c', e, w, n, m) =
            give_back-GivesBack i a ptr c (partial-HasRoom i a c page rest v found s) in
          inr
            (rw (remove_page-none a c.full out, s.listed) refl, (c', rw (out, unfull) e, w, n, m)))
  ]
]

-- What a release into the cache `i` leaves: the object is free once more.
pub record Freed (i ptr : ℕ) (s t : Slab) : Type 0 where
  pub well : IsCache i (t.caches i)
  pub others : (j : ℕ) → (i == j) ≡ false → t.caches j ≡ s.caches j
  pub counts :
      (q : ℕ) → free_in q (t.caches i) ≡ free_in q (s.caches i) + (if ptr == q then 1 else 0)
  pub places :
      (b q : ℕ)
      → free_at b q (t.caches i)
        ≡ free_at b q (s.caches i) + (if ptr / pgsize * pgsize == b && ptr == q then 1 else 0)

-- For a pointer that is not 0, a size that a cache serves, and a well-formed cache: `slab_free` ends.
-- Either the page of the pointer is on neither the list of the full nor that of the partial pages of
-- the cache, and nothing changes; or the page is on one of them, the object is free once more on the
-- page of its address and on no other, no other object of the cache changes, the cache stays well
-- formed and the other caches are as before.
pub slab_free-Freed :
    (kernel_end id ptr size i : ℕ) (s : Slab)
    → (ptr == 0) ≡ false
    → find_cache_index size ≡ some i
    → IsCache i (s.caches i)
    → let a = ptr / pgsize * pgsize in
      let c = s.caches i in
      ((slab_free kernel_end id ptr size s ≡ done s)
        × ((on_list a c.full || on_list a c.partial) ≡ false))
      ⊎ ((t : Slab) × (slab_free kernel_end id ptr size s ≡ done t)
          × ((on_list a c.full || on_list a c.partial) ≡ true)
          × Freed i ptr s t)
unfolding slab_free GivesBack
slab_free-Freed kernel_end id ptr size i s ne index v =
    elim (release-cases i (ptr / pgsize * pgsize) ptr (s.caches i) v) [
      | inl (out, nowhere) ↦ inl (rw (ne, index, out, slab_free) refl, nowhere)
      | inr (listed, (c', e, w, n, m)) ↦ inr (
        freed i c' s,
        rw (ne, index, e, slab_free) refl,
        listed,
        record {
          well = rw (==_refl i) w;
          others = λ j apart. rw apart refl;
          counts = λ q. rw (==_refl i) (n q);
          places = λ b q. rw (==_refl i) (m b q);
        },
      )
    ]
