-- ===== src/Slab/Alloc.antt =====
-- kernel/mm/slab.c: what `slab_alloc` gives.
use os2025_yyds.Common.{
  ℕ, ◌+◌, ◌-◌, ◌≤◌, ◌<◌, ◌≡◌, refl, ap, subst, ◌⊎◌, inl, inr, Bool, true, false, List, [], ◌∷◌,
  Option, none, some, arith, ◌==◌, if◌then◌else◌, length, count, All, done, Bool-cases, List-cases,
  Option-cases, ==_refl,
}
use os2025_yyds.Kalloc.{Kmem, kalloc}
use os2025_yyds.Slab.{
  SlabPage, Cache, Slab, slab_page_at, find_cache_index, find_slab, take_obj, count_up, allocated,
  slab_alloc,
}
use os2025_yyds.Slab.Invariant.{IsPartial, IsEmpty, IsCache, objs, free_in, slab_page_at-IsEmpty}

-- A page with an object to give, and not less than two in all.
HasObj : SlabPage → Type 0
HasObj sp =
    (sp.free_objs ≡ length sp.freelist)
    × (0 < sp.free_objs)
    × (sp.free_objs ≤ sp.total_objs)
    × (1 < sp.total_objs)

-- The objects that come into the cache: none, or, when no page of it has a free object, those of a
-- page from `kalloc`.
abbrev pub Fresh : ℕ → Cache → Kmem → List ℕ → Type 0
Fresh id c mem new =
    (new ≡ [])
    ⊎ ((a : ℕ) × (c.partial ≡ [])
        × (c.empty ≡ [])
        × ((kalloc id mem).0 ≡ some a)
        × (new ≡ (slab_page_at c.obj_size a).freelist))

-- The cache and the page allocator have nothing to give.
abbrev pub IsOut : ℕ → Cache → Kmem → Type 0
IsOut id c mem = (c.partial ≡ []) × (c.empty ≡ []) × ((kalloc id mem).0 ≡ none)

record Finds (id i : ℕ) (c : Cache) (mem : Kmem) : Type 0 where
  page : SlabPage
  rest : Cache
  left : Kmem
  hit : Bool
  new : List ℕ
  found : find_slab id c mem ≡ some (page, rest, left, hit)
  has : HasObj page
  well : IsCache i rest
  fresh : Fresh id c mem new
  counts : (q : ℕ) → free_in q rest + count q page.freelist ≡ free_in q c + count q new

-- The first page that is free as a whole, or a new one. The result is a variable, so that only the
-- call is rewritten.
find_slab-empty :
    (id : ℕ) (c : Cache) (mem : Kmem) (sp : SlabPage) (rest : List SlabPage)
    → c.partial ≡ []
    → c.empty ≡ sp ∷ rest
    → (x : Option (SlabPage × Cache × Kmem × Bool))
    → some (sp, record c { empty = rest }, mem, true) ≡ x
    → find_slab id c mem ≡ x
unfolding find_slab
find_slab-empty id c mem sp rest e e' x h = rw (e, e', find_slab) h

find_slab-miss :
    (id : ℕ) (c : Cache) (mem : Kmem) (a : ℕ)
    → c.partial ≡ []
    → c.empty ≡ []
    → (kalloc id mem).0 ≡ some a
    → (x : Option (SlabPage × Cache × Kmem × Bool))
    → some (
      slab_page_at c.obj_size a,
      record c { total_pages = c.total_pages + 1 },
      (kalloc id mem).1,
      false,
    )
      ≡ x
    → find_slab id c mem ≡ x
unfolding find_slab
find_slab-miss id c mem a e e' got x h = rw (e, e', got, find_slab) h

find_slab-Finds :
    (id i : ℕ) (c : Cache) (mem : Kmem)
    → i < 5
    → IsCache i c
    → ((find_slab id c mem ≡ none) × IsOut id c mem) ⊎ Finds id i c mem
unfolding find_slab HasObj
find_slab-Finds id i c mem h v = elim (List-cases c.partial) [
  | inr (sp, rest, e) ↦
      (let v' : All IsPartial (sp ∷ rest) = subst (All IsPartial) e v.partials in
        inr (record {
          page = sp;
          rest = record c { partial = rest };
          left = mem;
          hit = true;
          new = [];
          found = rw (e, find_slab) refl;
          has = (v'.0.0, v'.0.1, omega (arith, v'.0.2), omega (arith, v'.0.1, v'.0.2));
          well = record { size = v.size; partials = v'.1; fulls = v.fulls; empties = v.empties };
          fresh = inl refl;
          counts = λ q. omega (arith, ap (objs q) e);
        }))
  | inl e ↦ elim (List-cases c.empty) [
    | inr (sp, rest, e') ↦
        (let v' : All IsEmpty (sp ∷ rest) = subst (All IsEmpty) e' v.empties in
          inr (record {
            page = sp;
            rest = record c { empty = rest };
            left = mem;
            hit = true;
            new = [];
            found = find_slab-empty id c mem sp rest e e' _ refl;
            has = (v'.0.0, omega (arith, v'.0.1, v'.0.2), omega (arith, v'.0.1), v'.0.2);
            well = record { size = v.size; partials = v.partials; fulls = v.fulls; empties = v'.1 };
            fresh = inl refl;
            counts = λ q. omega (arith, ap (objs q) e');
          }))
    | inl e' ↦ elim (Option-cases (kalloc id mem).0) [
      | inl out ↦ inl (rw (e, e', out, find_slab) refl, (e, e', out))
      | inr (a, got) ↦
          (let w = slab_page_at-IsEmpty i c.obj_size a h v.size in
            inr (record {
              page = slab_page_at c.obj_size a;
              rest = record c { total_pages = c.total_pages + 1 };
              left = (kalloc id mem).1;
              hit = false;
              new = (slab_page_at c.obj_size a).freelist;
              found = find_slab-miss id c mem a e e' got _ refl;
              has = (w.0, omega (arith, w.1, w.2), omega (arith, w.1), w.2);
              well = record {
                size = v.size;
                partials = v.partials;
                fulls = v.fulls;
                empties = v.empties;
              };
              fresh = inr (a, e, e', got, refl);
              counts = λ q. omega arith;
            }))
    ]
  ]
]

record Takes (i : ℕ) (sp : SlabPage) (c : Cache) : Type 0 where
  obj : ℕ
  after : Cache
  taken : take_obj sp c ≡ done (obj, after)
  well : IsCache i after
  counts :
      (q : ℕ) → free_in q after + (if obj == q then 1 else 0) ≡ free_in q c + count q sp.freelist

take_obj-Takes : (i : ℕ) (sp : SlabPage) (c : Cache) → HasObj sp → IsCache i c → Takes i sp c
unfolding take_obj HasObj
take_obj-Takes i sp c (number, some_left, fits, many) v = elim (List-cases sp.freelist) [
  | inl e ↦ absurd (omega (arith, ap length e))
  | inr (obj, rest, e) ↦
      (let long = ap length e in
        elim (Bool-cases (sp.free_objs - 1 == 0)) [
          | inl last ↦ record {
            obj = obj;
            after = record c {
              alloc_count = count_up c.alloc_count;
              full = record sp { freelist = rest; free_objs = sp.free_objs - 1 } ∷ c.full;
            };
            taken = rw (e, last, take_obj) refl;
            well = record {
              size = v.size;
              partials = v.partials;
              fulls = (
                (ground (arith, last), no_more rest (ground (arith, last, number, long)), many),
                v.fulls,
              );
              empties = v.empties;
            };
            counts = λ q. omega (arith, ap (count q) e);
          }
          | inr left ↦ record {
            obj = obj;
            after = record c {
              alloc_count = count_up c.alloc_count;
              partial = record sp { freelist = rest; free_objs = sp.free_objs - 1 } ∷ c.partial;
            };
            taken = rw (e, left, take_obj) refl;
            well = record {
              size = v.size;
              partials = (
                (omega (arith, number, long), ground (arith, left), omega (arith, some_left, fits)),
                v.partials,
              );
              fulls = v.fulls;
              empties = v.empties;
            };
            counts = λ q. omega (arith, ap (count q) e);
          }
        ])
]
  where
    no_more : (l : List ℕ) → length l ≡ 0 → l ≡ []
    no_more [] h = refl
    no_more (x ∷ l) h = absurd (omega arith)

-- What an allocation from the cache `i` gives: the object `obj`, and the slab `t`.
pub record Allocated (id i : ℕ) (s : Slab) (obj : ℕ) (t : Slab) : Type 0 where
  pub new : List ℕ
  pub fresh : Fresh id (s.caches i) s.mem new
  pub well : IsCache i (t.caches i)
  pub others : (j : ℕ) → (i == j) ≡ false → t.caches j ≡ s.caches j
  pub counts :
      (q : ℕ)
      → free_in q (t.caches i) + (if obj == q then 1 else 0) ≡ free_in q (s.caches i) + count q new

-- For a size that a cache serves, and a well-formed cache: `slab_alloc` ends without following a
-- null pointer. Either no page of the cache has a free object and `kalloc` has no page, and nothing
-- changes; or it gives an object that was free in the cache or, when no page of the cache has a free
-- object, on a new page from `kalloc`, is free once less, and no other object of the cache changes;
-- the cache stays well formed and the other caches are as before.
pub slab_alloc-Allocated :
    (id size i : ℕ) (s : Slab)
    → find_cache_index size ≡ some i
    → i < 5
    → IsCache i (s.caches i)
    → ((slab_alloc id size s ≡ done (none, s)) × IsOut id (s.caches i) s.mem)
      ⊎ ((obj : ℕ) × (t : Slab) × (slab_alloc id size s ≡ done (some obj, t))
          × Allocated id i s obj t)
unfolding slab_alloc
slab_alloc-Allocated id size i s index h v = elim (find_slab-Finds id i (s.caches i) s.mem h v) [
  | inl (out, nothing) ↦ inl (rw (index, out, slab_alloc) refl, nothing)
  | inr f ↦
      (let t = take_obj-Takes i f.page f.rest f.has f.well in
        inr (
          t.obj,
          allocated i t.after f.left f.hit s,
          rw (index, f.found, t.taken, slab_alloc) refl,
          record {
            new = f.new;
            fresh = f.fresh;
            well = rw (==_refl i) t.well;
            others = λ j apart. rw apart refl;
            counts = λ q. rw (==_refl i) (omega (arith, t.counts q, f.counts q));
          },
        ))
]
