-- ===== src/Slab/Tests.antt =====
-- kernel/mm/slab.c: runs of the model, and its theorems at concrete inputs.
use os2025_yyds.Common.{
  ℕ, ◌+◌, ◌*◌, ◌/◌, ◌≡◌, refl, ◌⊎◌, false, true, ◌||◌, [], ◌∷◌, none, some, arith, update, done,
}
use os2025_yyds.Kalloc.{pgsize, boot}
use os2025_yyds.Slab.{
  SlabPage, Cache, Slab, slab_init, slab_size, index_from, slab_alloc, slab_free,
}
use os2025_yyds.Slab.Invariant.{IsCache}
use os2025_yyds.Slab.Alloc.{IsOut, Allocated, slab_alloc-Allocated}
use os2025_yyds.Slab.Pages.{on_list}
use os2025_yyds.Slab.Free.{Freed, slab_free-Freed}

-- The cache of 256 bytes: one page has two of its objects in use, another one is full.
abbrev page : ℕ
page = 0x80400000

abbrev half : SlabPage
half = record {
  address = page;
  total_objs = 4;
  free_objs = 2;
  freelist = (page + 560) ∷ (page + 816) ∷ [];
}

abbrev whole : SlabPage
whole = record { address = page + pgsize; total_objs = 4; free_objs = 0; freelist = [] }

abbrev used : Cache
used = record {
  obj_size = 256;
  partial = half ∷ [];
  full = whole ∷ [];
  empty = [];
  alloc_count = 6;
  free_count = 0;
  total_pages = 2;
}

abbrev start : Slab
start = record (slab_init boot) {
  caches = update (λ i. record used { obj_size = slab_size i }) 3 used;
}

used-IsCache : IsCache 3 (start.caches 3)
unfolding slab_size
used-IsCache = record {
  size = refl;
  partials = ((refl, omega arith, omega arith), tt);
  fulls = ((refl, refl, omega arith), tt);
  empties = tt;
}

served : index_from 5 0 200 ≡ some 3
unfolding index_from slab_size
served = refl

slab_alloc-Allocated_example :
    ((slab_alloc 0 200 start ≡ done (none, start)) × IsOut 0 (start.caches 3) start.mem)
    ⊎ ((obj : ℕ) × (t : Slab) × (slab_alloc 0 200 start ≡ done (some obj, t))
        × Allocated 0 3 start obj t)
slab_alloc-Allocated_example = slab_alloc-Allocated 0 200 3 start served (omega arith) used-IsCache

slab_free-Freed_example :
    let ptr = page + pgsize + 48 in
    let a = ptr / pgsize * pgsize in
    ((slab_free page 0 ptr 200 start ≡ done start)
      × ((on_list a (start.caches 3).full || on_list a (start.caches 3).partial) ≡ false))
    ⊎ ((t : Slab) × (slab_free page 0 ptr 200 start ≡ done t)
        × ((on_list a (start.caches 3).full || on_list a (start.caches 3).partial) ≡ true)
        × Freed 3 ptr start t)
slab_free-Freed_example =
    slab_free-Freed page 0 (page + pgsize + 48) 200 3 start refl served used-IsCache
