-- ===== src/Slab/Invariant.antt =====
-- kernel/mm/slab.c: which page stands on which list of its cache.
use os2025_yyds.Common.{
  ℕ, zero, suc, ◌+◌, ◌-◌, ◌*◌, ◌/◌, ◌<◌, ◌≡◌, refl, List, [], ◌∷◌, arith, length, count, All,
}
use os2025_yyds.Kalloc.{pgsize}
use os2025_yyds.Slab.{SlabPage, Cache, header_size, slab_size, link_objs, slab_page_at}

abbrev pub IsPartial : SlabPage → Type 0
IsPartial sp =
    (sp.free_objs ≡ length sp.freelist) × (0 < sp.free_objs) × (sp.free_objs < sp.total_objs)

abbrev pub IsFull : SlabPage → Type 0
IsFull sp = (sp.free_objs ≡ 0) × (sp.freelist ≡ []) × (1 < sp.total_objs)

abbrev pub IsEmpty : SlabPage → Type 0
IsEmpty sp =
    (sp.free_objs ≡ length sp.freelist) × (sp.free_objs ≡ sp.total_objs) × (1 < sp.total_objs)

-- The cache with the index `i`: `partial` holds the pages with some objects free, `full` those with
-- none, `empty` those with all, and each page counts its free objects.
pub record IsCache (i : ℕ) (c : Cache) : Type 0 where
  pub size : c.obj_size ≡ slab_size i
  pub partials : All IsPartial c.partial
  pub fulls : All IsFull c.full
  pub empties : All IsEmpty c.empty

-- How often an object is free on the pages of a list, and in a cache.
abbrev pub objs : ℕ → List SlabPage → ℕ
objs q [] = 0
objs q (sp ∷ sps) = count q sp.freelist + objs q sps

abbrev pub free_in : ℕ → Cache → ℕ
free_in q c = objs q c.partial + objs q c.full + objs q c.empty

length-link_objs :
    (n start size : ℕ) (acc : List ℕ) → length (link_objs n start size acc) ≡ n + length acc
unfolding link_objs
length-link_objs zero start size acc = omega arith
length-link_objs (suc n) start size acc =
    omega (arith, length-link_objs n start size ((start + n * size) ∷ acc))

-- A page has room for several objects of each size.
several : (i : ℕ) → i < 5 → 1 < (pgsize - header_size) / slab_size i
unfolding slab_size
several zero h = omega arith
several (suc zero) h = omega arith
several (suc (suc zero)) h = omega arith
several (suc (suc (suc zero))) h = omega arith
several (suc (suc (suc (suc zero)))) h = omega arith
several (suc (suc (suc (suc (suc i))))) h = absurd (omega arith)

pub slab_page_at-IsEmpty :
    (i size a : ℕ) → i < 5 → size ≡ slab_size i → IsEmpty (slab_page_at size a)
unfolding slab_page_at
slab_page_at-IsEmpty i size a h e = rw e (
  omega (
    arith,
    length-link_objs ((pgsize - header_size) / slab_size i) (a + header_size) (slab_size i) [],
  ),
  refl,
  several i h,
)
