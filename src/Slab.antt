-- ===== src/Slab.antt =====
-- kernel/mm/slab.c: the allocator of small objects, on pages of kernel/mm/kalloc.c.
--
-- The record Kmem below it is the page allocator's own state, and `kalloc` and `kfree` are its
-- operations. The lists of pages and of free objects that run through `next` pointers are lists, so
-- a page that moves from one list to another is taken from the one and put into the other; a page
-- is found by its address. The header of a page takes 40 bytes, rounded up to 48. A size is a
-- positive `int`. A pointer that is followed while it is 0 is a `panic`. The zeroes that `memset`
-- writes into a page or an object are not recorded. `total_pages` is an `int` that counts pages.
pub mod Invariant
pub mod Alloc
pub mod Pages
pub mod Free
mod Tests
use os2025_yyds.Common.{
  ℕ, zero, suc, ◌+◌, ◌-◌, ◌*◌, ◌/◌, ◌%◌, ◌^◌, Bool, true, false, List, [], ◌∷◌, Option, none, some,
  leb, ◌==◌, if◌then◌else◌, update, Outcome, done, panic, ◌>>=◌,
}
use os2025_yyds.Kalloc.{Kmem, pgsize, kalloc, kfree}

abbrev pub header_size : ℕ
header_size = 48

pub record SlabPage : Type 0 where
  pub address : ℕ
  pub total_objs : ℕ
  pub free_objs : ℕ
  pub freelist : List ℕ

pub record Cache : Type 0 where
  pub obj_size : ℕ
  pub partial : List SlabPage
  pub full : List SlabPage
  pub empty : List SlabPage
  pub alloc_count : ℕ
  pub free_count : ℕ
  pub total_pages : ℕ

pub record Stats : Type 0 where
  pub total_allocs : ℕ
  pub total_frees : ℕ
  pub cache_hits : ℕ
  pub cache_misses : ℕ

pub record Slab : Type 0 where
  pub caches : ℕ → Cache
  pub stats : Stats
  pub mem : Kmem

abbrev pub count_up : ℕ → ℕ
count_up n = (n + 1) % 2 ^ 64

-- The loop of `slab_page_init`: it runs down from `n` objects and puts each before the others.
pub link_objs : ℕ → ℕ → ℕ → List ℕ → List ℕ
link_objs zero start obj_size acc = acc
link_objs (suc i) start obj_size acc = link_objs i start obj_size ((start + i * obj_size) ∷ acc)

-- The page that `slab_page_init` makes at the address that `kalloc` gave.
pub slab_page_at : ℕ → ℕ → SlabPage
slab_page_at obj_size address =
    let n = (pgsize - header_size) / obj_size in
    record {
      address = address;
      total_objs = n;
      free_objs = n;
      freelist = link_objs n (address + header_size) obj_size [];
    }

pub slab_size : ℕ → ℕ
slab_size i = 32 * 2 ^ i

abbrev pub new_cache : ℕ → Cache
new_cache i = record {
  obj_size = slab_size i;
  partial = [];
  full = [];
  empty = [];
  alloc_count = 0;
  free_count = 0;
  total_pages = 0;
}

pub slab_init : Kmem → Slab
slab_init mem = record {
  caches = new_cache;
  stats = record { total_allocs = 0; total_frees = 0; cache_hits = 0; cache_misses = 0 };
  mem = mem;
}

-- The loop of `find_cache_index` from the index `i` on, with `n` left.
pub index_from : ℕ → ℕ → ℕ → Option ℕ
index_from zero i size = none
index_from (suc n) i size =
    let rest = index_from n (i + 1) size in if leb size (slab_size i) then some i else rest

abbrev pub find_cache_index : ℕ → Option ℕ
find_cache_index size = index_from 5 0 size

-- The first part of `slab_alloc`: the page to take an object from, the cache without it, the page
-- allocator, and whether the cache had the page. There is no page when `kalloc` has none.
pub find_slab : ℕ → Cache → Kmem → Option (SlabPage × Cache × Kmem × Bool)
find_slab id c mem = elim (c.partial) [
  | sp ∷ rest ↦ some (sp, record c { partial = rest }, mem, true)
  | [] ↦ elim (c.empty) [
    | sp ∷ rest ↦ some (sp, record c { empty = rest }, mem, true)
    | [] ↦
        (let (got, mem') = kalloc id mem in
          elim got [
            | none ↦ none
            | some address ↦ some (
              slab_page_at c.obj_size address,
              record c { total_pages = c.total_pages + 1 },
              mem',
              false,
            )
          ])
  ]
]

-- The second part: an object of the page, and the page on the list where it belongs now.
pub take_obj : SlabPage → Cache → Outcome (ℕ × Cache)
take_obj sp c = elim (sp.freelist) [
  | [] ↦ panic
  | obj ∷ rest ↦
      (let sp' : SlabPage = record sp { freelist = rest; free_objs = sp.free_objs - 1 } in
        let c' : Cache = record c { alloc_count = count_up c.alloc_count } in
        done (
          obj,
          if sp'.free_objs == 0
              then record c' { full = sp' ∷ c.full }
              else record c' { partial = sp' ∷ c.partial },
        ))
]

-- What an allocation stores: the cache, and the statistics.
abbrev pub allocated : ℕ → Cache → Kmem → Bool → Slab → Slab
allocated idx c mem hit s =
    let st = s.stats in
    record {
      caches = update s.caches idx c;
      mem = mem;
      stats = record st {
        total_allocs = count_up st.total_allocs;
        cache_hits = if hit then count_up st.cache_hits else st.cache_hits;
        cache_misses = if hit then st.cache_misses else count_up st.cache_misses;
      };
    }

pub slab_alloc : ℕ → ℕ → Slab → Outcome (Option ℕ × Slab)
slab_alloc id size s = elim (find_cache_index size) [
  | none ↦ (let (got, mem') = kalloc id s.mem in done (got, record s { mem = mem' }))
  | some idx ↦ elim (find_slab id (s.caches idx) s.mem) [
    | none ↦ done (none, s)
    | some found ↦
        (let (sp, c, mem', hit) = found in
          take_obj sp c >>= λ taken. done (some (taken.0), allocated idx taken.1 mem' hit s))
  ]
]

-- The first page of a list with the address, and the list without it.
pub remove_page : ℕ → List SlabPage → Option (SlabPage × List SlabPage)
remove_page a [] = none
remove_page a (sp ∷ sps) =
    let later = remove_page a sps in
    if sp.address == a
    then some (sp, sps)
    else elim later [ none ↦ none | some got ↦ some (got.0, sp ∷ got.1) ]

-- The page is changed where it stands.
pub replace_page : ℕ → SlabPage → List SlabPage → List SlabPage
replace_page a new [] = []
replace_page a new (sp ∷ sps) =
    let later = replace_page a new sps in if sp.address == a then new ∷ sps else sp ∷ later

-- A page of the list `full` comes to the front of `partial`.
pub unfull : ℕ → Cache → Cache
unfull a c = elim (remove_page a c.full) [
  | none ↦ c
  | some got ↦ record c { full = got.1; partial = got.0 ∷ c.partial }
]

-- The object goes back to its page, which is on the list `partial`; `none` when it is not there.
pub give_back : ℕ → ℕ → Cache → Option Cache
give_back a ptr c = elim (remove_page a c.partial) [
  | none ↦ none
  | some got ↦
      (let (sp, rest) = got in
        let sp' : SlabPage = record sp {
          freelist = ptr ∷ sp.freelist;
          free_objs = sp.free_objs + 1;
        } in
        let c' : Cache = record c { free_count = count_up c.free_count } in
        some (
          if sp'.free_objs == sp'.total_objs
          then record c' { partial = rest; empty = sp' ∷ c.empty }
          else record c' { partial = replace_page a sp' c.partial }))
]

-- What a release stores.
abbrev pub freed : ℕ → Cache → Slab → Slab
freed idx c s =
    let st = s.stats in
    record s {
      caches = update s.caches idx c;
      stats = record st { total_frees = count_up st.total_frees };
    }

module _ (kernel_end : ℕ) where
  pub slab_free : ℕ → ℕ → ℕ → Slab → Outcome Slab
  slab_free id ptr size s =
      let a = ptr / pgsize * pgsize in
      if ptr == 0 then done s else elim (find_cache_index size) [
        | none ↦ kfree kernel_end id ptr s.mem >>= λ m. done (record s { mem = m })
        | some idx ↦ elim (give_back a ptr (unfull a (s.caches idx))) [
          | none ↦ done s
          | some c ↦ done (freed idx c s)
        ]
      ]

  -- `while (cache->empty)`: the page allocator after it, and the number of pages that it got.
  pub free_empty : ℕ → List SlabPage → Kmem → Outcome (ℕ × Kmem)
  free_empty id [] mem = done (0, mem)
  free_empty id (sp ∷ sps) mem =
      kfree kernel_end id sp.address mem >>= λ m. free_empty id sps m >>= λ r. done (r.0 + 1, r.1)

  -- The loop of `slab_shrink` from the cache `i` on, with `n` left.
  pub shrink_from : ℕ → ℕ → ℕ → Slab → Outcome (ℕ × Slab)
  shrink_from id zero i s = done (0, s)
  shrink_from id (suc n) i s =
      let c = s.caches i in
      free_empty id c.empty s.mem >>= λ r.
      shrink_from id n (i + 1) (record s {
        mem = r.1;
        caches = update s.caches i (record c { empty = []; total_pages = c.total_pages - r.0 });
      })
      >>= λ rest. done (rest.0 + r.0, rest.1)

  pub slab_shrink : ℕ → Slab → Outcome (ℕ × Slab)
  slab_shrink id s = shrink_from id 5 0 s
