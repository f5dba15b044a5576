-- ===== src/Kalloc.antt =====
-- kernel/mm/kalloc.c: the physical page allocator with reference counts for copy-on-write and one
-- free list for each CPU.
--
-- `kmem[id].freelist` is the list of the addresses that the `next` pointers of the free pages run
-- through, `ref.cnt` a family indexed by page number, each count an `int` as its 32-bit pattern.
-- `filled` holds the byte that the last `memset` filled a page with. Each function is one step: the
-- spinlocks around its parts, and `push_off`, leave no trace in the state. The CPU that runs a
-- function, `cpuid()`, is the argument `id`; the linker's symbol `end` is the argument `kernel_end`.
pub mod Invariant
pub mod Alloc
pub mod Boot
mod Tests
use os2025_yyds.Common.{
  ℕ, zero, suc, ◌+◌, ◌-◌, ◌*◌, ◌/◌, ◌%◌, ◌^◌, Bool, true, false, not, ◌&&◌, List, [], ◌∷◌, Option,
  none, some, ltb, leb, ◌==◌, if◌then◌else◌, update, Outcome, done, no_fuel, ◌>>=◌, ◌>>◌, panic_if,
}

abbrev pub pgsize : ℕ
pgsize = 4096

abbrev pub ncpu : ℕ
ncpu = 8

abbrev pub phystop : ℕ
phystop = 0x80000000 + 128 * 1024 * 1024

abbrev pub pg_round_up : ℕ → ℕ
pg_round_up sz = (sz + pgsize - 1) / pgsize * pgsize

pub record Kmem : Type 0 where
  pub cnt : ℕ → ℕ
  pub freelist : ℕ → List ℕ
  pub filled : ℕ → ℕ

-- `++` and `--` on an `int`.
abbrev pub int_inc : ℕ → ℕ
int_inc c = (c + 1) % 2 ^ 32

abbrev pub int_dec : ℕ → ℕ
int_dec c = (c + 2 ^ 32 - 1) % 2 ^ 32

-- The part of `kfree` for a page whose count has fallen to 0.
pub put_free : ℕ → ℕ → Kmem → Kmem
put_free id pa s = record s {
  freelist = update s.freelist id (pa ∷ s.freelist id);
  filled = update s.filled pa 1;
}

-- What `kfree` does to a page that passes its check.
pub drop_page : ℕ → ℕ → Kmem → Kmem
unfolding put_free
drop_page id pa s =
    let c = int_dec (s.cnt (pa / pgsize)) in
    let counted : Kmem = record s { cnt = update s.cnt (pa / pgsize) c } in
    if c == 0 then put_free id pa counted else counted

-- Takes the first page of one CPU's list, with a count of 1.
pub pop_page : ℕ → Kmem → Option (ℕ × Kmem)
pop_page cpu s = elim (s.freelist cpu) [
  | [] ↦ none
  | r ∷ rest ↦
      some
        (r, record s { freelist = update s.freelist cpu rest; cnt = update s.cnt (r / pgsize) 1 })
]

-- The loop of `kalloc` over the other CPUs, from `antid` on, with `n` rounds left.
pub steal : ℕ → ℕ → ℕ → Kmem → Option (ℕ × Kmem)
steal zero antid id s = none
steal (suc n) antid id s =
    let rest = steal n (antid + 1) id s in
    if antid == id then rest else elim (pop_page antid s) [ none ↦ rest | some got ↦ some got ]

-- `memset(r, 5, PGSIZE)`, if there is a page.
abbrev pub fill_new : Kmem → Option (ℕ × Kmem) → Option ℕ × Kmem
fill_new s none = (none, s)
fill_new s (some (r, s')) = (some r, record s' { filled = update s'.filled r 5 })

-- The CPU's own list first, then the others.
pub find_page : ℕ → Kmem → Option (ℕ × Kmem)
find_page id s =
    let stolen = steal ncpu 0 id s in elim (pop_page id s) [ none ↦ stolen | some got ↦ some got ]

pub kalloc : ℕ → Kmem → Option ℕ × Kmem
kalloc id s = fill_new s (find_page id s)

pub krefcnt : ℕ → Kmem → ℕ
krefcnt pa s = s.cnt (pa / pgsize)

-- `while(p) { *dst += PGSIZE; p = p->next; }` and the loop over the first `n` CPUs.
pub add_list : ℕ → List ℕ → ℕ
add_list dst [] = dst
add_list dst (r ∷ rest) = add_list ((dst + pgsize) % 2 ^ 64) rest

pub add_lists : ℕ → Kmem → ℕ
add_lists zero s = 0
add_lists (suc i) s = add_list (add_lists i s) (s.freelist i)

pub freebytes : Kmem → ℕ
freebytes s = add_lists 8 s

-- Static storage is zero when the kernel starts.
abbrev pub boot : Kmem
boot = record { cnt = λ _. 0; freelist = λ _. []; filled = λ _. 0 }

module _ (kernel_end : ℕ) where
  -- The negation of the test that makes `kfree` panic and `kaddrefcnt` fail.
  abbrev pub is_page : ℕ → Bool
  is_page pa = pa % pgsize == 0 && (leb kernel_end pa && ltb pa phystop)

  pub kfree : ℕ → ℕ → Kmem → Outcome Kmem
  kfree id pa s = do panic_if (not (is_page pa)); done (drop_page id pa s)

  pub kaddrefcnt : ℕ → Kmem → Bool × Kmem
  kaddrefcnt pa s =
      if is_page pa
      then (true, record s { cnt = update s.cnt (pa / pgsize) (int_inc (s.cnt (pa / pgsize))) })
      else (false, s)

  -- The loop of `freerange` at `p`, on fuel.
  pub free_pages : ℕ → ℕ → ℕ → ℕ → Kmem → Outcome Kmem
  free_pages zero id p pa_end s = no_fuel
  free_pages (suc f) id p pa_end s =
      let go_on =
        kfree id p (record s { cnt = update s.cnt (p / pgsize) 1 })
        >>= free_pages f id (p + pgsize) pa_end in
      if leb (p + pgsize) pa_end then go_on else done s

  pub freerange : ℕ → ℕ → ℕ → Kmem → Outcome Kmem
  freerange id pa_start pa_end s =
      free_pages (pa_end / pgsize + 1) id (pg_round_up pa_start) pa_end s

  pub kinit : ℕ → Outcome Kmem
  kinit id = freerange id kernel_end phystop boot
