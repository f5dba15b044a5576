-- ===== src/Kalloc/Tests.antt =====
-- kernel/mm/kalloc.c: runs of the model, and its theorems at concrete inputs.
use os2025_yyds.Common.{
  ℕ, ◌+◌, ◌-◌, ◌*◌, ◌/◌, ◌≡◌, refl, ◌⊎◌, [], ◌∷◌, none, some, arith, ◌==◌, if◌then◌else◌, update,
  total, done, panic,
}
use os2025_yyds.Kalloc.{
  Kmem, pgsize, phystop, kalloc, steal, pop_page, find_page, kfree, drop_page, krefcnt, kinit,
  freebytes,
}
use os2025_yyds.Kalloc.Invariant.{IsExact, listed, kfree-IsExact}
use os2025_yyds.Kalloc.Alloc.{Allocated, kalloc-Allocated}
use os2025_yyds.Kalloc.Boot.{kinit-IsExact}

-- Three pages of memory: the first is in use twice, the second free on CPU 1, the third on CPU 0.
abbrev base : ℕ
base = phystop - 3 * 4096

abbrev kernel_end : ℕ
kernel_end = phystop - 3 * 4096 - 100

abbrev three : Kmem
three = record {
  cnt = update (λ _. 0) (base / pgsize) 2;
  freelist = update (update (λ _. []) 1 ((base + 4096) ∷ [])) 0 ((base + 8192) ∷ []);
  filled = λ _. 0;
}

three-IsExact : IsExact kernel_end three
unfolding total
three-IsExact q = ground arith

-- CPU 2 has no page of its own, and takes the first that it finds, on CPU 0.
kalloc_steals : (kalloc 2 three).0 ≡ some (base + 8192)
unfolding kalloc find_page steal pop_page
kalloc_steals = refl

kfree_twice :
    (krefcnt base (drop_page 3 base three) ≡ 1)
    × (listed (drop_page 3 base (drop_page 3 base three)) base ≡ 1)
unfolding krefcnt drop_page total
kfree_twice = (refl, refl)

kfree_panics : kfree kernel_end 0 (base + 1) three ≡ panic
unfolding kfree
kfree_panics = refl

kfree-IsExact_example :
    (s' : Kmem) × (kfree kernel_end 0 base three ≡ done s')
    × IsExact kernel_end s'
    × ((q : ℕ) → krefcnt q s' ≡ (if q / pgsize == base / pgsize then 1 else krefcnt q three))
unfolding krefcnt
kfree-IsExact_example =
    kfree-IsExact kernel_end 0 base three (omega arith) refl (omega arith) (omega arith)
      three-IsExact

kalloc-Allocated_example :
    ((kalloc 2 three ≡ (none, three)) × ((pa : ℕ) → listed three pa ≡ 0))
    ⊎ ((r : ℕ) × (s' : Kmem) × (kalloc 2 three ≡ (some r, s')) × Allocated kernel_end three r s')
kalloc-Allocated_example = kalloc-Allocated kernel_end 2 three (omega arith) three-IsExact

kinit-IsExact_example :
    (s : Kmem) × (kinit kernel_end 0 ≡ done s) × IsExact kernel_end s × (freebytes s ≡ 3 * 4096)
kinit-IsExact_example = kinit-IsExact kernel_end 0 (omega arith)
