-- ===== src/Bio/Tests.antt =====
-- The statements about kernel/filesystem/bio.c at concrete caches.
use os2025_yyds.Common.{◌-◌, ◌^◌, ℕ, ◌+◌, ◌*◌, ◌<◌, ◌≡◌, ◌≢◌, ◌⊎◌, false, arith, done, panic}
use os2025_yyds.Bio.{Bcache, nbuf, holds, binit, bget, bread, bpin}
use os2025_yyds.Bio.Invariant.{IsBcache}
use os2025_yyds.Bio.Get.{Got, bget-Got, binit-IsBcache}
use os2025_yyds.Bio.View.{IsClean}
use os2025_yyds.Bio.Read.{Read, bread-Read}
use os2025_yyds.Bio.System.{Step, Reach, Reach-IsBcache}

abbrev blocks : ℕ → ℕ → ℕ
blocks d n = d * 100 + n

abbrev booted : Bcache ℕ
booted = binit 0 blocks

booted-IsClean : IsClean booted
unfolding IsClean binit
booted-IsClean b lt free full = cc

booted-few : (c : ℕ) → c < nbuf → (booted.bufs c).refcnt < 2 ^ 32 - 1
unfolding binit
booted-few c lt = omega arith

bget-Got_example :
    ((bget 5 1 3 booted ≡ panic)
      × ((c : ℕ) → c < nbuf → ((booted.bufs c).refcnt ≢ 0) × (holds 1 3 (booted.bufs c) ≡ false)))
    ⊎ ((b : ℕ) × (t : Bcache ℕ) × (bget 5 1 3 booted ≡ done (b, t)) × Got 5 1 3 booted b t)
bget-Got_example = bget-Got 5 1 3 booted (binit-IsBcache 0 blocks)

bread-Read_example :
    ((bread 5 1 3 booted ≡ panic)
      × ((c : ℕ) → c < nbuf → ((booted.bufs c).refcnt ≢ 0) × (holds 1 3 (booted.bufs c) ≡ false)))
    ⊎ ((b : ℕ) × (t : Bcache ℕ) × (bread 5 1 3 booted ≡ done (b, t)) × Read 1 3 booted b t)
bread-Read_example =
    bread-Read 5 1 3 booted (λ e. omega (arith, e)) (binit-IsBcache 0 blocks) booted-IsClean
      booted-few

Reach-IsBcache_example : IsBcache (bpin 4 booted)
Reach-IsBcache_example =
    Reach-IsBcache 0 blocks (bpin 4 booted)
      (Reach.next booted (bpin 4 booted) Reach.boot (Step.pinned 4))
