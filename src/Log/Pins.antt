-- ===== src/Log/Pins.antt =====
-- kernel/filesystem/log.c: the reference counts of the cached buffers.
use os2025_yyds.Common.{
  ℕ, ◌-◌, ◌^◌, ◌<◌, ◌≡◌, refl, ◌∙◌, arith, ltb, ◌==◌, if◌then◌else◌, length, count, count-le-length,
  inl, inr, Bool-cases, false,
}
use os2025_yyds.Log.{
  header_read, nbuf, Log, Block, uint_dec, write_log, write_head, read_head, recover_from_log,
  boot_on, commit, initlog,
}
use os2025_yyds.Log.Recover.{finish}
use os2025_yyds.Log.Commit.{IsReady, commit-eq, commit-nil, log-Filled}
use os2025_yyds.Log.Fill.{Filled}
use os2025_yyds.Log.Region.{AllHome, Distinct}
use os2025_yyds.Log.Counts.{
  write_from-refcnt, write_head-refcnt, write_head-start, write_head-lh, finish-refcnt,
  read_head-refcnt,
}
use os2025_yyds.Log.Fed.{IsFed, commit-fed, initlog-fed}

initlog-refcnt :
    (start size : ℕ) (d : ℕ → Block) (b : ℕ)
    → AllHome start size (header_read (d start))
    → Distinct (header_read (d start))
    → length (header_read (d start)) < size
    → (initlog start size d).bufs.refcnt b
      ≡ (if count b (header_read (d start)) == 0 then 0 else 2 ^ 32 - 1)
unfolding initlog recover_from_log read_head boot_on
initlog-refcnt start size d b home distinct fits =
    let zero = read_head-refcnt start size d in
    finish-refcnt size (read_head (boot_on start size d)) b home distinct fits
      (λ q. ground (arith, zero q))
    ∙ ground (arith, zero b)

-- On a disk whose header names distinct blocks outside the log that fit the log, fewer than the cache
-- has buffers: `initlog` finds a buffer for each `bread`, and leaves the count of each named block
-- at 2 ^ 32 - 1 and all other counts at 0.
pub initlog_underflow :
    (start size : ℕ) (d : ℕ → Block) (b : ℕ)
    → AllHome start size (header_read (d start))
    → Distinct (header_read (d start))
    → length (header_read (d start)) < size
    → length (header_read (d start)) < nbuf
    → ((initlog start size d).bufs.starved ≡ false)
      × ((initlog start size d).bufs.refcnt b
          ≡ (if count b (header_read (d start)) == 0 then 0 else 2 ^ 32 - 1))
initlog_underflow start size d b home distinct fits few = (
  initlog-fed start size d home distinct fits few,
  initlog-refcnt start size d b home distinct fits,
)

logged-refcnt :
    (s w : Log Block) (b : ℕ)
    → IsReady s
    → Distinct s.lh
    → ((q : ℕ) → s.bufs.refcnt q < 2 ^ 32)
    → Filled 0 s.lh s w
    → ((q : ℕ) → w.bufs.refcnt q ≡ s.bufs.refcnt q)
    → (finish (write_head w)).bufs.refcnt b
      ≡ (if count b s.lh == 0 then s.bufs.refcnt b else uint_dec (s.bufs.refcnt b))
logged-refcnt s w b ready distinct small filled same =
    let small' = λ (q : ℕ). small_as q (same q) (small q) in
    let head = λ (q : ℕ). write_head-refcnt w q small' in
    finish-refcnt s.size (write_head w) b
      (rw (lh, write_head-start w, filled.same_start) ready.home) (rw lh distinct)
      (rw lh ready.fits) (λ q. small_as q (head q) (small' q))
    ∙ rw (lh, head b, same b) refl
  where
    lh : (write_head w).lh ≡ s.lh
    lh = write_head-lh w ∙ filled.same_lh

    small_as : {m n : ℕ} (q : ℕ) → m ≡ n → n < 2 ^ 32 → m < 2 ^ 32
    small_as q e h = rw e h

-- From a state that is ready to commit, with a header of distinct blocks and a buffer cache that has
-- their buffers pinned and one to spare: `commit` finds a buffer for each `bread`, takes one from
-- the count of each logged block, and moves no other count.
pub commit-refcnt :
    (s : Log Block) (b : ℕ)
    → IsReady s
    → Distinct s.lh
    → IsFed s
    → ((commit s).bufs.starved ≡ false)
      × ((commit s).bufs.refcnt b
          ≡ (if count b s.lh == 0 then s.bufs.refcnt b else s.bufs.refcnt b - 1))
unfolding write_log
commit-refcnt s b ready distinct fed = (
  commit-fed s ready distinct fed,
  elim (Bool-cases (ltb 0 (length s.lh))) [
    | inl e ↦ rw (commit-eq s e) (
        logged-refcnt s (write_log s) b ready distinct small (log-Filled s ready)
          (λ q. write_from-refcnt s.lh 0 s q small)
        ∙ ground (arith, fed.pinned b, fed.below b))
    | inr e ↦ rw (commit-nil s e) (ground (arith, count-le-length b s.lh))
  ],
)
  where
    small : (q : ℕ) → s.bufs.refcnt q < 2 ^ 32
    small q = omega (arith, fed.below q)
