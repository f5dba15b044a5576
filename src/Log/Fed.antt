-- ===== src/Log/Fed.antt =====
-- kernel/filesystem/log.c: `commit` and `initlog` find a buffer for each block that they read.
use os2025_yyds.Common.{
  ℕ, ◌+◌, ◌-◌, ◌^◌, ◌≤◌, ◌<◌, ◌≡◌, refl, ◌∙◌, ◌≢◌, List, [], ◌∷◌, arith, ltb, length, count, inl,
  inr, Bool-cases, false,
}
use os2025_yyds.Log.{
  header_read, nbuf, Log, Block, take, give, install_one, install_from, install_trans, write_from,
  write_log, write_head, read_head, recover_from_log, boot_on, commit, initlog,
}
use os2025_yyds.Log.Recover.{finish}
use os2025_yyds.Log.Fill.{write_from-Filled}
use os2025_yyds.Log.Commit.{IsReady, commit-eq, commit-nil, log-Filled}
use os2025_yyds.Log.Region.{AllHome, AllHome-count, Distinct}
use os2025_yyds.Log.Counts.{
  install_from-refcnt, write_from-refcnt, write_head-refcnt, write_head-start, write_head-lh,
  read_head-refcnt,
}
use os2025_yyds.Log.Buffers.{
  HasSpare, install_from-HasSpare, recover_from-HasSpare, write_from-HasSpare, write_head-HasSpare,
  visit-HasSpare,
}

-- What a commit needs of the buffer cache.
pub record IsFed (s : Log Block) : Type 0 where
  pub has : HasSpare 1 s.bufs
  pub below : (q : ℕ) → s.bufs.refcnt q < 2 ^ 32 - 1
  pub pinned : (q : ℕ) → count q s.lh ≢ 0 → 1 ≤ s.bufs.refcnt q

install_one-start : (l x : ℕ) (s : Log Block) → (install_one l x s).start ≡ s.start
unfolding install_one
install_one-start l x s = refl

install_from-start :
    (bs : List ℕ) (tail : ℕ) (s : Log Block) → (install_from bs tail s).start ≡ s.start
unfolding install_from
install_from-start [] tail s = refl
install_from-start (x ∷ bs) tail s =
    install_from-start bs (tail + 1) (install_one (s.start + tail + 1) x s)
    ∙ install_one-start (s.start + tail + 1) x s

finish-HasSpare :
    (n : ℕ) (s : Log Block)
    → (install_from s.lh 0 s).bufs.refcnt s.start < 2 ^ 32 - 1
    → HasSpare (n + 1) (install_from s.lh 0 s).bufs
    → HasSpare (n + 1) (finish s).bufs
unfolding install_trans
finish-HasSpare n s below h =
    write_head-HasSpare n (record (install_from s.lh 0 s) { lh = [] })
      (rw (install_from-start s.lh 0 s) below) h

-- A step that moves neither the counts nor the header keeps the cache fed.
IsFed-keep :
    (s t : Log Block)
    → IsFed s
    → HasSpare 1 t.bufs
    → t.lh ≡ s.lh
    → ((q : ℕ) → t.bufs.refcnt q ≡ s.bufs.refcnt q)
    → IsFed t
IsFed-keep s t fed has lh same = record {
  has = has;
  below = λ q. rw (same q) (fed.below q);
  pinned = λ q e. rw (same q) (fed.pinned q (rw lh at e));
}

finish-fed :
    (size : ℕ) (s : Log Block)
    → AllHome s.start size s.lh
    → Distinct s.lh
    → length s.lh < size
    → IsFed s
    → (finish s).bufs.starved ≡ false
finish-fed size s home distinct fits fed =
    let after =
      install_from-refcnt size s.lh 0 s s.start home distinct (omega arith)
        (λ q. omega (arith, fed.below q)) in
    (finish-HasSpare 0 s (ground (arith, after, fed.below s.start, fed.pinned s.start)) (
      install_from-HasSpare size s.lh 0 0 s home distinct (omega arith) fed.below fed.pinned
        fed.has)).fed

write_log-IsFed : (s : Log Block) → IsReady s → IsFed s → IsFed (write_log s)
unfolding write_log
write_log-IsFed s ready fed =
    IsFed-keep s (write_from s.lh 0 s) fed
      (write_from-HasSpare s.size s.lh 0 0 s ready.home (omega (arith, ready.fits)) fed.below
        fed.pinned fed.has)
      (write_from-Filled s.size s.lh 0 s ready.home (omega (arith, ready.fits))).same_lh
      (λ q. write_from-refcnt s.lh 0 s q (λ p. omega (arith, fed.below p)))

pub commit-fed :
    (s : Log Block) → IsReady s → Distinct s.lh → IsFed s → (commit s).bufs.starved ≡ false
commit-fed s ready distinct fed = elim (Bool-cases (ltb 0 (length s.lh))) [
  | inl e ↦
      let filled = log-Filled s ready in
      let w = write_log s in
      let fed_w = write_log-IsFed s ready fed in
      let lh : (write_head w).lh ≡ s.lh = write_head-lh w ∙ filled.same_lh in
      rw (commit-eq s e) (
        finish-fed s.size (write_head w) (rw (lh, write_head-start w, filled.same_start) ready.home)
          (rw lh distinct) (rw lh ready.fits)
          (IsFed-keep w (write_head w) fed_w
            (write_head-HasSpare 0 w (fed_w.below w.start) fed_w.has) (write_head-lh w)
            (λ q. write_head-refcnt w q (λ p. omega (arith, fed_w.below p)))))
  | inr e ↦ rw (commit-nil s e) fed.has.fed
]

-- `s` is the log when `initlog` has read the header.
recovery-fed :
    (size : ℕ) (s : Log Block)
    → AllHome s.start size s.lh
    → Distinct s.lh
    → length s.lh < size
    → ((q : ℕ) → s.bufs.refcnt q ≡ 0)
    → HasSpare (length s.lh + 1) s.bufs
    → (finish s).bufs.starved ≡ false
recovery-fed size s home distinct fits free h =
    let out = AllHome-count s.start size s.lh s.start home (ground arith) in
    let after =
      install_from-refcnt size s.lh 0 s s.start home distinct (omega arith)
        (λ q. omega (arith, free q)) in
    (finish-HasSpare 0 s (ground (arith, after, out, free s.start)) (
      recover_from-HasSpare size s.lh 0 0 s home distinct (omega arith) (λ q. omega (arith, free q))
        (λ q e. free q) (λ q lo hi. free q)
        (record { fed = h.fed; enough = omega (arith, h.enough) }))).fed

booted-HasSpare :
    (start n : ℕ)
    → n < nbuf
    → HasSpare
        (n + 1)
        (give start (take start (record { refcnt = λ _. 0; spare = nbuf; starved = false })))
booted-HasSpare start n few =
    visit-HasSpare start n _ (omega arith) (record { fed = refl; enough = omega arith })

pub initlog-fed :
    (start size : ℕ) (d : ℕ → Block)
    → AllHome start size (header_read (d start))
    → Distinct (header_read (d start))
    → length (header_read (d start)) < size
    → length (header_read (d start)) < nbuf
    → (initlog start size d).bufs.starved ≡ false
unfolding initlog recover_from_log read_head boot_on
initlog-fed start size d home distinct fits few =
    recovery-fed size (read_head (boot_on start size d)) home distinct fits
      (read_head-refcnt start size d) (booted-HasSpare start _ few)
