-- ===== src/Log/Buffers.antt =====
-- kernel/filesystem/log.c: the buffers that `commit` and `initlog` take from the cache of NBUF.
use os2025_yyds.Common.{
  ℕ, ◌+◌, ◌-◌, ◌^◌, ◌≤◌, ◌<◌, ◌≡◌, ◌∙◌, ◌≢◌, List, [], ◌∷◌, arith, length, count, true, false,
}
use os2025_yyds.Log.{
  Log, Block, Bufs, bpin, take, give, install_one, install_from, write_one, write_from, write_head,
}
use os2025_yyds.Log.Region.{is_home, AllHome, Distinct}
use os2025_yyds.Log.Counts.{install_one-refcnt, install_one-home, write_one-refcnt}

-- No `bread` has found the cache without a buffer, and `n` buffers are not in use.
pub record HasSpare (n : ℕ) (c : Bufs) : Type 0 where
  pub fed : c.starved ≡ false
  pub enough : n ≤ c.spare

-- `bread` and `brelse` of a block.
pub visit-HasSpare :
    (b n : ℕ) (c : Bufs)
    → c.refcnt b < 2 ^ 32 - 1
    → HasSpare (n + 1) c
    → HasSpare (n + 1) (give b (take b c))
unfolding take give bpin
visit-HasSpare b n c below h = record {
  fed = ground (arith, h.fed, h.enough);
  enough = ground (arith, h.enough);
}

write-HasSpare :
    (l x n : ℕ) (c : Bufs)
    → l ≢ x
    → 1 ≤ c.refcnt x
    → c.refcnt x < 2 ^ 32 - 1
    → c.refcnt l < 2 ^ 32 - 1
    → HasSpare (n + 1) c
    → HasSpare (n + 1) (give l (give x (take x (take l c))))
unfolding take give bpin
write-HasSpare l x n c ne pin bx bl h = record {
  fed = ground (arith, h.fed, h.enough);
  enough = ground (arith, h.enough);
}

install-HasSpare :
    (l x n : ℕ) (c : Bufs)
    → l ≢ x
    → 1 ≤ c.refcnt x
    → c.refcnt x < 2 ^ 32 - 1
    → c.refcnt l < 2 ^ 32 - 1
    → HasSpare (n + 1) c
    → HasSpare (n + 1) (give x (give l (give x (take x (take l c)))))
unfolding take give bpin
install-HasSpare l x n c ne pin bx bl h = record {
  fed = ground (arith, h.fed, h.enough);
  enough = ground (arith, h.enough);
}

-- At boot no buffer is pinned, and the installation of a block costs one.
recover-HasSpare :
    (l x n : ℕ) (c : Bufs)
    → l ≢ x
    → c.refcnt x ≡ 0
    → c.refcnt l ≡ 0
    → HasSpare (n + 2) c
    → HasSpare (n + 1) (give x (give l (give x (take x (take l c)))))
unfolding take give bpin
recover-HasSpare l x n c ne zx zl h = record {
  fed = ground (arith, h.fed, h.enough);
  enough = ground (arith, h.enough);
}

install_one-HasSpare :
    (l x n : ℕ) (s : Log Block)
    → l ≢ x
    → 1 ≤ s.bufs.refcnt x
    → ((q : ℕ) → s.bufs.refcnt q < 2 ^ 32 - 1)
    → HasSpare (n + 1) s.bufs
    → HasSpare (n + 1) (install_one l x s).bufs
unfolding install_one
install_one-HasSpare l x n s ne pin below h =
    install-HasSpare l x n s.bufs ne pin (below x) (below l) h

pub install_from-HasSpare :
    (size : ℕ) (bs : List ℕ) (tail n : ℕ) (s : Log Block)
    → AllHome s.start size bs
    → Distinct bs
    → tail + length bs < size
    → ((q : ℕ) → s.bufs.refcnt q < 2 ^ 32 - 1)
    → ((q : ℕ) → count q bs ≢ 0 → 1 ≤ s.bufs.refcnt q)
    → HasSpare (n + 1) s.bufs
    → HasSpare (n + 1) (install_from bs tail s).bufs
unfolding install_from
install_from-HasSpare size [] tail n s home distinct fits below pinned h = h
install_from-HasSpare size (x ∷ bs) tail n s home distinct fits below pinned h =
    let l = s.start + tail + 1 in
    let ne : l ≢ x = ground arith in
    let one = λ (q : ℕ). install_one-refcnt l x s q ne (λ p. omega (arith, below p)) in
    install_from-HasSpare size bs (tail + 1) n (install_one l x s)
      (install_one-home l x size s bs home.1) distinct.1 (omega arith)
      (λ q. ground (arith, one q, below q, pinned q))
      (λ q e. ground (arith, one q, pinned q, distinct.0))
      (install_one-HasSpare l x n s ne (pinned x (ground arith)) below h)

recover_one-HasSpare :
    (l x n : ℕ) (s : Log Block)
    → l ≢ x
    → s.bufs.refcnt x ≡ 0
    → s.bufs.refcnt l ≡ 0
    → HasSpare (n + 2) s.bufs
    → HasSpare (n + 1) (install_one l x s).bufs
unfolding install_one
recover_one-HasSpare l x n s ne zx zl h = recover-HasSpare l x n s.bufs ne zx zl h

recovered-logs :
    (l x size : ℕ) (s : Log Block) (q : ℕ)
    → l ≢ x
    → ((q : ℕ) → s.bufs.refcnt q < 2 ^ 32)
    → is_home s.start size x ≡ true
    → (install_one l x s).start < q
    → q < (install_one l x s).start + size
    → ((q : ℕ) → s.start < q → q < s.start + size → s.bufs.refcnt q ≡ 0)
    → (install_one l x s).bufs.refcnt q ≡ 0
unfolding install_one
recovered-logs l x size s q ne below home lo hi logs =
    install_one-refcnt l x s q ne below ∙ ground (arith, logs q lo hi, home)

-- Only the log blocks behind `tail` and the blocks still to come have to be without references.
pub recover_from-HasSpare :
    (size : ℕ) (bs : List ℕ) (tail n : ℕ) (s : Log Block)
    → AllHome s.start size bs
    → Distinct bs
    → tail + length bs < size
    → ((q : ℕ) → s.bufs.refcnt q < 2 ^ 32)
    → ((q : ℕ) → count q bs ≢ 0 → s.bufs.refcnt q ≡ 0)
    → ((q : ℕ) → s.start < q → q < s.start + size → s.bufs.refcnt q ≡ 0)
    → HasSpare (length bs + n + 1) s.bufs
    → HasSpare (n + 1) (install_from bs tail s).bufs
unfolding install_from
recover_from-HasSpare size [] tail n s home distinct fits below free logs h = record {
  fed = h.fed;
  enough = omega (arith, h.enough);
}
recover_from-HasSpare size (x ∷ bs) tail n s home distinct fits below free logs h =
    let l = s.start + tail + 1 in
    let ne : l ≢ x = ground arith in
    let one = λ (q : ℕ). install_one-refcnt l x s q ne below in
    recover_from-HasSpare size bs (tail + 1) n (install_one l x s)
      (install_one-home l x size s bs home.1) distinct.1 (omega arith)
      (λ q. ground (arith, one q, below q)) (λ q e. ground (arith, one q, free q, distinct.0))
      (λ q lo hi. recovered-logs l x size s q ne below home.0 lo hi logs)
      (recover_one-HasSpare l x (length bs + n) s ne (free x (ground arith))
        (logs l (omega arith) (omega arith))
        (record { fed = h.fed; enough = omega (arith, h.enough) }))

write_one-HasSpare :
    (l x n : ℕ) (s : Log Block)
    → l ≢ x
    → 1 ≤ s.bufs.refcnt x
    → ((q : ℕ) → s.bufs.refcnt q < 2 ^ 32 - 1)
    → HasSpare (n + 1) s.bufs
    → HasSpare (n + 1) (write_one l x s).bufs
unfolding write_one
write_one-HasSpare l x n s ne pin below h = write-HasSpare l x n s.bufs ne pin (below x) (below l) h

write_one-home :
    (l x size : ℕ) (s : Log Block) (bs : List ℕ)
    → AllHome s.start size bs
    → AllHome (write_one l x s).start size bs
unfolding write_one
write_one-home l x size s bs home = home

pub write_from-HasSpare :
    (size : ℕ) (bs : List ℕ) (tail n : ℕ) (s : Log Block)
    → AllHome s.start size bs
    → tail + length bs < size
    → ((q : ℕ) → s.bufs.refcnt q < 2 ^ 32 - 1)
    → ((q : ℕ) → count q bs ≢ 0 → 1 ≤ s.bufs.refcnt q)
    → HasSpare (n + 1) s.bufs
    → HasSpare (n + 1) (write_from bs tail s).bufs
unfolding write_from
write_from-HasSpare size [] tail n s home fits below pinned h = h
write_from-HasSpare size (x ∷ bs) tail n s home fits below pinned h =
    let l = s.start + tail + 1 in
    let ne : l ≢ x = ground arith in
    let one = λ (q : ℕ). write_one-refcnt l x s q (λ p. omega (arith, below p)) in
    write_from-HasSpare size bs (tail + 1) n (write_one l x s) (write_one-home l x size s bs home.1)
      (omega arith) (λ q. rw (one q) (below q)) (λ q e. rw (one q) (pinned q (ground (arith, e))))
      (write_one-HasSpare l x n s ne (pinned x (ground arith)) below h)

pub write_head-HasSpare :
    (n : ℕ) (s : Log Block)
    → s.bufs.refcnt s.start < 2 ^ 32 - 1
    → HasSpare (n + 1) s.bufs
    → HasSpare (n + 1) (write_head s).bufs
unfolding write_head
write_head-HasSpare n s below h = visit-HasSpare s.start n s.bufs below h
