-- ===== src/Log/Counts.antt =====
-- kernel/filesystem/log.c: the reference counts of the cached buffers, call by call.
use os2025_yyds.Common.{
  ℕ, ◌+◌, ◌^◌, ◌<◌, ◌≡◌, refl, ◌∙◌, ◌≢◌, List, [], ◌∷◌, arith, ◌==◌, if◌then◌else◌, length, count,
}
use os2025_yyds.Log.{
  Log, Block, uint_dec, install_one, install_from, install_trans, write_one, write_from, bpin, take,
  give, write_head, read_head, boot_on,
}
use os2025_yyds.Log.Recover.{finish}
use os2025_yyds.Log.Region.{AllHome, Distinct}

module _ {B : Type 0} where
  pub install_one-refcnt :
      (l x : ℕ) (s : Log B) (b : ℕ)
      → l ≢ x
      → ((q : ℕ) → s.bufs.refcnt q < 2 ^ 32)
      → (install_one l x s).bufs.refcnt b
        ≡ (if x == b then uint_dec (s.bufs.refcnt b) else s.bufs.refcnt b)
  unfolding install_one take give bpin
  install_one-refcnt l x s b ne small = ground (arith, small b, small l, small x)

  pub install_one-home :
      (l x size : ℕ) (s : Log B) (bs : List ℕ)
      → AllHome s.start size bs
      → AllHome (install_one l x s).start size bs
  unfolding install_one
  install_one-home l x size s bs home = home

  -- The installation of a header takes one from the count of each of its blocks.
  pub install_from-refcnt :
      (size : ℕ) (bs : List ℕ) (tail : ℕ) (s : Log B) (b : ℕ)
      → AllHome s.start size bs
      → Distinct bs
      → tail + length bs < size
      → ((q : ℕ) → s.bufs.refcnt q < 2 ^ 32)
      → (install_from bs tail s).bufs.refcnt b
        ≡ (if count b bs == 0 then s.bufs.refcnt b else uint_dec (s.bufs.refcnt b))
  unfolding install_from
  install_from-refcnt size [] tail s b home distinct fits small = refl
  install_from-refcnt size (x ∷ bs) tail s b home distinct fits small =
      let l = s.start + tail + 1 in
      let one : (q : ℕ)
          → (install_one l x s).bufs.refcnt q
            ≡ (if x == q then uint_dec (s.bufs.refcnt q) else s.bufs.refcnt q) =
        λ q. install_one-refcnt l x s q (ground arith) small in
      let rest =
        install_from-refcnt size bs (tail + 1) (install_one l x s) b
          (install_one-home l x size s bs home.1) distinct.1 (omega arith)
          (λ q. ground (arith, one q, small q)) in
      ground (arith, one b, rest)

  pub write_one-refcnt :
      (l x : ℕ) (s : Log B) (b : ℕ)
      → ((q : ℕ) → s.bufs.refcnt q < 2 ^ 32)
      → (write_one l x s).bufs.refcnt b ≡ s.bufs.refcnt b
  unfolding write_one take give bpin
  write_one-refcnt l x s b small = ground (arith, small b, small l, small x)

  pub write_from-refcnt :
      (bs : List ℕ) (tail : ℕ) (s : Log B) (b : ℕ)
      → ((q : ℕ) → s.bufs.refcnt q < 2 ^ 32)
      → (write_from bs tail s).bufs.refcnt b ≡ s.bufs.refcnt b
  unfolding write_from
  write_from-refcnt [] tail s b small = refl
  write_from-refcnt (x ∷ bs) tail s b small =
      let one = λ (q : ℕ). write_one-refcnt (s.start + tail + 1) x s q small in
      write_from-refcnt bs (tail + 1) (write_one (s.start + tail + 1) x s) b
        (λ q. rw (one q) (small q))
      ∙ one b

pub write_head-refcnt :
    (s : Log Block) (b : ℕ)
    → ((q : ℕ) → s.bufs.refcnt q < 2 ^ 32)
    → (write_head s).bufs.refcnt b ≡ s.bufs.refcnt b
unfolding write_head take give bpin
write_head-refcnt s b small = ground (arith, small b, small s.start)

pub write_head-start : (s : Log Block) → (write_head s).start ≡ s.start
unfolding write_head
write_head-start s = refl

pub write_head-lh : (s : Log Block) → (write_head s).lh ≡ s.lh
unfolding write_head
write_head-lh s = refl

pub finish-refcnt :
    (size : ℕ) (s : Log Block) (b : ℕ)
    → AllHome s.start size s.lh
    → Distinct s.lh
    → length s.lh < size
    → ((q : ℕ) → s.bufs.refcnt q < 2 ^ 32)
    → (finish s).bufs.refcnt b
      ≡ (if count b s.lh == 0 then s.bufs.refcnt b else uint_dec (s.bufs.refcnt b))
unfolding install_trans
finish-refcnt size s b home distinct fits small =
    let installed =
      λ (q : ℕ). install_from-refcnt size s.lh 0 s q home distinct (omega arith) small in
    write_head-refcnt (record (install_trans s) { lh = [] }) b
      (λ q. ground (arith, installed q, small q))
    ∙ installed b

pub read_head-refcnt :
    (start size : ℕ) (d : ℕ → Block) (q : ℕ) → (read_head (boot_on start size d)).bufs.refcnt q ≡ 0
unfolding read_head boot_on take give bpin
read_head-refcnt start size d q = ground arith
