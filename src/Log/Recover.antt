-- ===== src/Log/Recover.antt =====
-- kernel/filesystem/log.c: what `initlog` makes of a disk, and the disk at all times of it.
use os2025_yyds.Common.{
  ℕ, ◌≤◌, ◌<◌, ◌≡◌, refl, ◌∙◌, ap, subst, ◌≢◌, true, List, [], arith, ◌==◌, if◌then◌else◌, update,
  length, count, All,
}
use os2025_yyds.Log.{
  header_read, header_write, Log, Block, logsize, read_head, write_head, install_trans,
  recover_from_log, boot_on, initlog,
}
use os2025_yyds.Log.Header.{IsWord, header_read-write}
use os2025_yyds.Log.Region.{is_home, AllHome, AllHome-count, Slots, Slots-update}
use os2025_yyds.Log.Install.{AtAllTimes, install_from-Installed, install_from-AtAllTimes}

-- The log on `d` holds the transaction `bs`, which leads to the contents `f`.
pub record IsCommitted (start size : ℕ) (bs : List ℕ) (f d : ℕ → Block) : Type 0 where
  pub header : header_read (d start) ≡ bs
  pub slots : Slots start d 0 bs f
  pub holds : (b : ℕ) → is_home start size b ≡ true → count b bs ≡ 0 → d b ≡ f b

-- Recovery from `d` can lead to the contents `f`, through the transaction of its header.
pub record IsRecoverable (start size : ℕ) (f d : ℕ → Block) : Type 0 where
  pub home : AllHome start size (header_read (d start))
  pub fits : length (header_read (d start)) < size
  pub committed : IsCommitted start size (header_read (d start)) f d

pub IsCommitted-IsRecoverable :
    (start size : ℕ) (bs : List ℕ) (f d : ℕ → Block)
    → AllHome start size bs
    → length bs < size
    → IsCommitted start size bs f d
    → IsRecoverable start size f d
IsCommitted-IsRecoverable start size bs f d home fits c = record {
  home = rw c.header home;
  fits = rw c.header fits;
  committed = rw c.header c;
}

update-IsCommitted :
    (start size : ℕ) (bs : List ℕ) (f d : ℕ → Block) (b : ℕ)
    → AllHome start size bs
    → length bs < size
    → count b bs ≢ 0
    → IsCommitted start size bs f d
    → IsCommitted start size bs f (update d b (f b))
update-IsCommitted start size bs f d b home fits member c =
    let outside = AllHome-count start size bs b home in
    let apart : update d b (f b) start ≡ d start = ground (arith, outside) in
    record {
      header = ap header_read apart ∙ c.header;
      slots = Slots-update start d 0 bs f b (f b) (ground (arith, outside)) c.slots;
      holds = λ q h out. ground (arith, c.holds q h out);
    }

header_written :
    (s : Log Block) (v : Block)
    → update s.disk s.start (update s.view s.start v s.start) s.start ≡ v
header_written s v = ground arith

pub write_head-disk :
    (s : Log Block) (b : ℕ)
    → (write_head s).disk b
      ≡ (if s.start == b then header_write s.lh (s.view s.start) else s.disk b)
unfolding write_head
write_head-disk s b = ground arith

pub write_head-read :
    (s : Log Block)
    → length s.lh ≤ logsize
    → All IsWord s.lh
    → header_read ((write_head s).disk s.start) ≡ s.lh
unfolding write_head
write_head-read s small w =
    ap header_read (header_written s (header_write s.lh (s.view s.start)))
    ∙ header_read-write s.lh (s.view s.start) small w

-- The tail that `commit` and `recover_from_log` share.
abbrev pub finish : Log Block → Log Block
finish s = write_head (record (install_trans s) { lh = [] })

pub finish-AtAllTimes {μ} :
    (R : (ℕ → Block) → Type μ) (size : ℕ) (f : ℕ → Block) (s : Log Block)
    → AllHome s.start size s.lh
    → length s.lh < size
    → IsCommitted s.start size s.lh f s.disk
    → Slots s.start s.view 0 s.lh f
    → ((d : ℕ → Block) → IsCommitted s.start size s.lh f d → R d)
    → All R s.past
    → AtAllTimes (IsCommitted s.start size [] f) R (finish s)
unfolding write_head install_trans
finish-AtAllTimes R size f s home fits c slots imp old =
    let done =
      install_from-AtAllTimes (IsCommitted s.start size s.lh f) R size s.lh 0 f s home (omega arith)
        slots (λ d b member. update-IsCommitted s.start size s.lh f d b home fits member) imp
        (c, old) in
    let whole = install_from-Installed size s.lh 0 f s home (omega arith) slots in
    (
      record {
        header =
            subst (λ q. header_read ((finish s).disk q) ≡ []) whole.same_start
              (write_head-read (record (install_trans s) { lh = [] }) (omega arith) tt);
        slots = tt;
        holds = λ b h out. ground (
          arith,
          write_head-disk (record (install_trans s) { lh = [] }) b,
          whole.same_start,
          whole.on_disk b,
          c.holds b,
        );
      },
      (imp _ done.0, done.1),
    )

-- Recovery makes the contents `f` of a disk that can lead to `f`; at each crash on the way the
-- disk still can.
pub recover-AtAllTimes :
    (start size : ℕ) (f d : ℕ → Block)
    → IsRecoverable start size f d
    → AtAllTimes (IsCommitted start size [] f) (IsRecoverable start size f) (initlog start size d)
unfolding initlog recover_from_log read_head boot_on
recover-AtAllTimes start size f d r =
    finish-AtAllTimes (IsRecoverable start size f) size f (read_head (boot_on start size d)) r.home
      r.fits r.committed r.committed.slots
      (λ d' c. IsCommitted-IsRecoverable start size _ f d' r.home r.fits c) tt

-- A disk that can lead to `f` is brought to `f`.
pub initlog-disk :
    (start size : ℕ) (f d : ℕ → Block) (b : ℕ)
    → IsRecoverable start size f d
    → is_home start size b ≡ true
    → (initlog start size d).disk b ≡ f b
initlog-disk start size f d b r h = (recover-AtAllTimes start size f d r).0.holds b h refl
