-- ===== src/Log/Commit.antt =====
-- kernel/filesystem/log.c: the disk at all times of `commit`.
use os2025_yyds.Common.{
  ℕ, ◌≤◌, ◌<◌, ◌≡◌, refl, sym, ◌∙◌, ap, subst, inl, inr, true, false, [], arith, ltb, update,
  length, count, count-le-length, All, Bool-cases,
}
use os2025_yyds.Log.{header_read, Log, Block, logsize, write_log, write_head, commit}
use os2025_yyds.Log.Header.{IsWord}
use os2025_yyds.Log.Region.{is_home, AllHome, Slots, Slots-update}
use os2025_yyds.Log.Install.{AtAllTimes}
use os2025_yyds.Log.Fill.{Filled, write_from-Filled, write_from-AtAllTimes}
use os2025_yyds.Log.Recover.{
  IsCommitted, finish, finish-AtAllTimes, write_head-disk, write_head-read,
}

-- What `commit` relies on: the header fits and names blocks at home, the log on the disk is
-- empty, and the cache differs from the disk in logged blocks only.
pub record IsReady (s : Log Block) : Type 0 where
  pub home : AllHome s.start s.size s.lh
  pub fits : length s.lh < s.size
  pub small : length s.lh ≤ logsize
  pub words : All IsWord s.lh
  pub empty : header_read (s.disk s.start) ≡ []
  pub clean : (b : ℕ) → is_home s.start s.size b ≡ true → count b s.lh ≡ 0 → s.disk b ≡ s.view b

-- From the filled log on: the header's write, the installation, the erasure.
committed-AtAllTimes {μ} :
    (R : (ℕ → Block) → Type μ) (size : ℕ) (f : ℕ → Block) (s : Log Block)
    → AllHome s.start size s.lh
    → length s.lh < size
    → length s.lh ≤ logsize
    → All IsWord s.lh
    → Slots s.start s.disk 0 s.lh f
    → Slots s.start s.view 0 s.lh f
    → ((b : ℕ) → is_home s.start size b ≡ true → count b s.lh ≡ 0 → s.disk b ≡ f b)
    → ((d : ℕ → Block) → IsCommitted s.start size s.lh f d → R d)
    → R s.disk
    → All R s.past
    → AtAllTimes (IsCommitted s.start size [] f) R (finish (write_head s))
unfolding write_head
committed-AtAllTimes R size f s home fits small words slots cached clean imp now old =
    finish-AtAllTimes R size f (write_head s) home fits
      (record {
        header = write_head-read s small words;
        slots = Slots-update s.start s.disk 0 s.lh f s.start _ (ground arith) slots;
        holds = λ b h out. ground (arith, write_head-disk s b, clean b);
      })
      (Slots-update s.start s.view 0 s.lh f s.start _ (ground arith) cached) imp (now, old)

-- The two kinds of state that the disk goes through imply `R`, and so do the states before.
pub record Implied {μ} (R : (ℕ → Block) → Type μ) (s : Log Block) : Type μ where
  pub old : (d : ℕ → Block) → IsCommitted s.start s.size [] s.disk d → R d
  pub new : (d : ℕ → Block) → IsCommitted s.start s.size s.lh s.view d → R d
  pub past : All R s.past

pub log-Filled : (s : Log Block) → IsReady s → Filled 0 s.lh s (write_log s)
unfolding write_log
log-Filled s ready = write_from-Filled s.size s.lh 0 s ready.home (omega arith)

written-AtAllTimes {μ} :
    (R : (ℕ → Block) → Type μ) (s : Log Block)
    → IsReady s
    → Implied R s
    → AtAllTimes (IsCommitted s.start s.size [] s.disk) R (write_log s)
unfolding write_log
written-AtAllTimes R s ready i =
    write_from-AtAllTimes (IsCommitted s.start s.size [] s.disk) R s.size s.lh 0 s (omega arith)
      (λ d b v lo hi c. record {
        header = ap header_read (apart d b v lo) ∙ c.header;
        slots = tt;
        holds = λ q h out. ground (arith, c.holds q h);
      })
      i.old (record { header = ready.empty; slots = tt; holds = λ b h out. refl }, i.past)
  where
    apart : (d : ℕ → Block) (b : ℕ) (v : Block) → s.start < b → update d b v s.start ≡ d s.start
    apart d b v lo = ground arith

pub full-AtAllTimes {μ} :
    (R : (ℕ → Block) → Type μ) (s w : Log Block)
    → IsReady s
    → Implied R s
    → Filled 0 s.lh s w
    → AtAllTimes (IsCommitted s.start s.size [] s.disk) R w
    → AtAllTimes (IsCommitted s.start s.size [] s.view) R (finish (write_head w))
full-AtAllTimes R s w ready i filled before =
    let whole =
      committed-AtAllTimes R s.size s.view w (rw (filled.same_start, filled.same_lh) ready.home)
        (rw filled.same_lh ready.fits) (rw filled.same_lh ready.small)
        (rw filled.same_lh ready.words) (rw (filled.same_start, filled.same_lh) filled.disk_slots)
        (rw (filled.same_start, filled.same_lh) filled.view_slots)
        (λ b h out. ground (
          arith,
          filled.else_disk b,
          ready.clean b (rw filled.same_start at h) (rw filled.same_lh at out),
          rw filled.same_start at h,
        ))
        (λ d c. i.new d (rw (filled.same_start, filled.same_lh) at c)) (i.old w.disk before.0)
        before.1 in
    (
      subst (λ q. IsCommitted q s.size [] s.view (finish (write_head w)).disk) filled.same_start
          whole.0,
      whole.1,
    )

pub commit-eq :
    (s : Log Block) → ltb 0 (length s.lh) ≡ true → commit s ≡ finish (write_head (write_log s))
unfolding commit
commit-eq s e = rw e refl

pub commit-nil : (s : Log Block) → ltb 0 (length s.lh) ≡ false → commit s ≡ s
unfolding commit
commit-nil s e = rw e refl

-- After `commit` the log on the disk is empty and the disk holds what the cache held; each state
-- on the way is one of the two kinds.
pub commit-AtAllTimes {μ} :
    (R : (ℕ → Block) → Type μ) (s : Log Block)
    → IsReady s
    → Implied R s
    → AtAllTimes (IsCommitted s.start s.size [] s.view) R (commit s)
commit-AtAllTimes R s ready i = elim (Bool-cases (ltb 0 (length s.lh))) [
  | inl e ↦ subst (AtAllTimes (IsCommitted s.start s.size [] s.view) R) (sym (commit-eq s e)) (
      full-AtAllTimes R s (write_log s) ready i (log-Filled s ready)
        (written-AtAllTimes R s ready i))
  | inr e ↦ subst (AtAllTimes (IsCommitted s.start s.size [] s.view) R) (sym (commit-nil s e)) (
    record {
      header = ready.empty;
      slots = tt;
      holds = λ b h out. ready.clean b h (ground (arith, count-le-length b s.lh));
    },
    i.past,
  )
]
