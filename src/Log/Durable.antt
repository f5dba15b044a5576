-- ===== src/Log/Durable.antt =====
-- kernel/filesystem/log.c: the state at the end of `commit`.
use os2025_yyds.Common.{
  ℕ, ◌≡◌, refl, sym, subst, ◌∙◌, inl, inr, true, false, [], arith, ltb, length, All-Unit, ap,
  Bool-cases,
}
use os2025_yyds.Log.{header_read, Log, Block, install_trans, write_log, write_head, commit}
use os2025_yyds.Log.Region.{Distinct, is_home, home_part, home_part_ext, Slots-update}
use os2025_yyds.Log.Install.{install_from-Installed}
use os2025_yyds.Log.Fill.{Filled}
use os2025_yyds.Log.Recover.{IsCommitted, finish}
use os2025_yyds.Log.Fed.{IsFed, commit-fed}
use os2025_yyds.Log.Commit.{IsReady, log-Filled, commit-eq, commit-nil, commit-AtAllTimes}

-- What `commit` leaves alone.
pub record After (s t : Log Block) : Type 0 where
  pub same_start : t.start ≡ s.start
  pub same_size : t.size ≡ s.size
  pub same_outstanding : t.outstanding ≡ s.outstanding
  pub empty : t.lh ≡ []
  pub same_view : (b : ℕ) → is_home s.start s.size b ≡ true → t.view b ≡ s.view b

finish-After : (s w : Log Block) → IsReady s → Filled 0 s.lh s w → After s (finish (write_head w))
unfolding write_head install_trans
finish-After s w ready filled =
    let x = write_head w in
    let whole =
      install_from-Installed s.size w.lh 0 s.view x
        (rw (filled.same_lh, filled.same_start) ready.home)
        (omega (arith, ready.fits, ap length filled.same_lh))
        (Slots-update w.start w.view 0 w.lh s.view w.start _ (ground arith)
          (rw (filled.same_lh, filled.same_start) filled.view_slots)) in
    record {
      same_start = whole.same_start ∙ filled.same_start;
      same_size = whole.same_size ∙ filled.same_size;
      same_outstanding = whole.same_outstanding ∙ filled.same_outstanding;
      empty = refl;
      same_view = λ b h. ground (
        arith,
        whole.same_start,
        filled.same_start,
        whole.in_view b,
        filled.else_view b,
        h,
        ready.fits,
      );
    }

pub commit-After : (s : Log Block) → IsReady s → After s (commit s)
commit-After s ready = elim (Bool-cases (ltb 0 (length s.lh))) [
  | inl e ↦
      subst (After s) (sym (commit-eq s e))
        (finish-After s (write_log s) ready (log-Filled s ready))
  | inr e ↦ subst (After s) (sym (commit-nil s e)) (record {
    same_start = refl;
    same_size = refl;
    same_outstanding = refl;
    empty = ground (arith, e);
    same_view = λ b h. refl;
  })
]

After-IsReady :
    (s t : Log Block)
    → IsReady s
    → After s t
    → IsCommitted s.start s.size [] s.view t.disk
    → IsReady t
After-IsReady s t ready a c = record {
  home = rw a.empty tt;
  fits = omega (arith, ready.fits, a.same_size, ap length a.empty);
  small = omega (arith, ap length a.empty);
  words = rw a.empty tt;
  empty = subst (λ q. header_read (t.disk q) ≡ []) (sym a.same_start) c.header;
  clean = λ b h out. ground (arith, a.same_start, a.same_size, c.holds b, a.same_view b);
}

-- The disk holds the cache, and the log is ready for the next transaction.
pub record Clean (s t : Log Block) : Type 0 where
  pub on_disk : home_part s.start s.size t.disk ≡ home_part s.start s.size s.view
  pub in_view : home_part s.start s.size t.view ≡ home_part s.start s.size s.view
  pub header : header_read (t.disk s.start) ≡ []
  pub ready : IsReady t

pub commit-Clean : (s : Log Block) → IsReady s → Clean s (commit s)
commit-Clean s ready =
    let a = commit-After s ready in
    let c =
      (commit-AtAllTimes (λ _. Unit {0}) s ready
        (record { old = λ _ _. tt; new = λ _ _. tt; past = All-Unit s.past })).0 in
    record {
      on_disk = home_part_ext _ _ _ s.view (λ b h. c.holds b h refl);
      in_view = home_part_ext _ _ _ s.view a.same_view;
      header = c.header;
      ready = After-IsReady s (commit s) ready a c;
    }

-- From a state that is ready to commit, with a header of distinct blocks and a buffer cache that has
-- their buffers pinned and one to spare: `commit` finds a buffer for each `bread`, and at its end
-- each block at home is on the disk as it was in the cache, the cache has not changed there, the log
-- is empty in memory and on the disk, and it is ready for the next transaction.
pub commit_durable :
    (s : Log Block)
    → IsReady s
    → Distinct s.lh
    → IsFed s
    → let home = home_part s.start s.size in
      (home (commit s).disk ≡ home s.view)
      × (home (commit s).view ≡ home s.view)
      × ((commit s).lh ≡ [])
      × (header_read ((commit s).disk s.start) ≡ [])
      × ((commit s).bufs.starved ≡ false)
      × IsReady (commit s)
commit_durable s ready distinct fed =
    let c = commit-Clean s ready in
    (
      c.on_disk,
      c.in_view,
      (commit-After s ready).empty,
      c.header,
      commit-fed s ready distinct fed,
      c.ready,
    )
