-- ===== src/Log/Crash.antt =====
-- kernel/filesystem/log.c: crashes of the machine during `commit` and during recovery.
use os2025_yyds.Common.{
  ℕ, zero, suc, ◌≡◌, ◌⊎◌, inl, inr, List, [], ◌∷◌, some, subst, arith, get_elem?, All,
}
use mathlib.Core.Option.{some-injective}
use os2025_yyds.Log.{Log, Block, commit, initlog}
use os2025_yyds.Log.Region.{home_part, home_part_ext}
use os2025_yyds.Log.Install.{AtAllTimes}
use os2025_yyds.Log.Recover.{
  IsCommitted, IsRecoverable, IsCommitted-IsRecoverable, initlog-disk, recover-AtAllTimes,
}
use os2025_yyds.Log.Commit.{IsReady, commit-AtAllTimes}

All-get_elem? {ℓ κ} :
    {A : Type ℓ} (P : A → Type κ) (xs : List A) (i : ℕ) {a : A}
    → All P xs
    → get_elem? xs i ≡ some a
    → P a
All-get_elem? P [] i h e = cc
All-get_elem? P (x ∷ xs) zero h e = subst P (some-injective _ _ e) h.0
All-get_elem? P (x ∷ xs) (suc i) h e = All-get_elem? P xs i h.1 e

-- The states of the disk during a call, which started with nothing recorded, and after it.
abbrev pub disk_states : {B : Type 0} → Log B → List (ℕ → B)
disk_states s = s.disk ∷ s.past

-- Any number of crashes during recovery: each leaves a state that the disk had on the way.
pub data Reboots (start size : ℕ) (d : ℕ → Block) : (ℕ → Block) → Type 0 where
  boots : Reboots start size d d
  crashes :
      {e : ℕ → Block} {e' : ℕ → Block} (i : ℕ)
      → Reboots start size d e
      → get_elem? (initlog start size e).past i ≡ some e'
      → Reboots start size d e'

Reboots-IsRecoverable :
    {start size : ℕ} {d e : ℕ → Block} (f : ℕ → Block)
    → IsRecoverable start size f d
    → Reboots start size d e
    → IsRecoverable start size f e
Reboots-IsRecoverable f r boots = r
Reboots-IsRecoverable {start} {size} f r (crashes {e = e} i before at) =
    All-get_elem? (IsRecoverable start size f) _ i
      (recover-AtAllTimes start size f e (Reboots-IsRecoverable f r before)).1 at

-- The disk leads to what it held when `s` was ready, or to what the cache held.
abbrev OldOrNew : Log Block → (ℕ → Block) → Type 0
OldOrNew s d = IsRecoverable s.start s.size s.disk d ⊎ IsRecoverable s.start s.size s.view d

-- From a state that is ready to commit, after a crash at any point of `commit`, followed by any
-- number of crashes during recovery: once `initlog` ends, either all blocks at home are as they were
-- before the commit or all are as in the cache.
pub commit_atomic :
    (s : Log Block) (i : ℕ) (d e : ℕ → Block)
    → IsReady s
    → get_elem? (disk_states (commit (record s { past = [] }))) i ≡ some d
    → Reboots s.start s.size d e
    → let home = home_part s.start s.size in
      let last = home (initlog s.start s.size e).disk in (last ≡ home s.disk) ⊎ (last ≡ home s.view)
commit_atomic s i d e ready at reboots =
    elim (All-get_elem? (OldOrNew s) (disk_states (commit (record s { past = [] }))) i states at) [
      | inl old ↦ inl (leads s.disk old)
      | inr new ↦ inr (leads s.view new)
    ]
  where
    leads :
        (f : ℕ → Block)
        → IsRecoverable s.start s.size f d
        → home_part s.start s.size (initlog s.start s.size e).disk ≡ home_part s.start s.size f
    leads f r =
        home_part_ext s.start s.size _ f
          λ b h. initlog-disk s.start s.size f e b (Reboots-IsRecoverable f r reboots) h

    start : Log Block
    start = record s { past = [] }

    -- An empty header leads to what the disk holds.
    plain : (f d : ℕ → Block) → IsCommitted s.start s.size [] f d → IsRecoverable s.start s.size f d
    plain f d c = IsCommitted-IsRecoverable s.start s.size [] f d tt (omega (arith, ready.fits)) c

    times : AtAllTimes (IsCommitted s.start s.size [] s.view) (OldOrNew s) (commit start)
    times =
        commit-AtAllTimes (OldOrNew s) start
          (record {
            home = ready.home;
            fits = ready.fits;
            small = ready.small;
            words = ready.words;
            empty = ready.empty;
            clean = ready.clean;
          })
          (record {
            old = λ d c. inl (plain s.disk d c);
            new = λ d c.
                inr
                  (IsCommitted-IsRecoverable s.start s.size s.lh s.view d ready.home ready.fits c);
            past = tt;
          })

    states : All (OldOrNew s) (disk_states (commit start))
    states = (inr (plain s.view _ times.0), times.1)
