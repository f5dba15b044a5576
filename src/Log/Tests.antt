-- ===== src/Log/Tests.antt =====
-- kernel/filesystem/log.c: runs of the model, and its theorems at concrete inputs.
use os2025_yyds.Common.{
  ℕ, ◌≡◌, refl, ◌⊎◌, true, false, [], ◌∷◌, arith, update, get_or, done, count, if◌then◌else◌, ◌==◌,
}
use os2025_yyds.Log.{
  Log, Block, maxopblocks, begin_op, commit, end_leave, end_commit, initlog, write_head, write_log,
  install_trans, install_from, install_one, write_from, write_one, header_read, header_write,
}
use os2025_yyds.Log.Region.{home_part}
use os2025_yyds.Log.Commit.{IsReady}
use os2025_yyds.Log.Crash.{disk_states, boots, commit_atomic}
use os2025_yyds.Log.Durable.{commit_durable}
use os2025_yyds.Log.Fed.{IsFed}
use os2025_yyds.Log.Header.{header_read-write}
use os2025_yyds.Log.Pins.{commit-refcnt, initlog_underflow}
use os2025_yyds.Log.System.{World, Step, begins, leaves, commits, IsSound, here, next}
use os2025_yyds.Log.Reserve.{Step-IsSound, end_op_succeeds}

abbrev blank : Block
blank = λ i. false

abbrev filled : Block
filled = λ i. true

-- A disk with an empty log.
abbrev fresh : ℕ → Block
fresh = update (λ _. blank) 2 (header_write [] blank)

-- Two blocks changed in the cache, 50 and 51, and entered in the header, in a log of LOGSIZE blocks.
abbrev ready : Log Block
ready = record {
  start = 2;
  size = 30;
  outstanding = 1;
  committing = false;
  lh = 50 ∷ 51 ∷ [];
  view = update (update fresh 50 filled) 51 filled;
  disk = fresh;
  bufs = record { refcnt = update (update (λ _. 0) 50 1) 51 1; spare = 28; starved = false };
  past = [];
}

ready-IsReady : IsReady ready
ready-IsReady = record {
  home = (refl, (refl, tt));
  fits = omega arith;
  small = omega arith;
  words = (omega arith, (omega arith, tt));
  empty = header_read-write [] blank (omega arith) tt;
  clean = λ b h out. ground arith;
}

ready-IsFed : IsFed ready
ready-IsFed = record {
  has = record { fed = refl; enough = omega arith };
  below = λ q. ground arith;
  pinned = λ q e. ground (arith, e);
}

-- The disk after the header's write and one block's installation.
abbrev crashed : ℕ → Block
crashed = get_or (disk_states (commit (record ready { past = [] }))) 2 (λ _. blank)

commit_atomic_example :
    let home = home_part 2 30 in
    let last = home (initlog 2 30 crashed).disk in (last ≡ home fresh) ⊎ (last ≡ home ready.view)
unfolding commit write_head write_log install_trans write_from write_one install_from install_one
commit_atomic_example = commit_atomic ready 2 crashed crashed ready-IsReady refl boots

crashed_home : (crashed 50 0 ≡ true) × (crashed 51 0 ≡ false)
unfolding commit write_head write_log install_trans write_from write_one install_from install_one
crashed_home = (refl, refl)

crashed_header : header_read (crashed 2) ≡ 50 ∷ 51 ∷ []
unfolding commit write_head write_log install_trans write_from write_one install_from install_one
crashed_header =
    header_read-write (50 ∷ 51 ∷ []) (header_write [] blank) (omega arith)
      (omega arith, (omega arith, tt))

commit_durable_example :
    let home = home_part 2 30 in
    (home (commit ready).disk ≡ home ready.view)
    × (home (commit ready).view ≡ home ready.view)
    × ((commit ready).lh ≡ [])
    × (header_read ((commit ready).disk 2) ≡ [])
    × ((commit ready).bufs.starved ≡ false)
    × IsReady (commit ready)
commit_durable_example = commit_durable ready ready-IsReady (refl, (refl, tt)) ready-IsFed

commit-refcnt_example : ((commit ready).bufs.starved ≡ false) × ((commit ready).bufs.refcnt 50 ≡ 0)
commit-refcnt_example = commit-refcnt ready 50 ready-IsReady (refl, (refl, tt)) ready-IsFed

-- A disk whose log holds a committed transaction for block 50.
abbrev committed : ℕ → Block
committed = update (update (λ _. blank) 2 (header_write (50 ∷ []) blank)) 3 filled

committed_header : header_read (committed 2) ≡ 50 ∷ []
committed_header = header_read-write (50 ∷ []) blank (omega arith) (omega arith, tt)

initlog_underflow_example :
    ((initlog 2 30 committed).bufs.starved ≡ false)
    × ((initlog 2 30 committed).bufs.refcnt 50
        ≡ (if count 50 (header_read (committed 2)) == 0 then 0 else 4294967295))
initlog_underflow_example =
    initlog_underflow 2 30 committed 50 (rw committed_header (refl, tt))
      (rw committed_header (refl, tt)) (rw committed_header (omega arith))
      (rw committed_header (omega arith))

-- One call is running, and has logged 50 and 51.
abbrev world : World Block
world = record { log = ready; budgets = 8 ∷ [] }

world-IsSound : IsSound ready (8 ∷ [])
world-IsSound = record {
  ready = ready-IsReady;
  distinct = (refl, (refl, tt));
  counted = refl;
  reserved = omega arith;
  few = omega arith;
  within = (omega arith, tt);
  busy = λ e. cc;
}

-- A second call begins.
abbrev two_calls : World Block
two_calls = record { log = record ready { outstanding = 2 }; budgets = maxopblocks ∷ 8 ∷ [] }

second_begins : Step world two_calls
unfolding begin_op
second_begins = begins refl refl

-- The first call leaves, as the only one, and commits.
abbrev leaving : World Block
leaving = record { log = record ready { outstanding = 0; committing = true }; budgets = [] }

first_leaves : Step world leaving
unfolding end_leave
first_leaves = leaves [] [] 8 refl refl refl

Step-IsSound_example : IsSound two_calls.log two_calls.budgets
Step-IsSound_example = Step-IsSound second_begins world-IsSound

leaving_commits : Step leaving (record { log = end_commit leaving.log; budgets = [] })
unfolding end_commit
leaving_commits =
    commits refl refl
      (commit_durable leaving.log (Step-IsSound first_leaves world-IsSound).ready (refl, (refl, tt))
        (record {
          has = ready-IsFed.has;
          below = ready-IsFed.below;
          pinned = ready-IsFed.pinned;
        })).4
      refl

end_op_succeeds_example :
    (t : Log Block) × (end_leave two_calls.log ≡ done t)
    × (t.outstanding ≡ 1)
    × (t.committing ≡ false)
end_op_succeeds_example =
    end_op_succeeds [] (8 ∷ []) 10 world-IsSound (next here second_begins) refl
