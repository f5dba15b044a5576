-- ===== src/Log/System.antt =====
-- kernel/filesystem/log.c: file system calls that share the log. Each running call may still log as
-- many blocks as its budget says; `begin_op` is to see to it that the log has room for all of them.
-- The last call's `end_op` gives up the lock of the log before it commits, so other calls can try to
-- begin between the two: `leaves` and `commits` are steps of their own.
use os2025_yyds.Common.{
  ℕ, suc, ◌+◌, ◌*◌, ◌^◌, ◌≤◌, ◌<◌, ◌≡◌, true, false, List, [], ◌∷◌, ◌++◌, some, length, sum, All,
  done,
}
use os2025_yyds.Log.{
  Log, Block, maxopblocks, logsize, modify, begin_op, log_write, end_leave, end_commit,
}
use os2025_yyds.Log.Region.{is_home, Distinct}
use os2025_yyds.Log.Commit.{IsReady}

-- The log, and for each running call the number of blocks that it may still log.
pub record World (B : Type 0) : Type 0 where
  pub log : Log B
  pub budgets : List ℕ

-- A call begins, changes and logs a block at home within its budget, or leaves, and the call that
-- left last commits. A commit that finds no buffer panics, and so it is no step.
pub data Step (w w' : World Block) : Type 0 where
  begins : begin_op w.log ≡ some w'.log → w'.budgets ≡ maxopblocks ∷ w.budgets → Step w w'
  writes :
      (xs ys : List ℕ) (k b : ℕ) (v : Block)
      → w.budgets ≡ xs ++ suc k ∷ ys
      → is_home w.log.start w.log.size b ≡ true
      → b < 2 ^ 32
      → log_write b (modify b v w.log) ≡ done w'.log
      → w'.budgets ≡ xs ++ k ∷ ys
      → Step w w'
  leaves :
      (xs ys : List ℕ) (k : ℕ)
      → w.budgets ≡ xs ++ k ∷ ys
      → end_leave w.log ≡ done w'.log
      → w'.budgets ≡ xs ++ ys
      → Step w w'
  commits :
      w.log.committing ≡ true
      → w'.log ≡ end_commit w.log
      → w'.log.bufs.starved ≡ false
      → w'.budgets ≡ w.budgets
      → Step w w'

-- `s` is the log and `bs` are the budgets of the running calls: no call runs during a commit.
pub record IsSound (s : Log Block) (bs : List ℕ) : Type 0 where
  pub ready : IsReady s
  pub distinct : Distinct s.lh
  pub counted : s.outstanding ≡ length bs
  pub reserved : length s.lh + sum bs ≤ logsize
  pub few : maxopblocks * length bs ≤ logsize
  pub within : All (λ k. k ≤ maxopblocks) bs
  pub busy : s.committing ≡ true → bs ≡ []

-- Any number of steps.
pub data Reach (w : World Block) : World Block → Type 0 where
  here : Reach w w
  next : {u u' : World Block} → Reach w u → Step u u' → Reach w u'
