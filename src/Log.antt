-- ===== src/Log.antt =====
-- kernel/filesystem/log.c: the redo log of the file system.
--
-- `disk` is what the disk holds, `view` what `bread` would return for a block: the copy in the
-- buffer cache, or else the disk's block. `refcnt` is the field of the cached buffers, a `uint`;
-- its buffers are locked from `bread` to `brelse`, so the tests of `bwrite` and `brelse` pass.
-- `past` is no part of the code: it records every content that the disk had before a write, newest
-- first, and so the states that a crash can leave behind. `lh` is `log.lh.block[0 .. log.lh.n)`.
-- A block is its bits, as in Fs, and a header in it is read and written word by word. The device is one.
-- `spare` is the number of buffers of the cache with the reference count 0. `starved` says that a
-- `bread` has found no buffer for its block, where `bget` panics: what the model does after that the
-- code does not, and what it has recorded before is all that a crash there can leave.
-- A function that may `sleep` is modelled by its attempt: `none` means that the caller sleeps and
-- tries again later. `log.outstanding` is an `int`, as its 32-bit pattern.
pub mod Header
pub mod Region
pub mod Install
pub mod Fill
pub mod Recover
pub mod Commit
pub mod Crash
pub mod Counts
pub mod Buffers
pub mod Fed
pub mod Pins
pub mod Durable
pub mod Absorb
pub mod System
pub mod Moves
pub mod Reserve
mod Tests
use os2025_yyds.Fs.{Block, load, store}
use os2025_yyds.Common.{
  zero, ℕ, suc, ◌+◌, ◌-◌, ◌*◌, ◌%◌, ◌^◌, ◌≤◌, ◌≡◌, Bool, true, false, ◌&&◌, ◌||◌, List, [], ◌∷◌,
  ◌++◌, Option, none, some, ltb, leb, ◌==◌, if◌then◌else◌, update, length, set, Outcome, done, ◌>>◌,
  panic_if,
}

abbrev pub maxopblocks : ℕ
maxopblocks = 10

abbrev pub logsize : ℕ
logsize = maxopblocks * 3

abbrev pub nbuf : ℕ
nbuf = maxopblocks * 3

-- `n` words of a block, from the word `i` on, as `read_head` copies them, and words copied there.
pub words_from : ℕ → ℕ → Block → List ℕ
words_from zero i f = []
words_from (suc n) i f = load 32 (32 * i) f ∷ words_from n (i + 1) f

pub words_to : List ℕ → ℕ → Block → Block
words_to [] i f = f
words_to (b ∷ bs) i f = words_to bs (i + 1) (store 32 (32 * i) b f)

-- `struct logheader` in a block: `n`, an `int`, in the first word, and `block` behind it. A
-- header of more than LOGSIZE blocks would overrun `log.lh` in the code; no theorem is about one.
pub header_read : Block → List ℕ
header_read f = let n = load 32 0 f in if ltb n (2 ^ 31) then words_from n 1 f else []

pub header_write : List ℕ → Block → Block
header_write bs f = words_to bs 1 (store 32 0 (length bs) f)

-- The buffer cache: the reference counts of the cached blocks, and what is said of it above.
pub record Bufs : Type 0 where
  pub refcnt : ℕ → ℕ
  pub spare : ℕ
  pub starved : Bool

pub record Log (B : Type 0) : Type 0 where
  pub start : ℕ
  pub size : ℕ
  pub outstanding : ℕ
  pub committing : Bool
  pub lh : List ℕ
  pub view : ℕ → B
  pub disk : ℕ → B
  pub bufs : Bufs
  pub past : List (ℕ → B)

abbrev pub uint_inc : ℕ → ℕ
uint_inc c = (c + 1) % 2 ^ 32

abbrev pub uint_dec : ℕ → ℕ
uint_dec c = (c + 2 ^ 32 - 1) % 2 ^ 32

-- The loop of `log_write`: the first place of the block in the header, or the header's length.
pub slot_of : ℕ → List ℕ → ℕ
slot_of b [] = 0
slot_of b (x ∷ xs) = if x == b then 0 else suc (slot_of b xs)

-- The references: `bread` and `bpin` add one, `brelse` and `bunpin` take one away.
pub bpin : ℕ → Bufs → Bufs
bpin b c = record c {
  refcnt = update c.refcnt b (uint_inc (c.refcnt b));
  spare = if c.refcnt b == 0 then c.spare - 1 else c.spare;
}

-- `bread` of a block without references takes a buffer that is not in use.
pub take : ℕ → Bufs → Bufs
take b c = record (bpin b c) { starved = c.starved || (c.refcnt b == 0 && c.spare == 0) }

pub give : ℕ → Bufs → Bufs
give b c = record c {
  refcnt = update c.refcnt b (uint_dec (c.refcnt b));
  spare = if c.refcnt b == 0 then c.spare - 1 else if c.refcnt b == 1 then c.spare + 1 else c.spare;
}

module _ {B : Type 0} where
  abbrev pub pin : ℕ → Log B → Log B
  pin b s = record s { bufs = bpin b s.bufs }

  abbrev pub hold : ℕ → Log B → Log B
  hold b s = record s { bufs = take b s.bufs }

  abbrev pub drop : ℕ → Log B → Log B
  drop b s = record s { bufs = give b s.bufs }

  -- A change of the cached copy of a block.
  abbrev pub modify : ℕ → B → Log B → Log B
  modify b v s = record s { view = update s.view b v }

  abbrev pub bwrite : ℕ → Log B → Log B
  bwrite b s = record s { disk = update s.disk b (s.view b); past = s.disk ∷ s.past }

  -- One round of `install_trans`, for the log block `l` and the block `b`.
  pub install_one : ℕ → ℕ → Log B → Log B
  install_one l b s =
      let s1 = hold b (hold l s) in
      let s2 = bwrite b (modify b (s1.view l) s1) in drop b (drop l (drop b s2))

  -- The loop of `install_trans` over the rest of the header, from `tail` on.
  pub install_from : List ℕ → ℕ → Log B → Log B
  install_from [] tail s = s
  install_from (b ∷ bs) tail s = install_from bs (tail + 1) (install_one (s.start + tail + 1) b s)

  pub install_trans : Log B → Log B
  install_trans s = install_from s.lh 0 s

  -- One round of `write_log`.
  pub write_one : ℕ → ℕ → Log B → Log B
  write_one l b s =
      let s1 = hold b (hold l s) in
      let s2 = bwrite l (modify l (s1.view b) s1) in drop l (drop b s2)

  pub write_from : List ℕ → ℕ → Log B → Log B
  write_from [] tail s = s
  write_from (b ∷ bs) tail s = write_from bs (tail + 1) (write_one (s.start + tail + 1) b s)

  pub write_log : Log B → Log B
  write_log s = write_from s.lh 0 s

  -- `while(1)` of `begin_op`: the attempt. The sum is an `int`, compared with LOGSIZE.
  pub begin_op : Log B → Option (Log B)
  begin_op s =
      let need = (length s.lh + uint_inc s.outstanding * maxopblocks) % 2 ^ 32 in
      if s.committing
      then none
      else if ltb logsize need && ltb need (2 ^ 31)
      then none
      else some (record s { outstanding = uint_inc s.outstanding })

  pub log_write : ℕ → Log B → Outcome (Log B)
  log_write b s = do
    panic_if (leb logsize (length s.lh) || leb (s.size - 1) (length s.lh))
    panic_if (s.outstanding == 0 || leb (2 ^ 31) s.outstanding)
    let i = slot_of b s.lh
    let added : Log B = pin b (record s { lh = s.lh ++ (b ∷ []) })
    done (if i == length s.lh then added else record s { lh = set s.lh i b })

pub read_head : Log Block → Log Block
read_head s = drop s.start (record (hold s.start s) { lh = header_read (s.view s.start) })

pub write_head : Log Block → Log Block
write_head s =
    let s1 = hold s.start s in
    let s2 = bwrite s.start (modify s.start (header_write s.lh (s1.view s.start)) s1) in
    drop s.start s2

pub recover_from_log : Log Block → Log Block
recover_from_log s = let s1 = install_trans (read_head s) in write_head (record s1 { lh = [] })

-- `initlog`, with the superblock's `logstart` and `nlog`, on the disk `d` of a machine that starts.
pub boot_on : ℕ → ℕ → (ℕ → Block) → Log Block
boot_on start size d = record {
  start = start;
  size = size;
  outstanding = 0;
  committing = false;
  lh = [];
  view = d;
  disk = d;
  bufs = record { refcnt = λ _. 0; spare = nbuf; starved = false };
  past = [];
}

pub initlog : ℕ → ℕ → (ℕ → Block) → Log Block
initlog start size d = recover_from_log (boot_on start size d)

-- `if (log.lh.n > 0) { ... }`.
pub commit : Log Block → Log Block
commit s =
    let s1 = install_trans (write_head (write_log s)) in
    let s2 = write_head (record s1 { lh = [] }) in if ltb 0 (length s.lh) then s2 else s

-- `end_op` until it gives up the lock of the log: the last call marks the log as committing.
pub end_leave : Log Block → Outcome (Log Block)
end_leave s = do
  let n = uint_dec s.outstanding
  panic_if s.committing
  done (
      if n == 0
      then record s { outstanding = n; committing = true }
      else record s { outstanding = n })

-- `if(do_commit)`: the rest of `end_op`, which runs without the lock.
pub end_commit : Log Block → Log Block
end_commit s = record (commit s) { committing = false }
