-- ===== src/Bio.antt =====
-- kernel/filesystem/bio.c: the buffer cache, NBUF buffers on NBUCKET hash chains.
--
-- A buffer is its index in `bcache.buf`. The doubly linked list of a bucket is the list of the
-- indexes from `head.next` on. `disk` is what the disk holds, by device and block, and a call of
-- `virtio_disk_rw` one exchange of a block's content with it; `ticks` is the argument `now`.
-- `bget` is the part of the code up to `acquiresleep`: the caller waits for the sleep lock of the
-- buffer and then goes on with the rest of `bread`, which is `fill`. The callers of `bwrite` and
-- `brelse` hold the lock. `bget` looks at one state of all buckets: the
-- locks of the buckets, which it takes one at a time while it has its own, are not modelled.
pub mod Search
pub mod Invariant
pub mod Get
pub mod View
pub mod Read
pub mod Write
pub mod System
mod Tests
use os2025_yyds.Common.{
  ℕ, zero, suc, ◌+◌, ◌-◌, ◌*◌, ◌%◌, ◌^◌, Bool, true, false, not, ◌&&◌, ◌||◌, List, [], ◌∷◌, Option,
  none, some, ltb, ◌==◌, if◌then◌else◌, update, remove_first, Outcome, done, panic, ◌>>=◌,
}
use os2025_yyds.Log.{maxopblocks}

abbrev pub nbuf : ℕ
nbuf = maxopblocks * 3

abbrev pub nbucket : ℕ
nbucket = 13

abbrev pub hash : ℕ → ℕ
hash id = id % nbucket

pub record Buf (B : Type 0) : Type 0 where
  pub valid : Bool
  pub dev : ℕ
  pub blockno : ℕ
  pub refcnt : ℕ
  pub timestamp : ℕ
  pub content : B

pub record Bcache (B : Type 0) : Type 0 where
  pub bufs : ℕ → Buf B
  pub buckets : ℕ → List ℕ
  pub disk : ℕ → ℕ → B

-- The second loop of `binit`: each buffer goes to the front of bucket 0.
pub link_bufs : ℕ → List ℕ → List ℕ
link_bufs zero l = l
link_bufs (suc n) l = n ∷ link_bufs n l

-- A buffer of another bucket comes to the front of its new one.
pub move_buf : ℕ → ℕ → ℕ → (ℕ → List ℕ) → ℕ → List ℕ
move_buf i bid b buckets =
    let without = update buckets i (remove_first b (buckets i)) in
    if i == bid then buckets else update without bid (b ∷ without bid)

module _ {B : Type 0} where
  -- Static storage is zero when the kernel starts.
  pub binit : B → (ℕ → ℕ → B) → Bcache B
  binit zeroes disk = record {
    bufs = λ _. record {
      valid = false;
      dev = 0;
      blockno = 0;
      refcnt = 0;
      timestamp = 0;
      content = zeroes;
    };
    buckets = λ i. if i == 0 then link_bufs nbuf [] else [];
    disk = disk;
  }

  abbrev pub holds : ℕ → ℕ → Buf B → Bool
  holds dev blockno b = b.dev == dev && b.blockno == blockno

  -- The first loop of `bget`.
  pub search_bucket : ℕ → ℕ → (ℕ → Buf B) → List ℕ → Option ℕ
  search_bucket dev blockno bufs [] = none
  search_bucket dev blockno bufs (b ∷ bs) =
      let later = search_bucket dev blockno bufs bs in
      if holds dev blockno (bufs b) then some b else later

  -- Whether the buffer is a better choice than the best one so far.
  pub is_better : (ℕ → Buf B) → ℕ → Option ℕ → Bool
  is_better bufs t none = (bufs t).refcnt == 0
  is_better bufs t (some b) = (bufs t).refcnt == 0 && ltb (bufs t).timestamp (bufs b).timestamp

  -- The loop over one bucket for an unused buffer, with the best one so far.
  pub lru : (ℕ → Buf B) → List ℕ → Option ℕ → Option ℕ
  lru bufs [] best = best
  lru bufs (t ∷ ts) best = lru bufs ts (if is_better bufs t best then some t else best)

  -- The loop over the buckets from `i` on, with `n` rounds left: the bucket and the buffer.
  pub find_unused : (ℕ → Buf B) → (ℕ → List ℕ) → ℕ → ℕ → Option (ℕ × ℕ)
  find_unused bufs buckets zero i = none
  find_unused bufs buckets (suc n) i =
      let later = find_unused bufs buckets n ((i + 1) % nbucket) in
      elim (lru bufs (buckets i) none) [ none ↦ later | some b ↦ some (i, b) ]

  abbrev pub set_buf : ℕ → Buf B → Bcache B → Bcache B
  set_buf b x s = record s { bufs = update s.bufs b x }

  pub touch : ℕ → ℕ → Bcache B → Bcache B
  touch now b s =
      let x = s.bufs b in
      set_buf b (record x { refcnt = (x.refcnt + 1) % 2 ^ 32; timestamp = now }) s

  pub recycle : ℕ → ℕ → ℕ → ℕ → ℕ → Bcache B → Bcache B
  recycle now dev blockno i b s =
      let x : Buf B = record (s.bufs b) {
        dev = dev;
        blockno = blockno;
        valid = false;
        refcnt = 1;
        timestamp = now;
      } in
      record (set_buf b x s) { buckets = move_buf i (hash blockno) b s.buckets }

  pub bget : ℕ → ℕ → ℕ → Bcache B → Outcome (ℕ × Bcache B)
  bget now dev blockno s =
      let bid = hash blockno in
      elim (search_bucket dev blockno s.bufs (s.buckets bid)) [
        | some b ↦ done (b, touch now b s)
        | none ↦ elim (find_unused s.bufs s.buckets nbucket bid) [
          | none ↦ panic
          | some (i, b) ↦ done (b, recycle now dev blockno i b s)
        ]
      ]

  -- The rest of `bread`.
  pub fill : ℕ → Bcache B → Bcache B
  fill b s =
      let x = s.bufs b in
      if x.valid
      then s
      else set_buf b (record x { valid = true; content = s.disk x.dev x.blockno }) s

  pub bread : ℕ → ℕ → ℕ → Bcache B → Outcome (ℕ × Bcache B)
  bread now dev blockno s = bget now dev blockno s >>= λ r. done (r.0, fill r.0 r.1)

  pub bwrite : ℕ → Bcache B → Bcache B
  bwrite b s =
      let x = s.bufs b in
      record s { disk = update s.disk x.dev (update (s.disk x.dev) x.blockno x.content) }

  pub brelse : ℕ → ℕ → Bcache B → Bcache B
  brelse now b s =
      let x = s.bufs b in
      set_buf b (record x { refcnt = (x.refcnt + 2 ^ 32 - 1) % 2 ^ 32; timestamp = now }) s

  pub bpin : ℕ → Bcache B → Bcache B
  bpin b s = let x = s.bufs b in set_buf b (record x { refcnt = (x.refcnt + 1) % 2 ^ 32 }) s

  pub bunpin : ℕ → Bcache B → Bcache B
  bunpin b s =
      let x = s.bufs b in set_buf b (record x { refcnt = (x.refcnt + 2 ^ 32 - 1) % 2 ^ 32 }) s

  -- A caller that holds the buffer changes its content.
  abbrev pub modify : ℕ → B → Bcache B → Bcache B
  modify b v s = set_buf b (record (s.bufs b) { content = v }) s
