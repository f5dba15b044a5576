-- ===== src/Fs.antt =====
-- kernel/filesystem/fs.c: the allocator of disk blocks, and the blocks of a file.
--
-- `blocks` is what readers see of the disk through the buffer cache and the log: a block is the
-- function from a bit to its value, the low bit of each byte first. `bread` reads it, and a change of a
-- buffer and `log_write` write it. `(uint *)bp->data` read at `j` is the 32 bits from `32 * j` on.
-- `addrs` is the array of an inode. The limits of the log are in Log.
pub mod Bits
pub mod Balloc
pub mod File
pub mod Assign
pub mod Place
pub mod Bmap
pub mod Free
pub mod Slots
pub mod Lists
pub mod Trunc
mod Tests
use os2025_yyds.Common.{
  ℕ, zero, suc, ◌+◌, ◌-◌, ◌*◌, ◌/◌, ◌%◌, ◌^◌, Bool, true, false, not, ◌&&◌, Option, none, some, ltb,
  leb, ◌==◌, if◌then◌else◌, update, first_of, Outcome, done, panic, no_fuel, ◌>>=◌,
}

abbrev pub bsize : ℕ
bsize = 1024

-- Bits per block.
abbrev pub bpb : ℕ
bpb = bsize * 8

abbrev pub ndirect : ℕ
ndirect = 11

-- Addresses in a block, NINDIRECT and NADDR_PER_BLOCK.
abbrev pub nindirect : ℕ
nindirect = bsize / 4

abbrev pub ndindirect : ℕ
ndindirect = nindirect * nindirect

abbrev pub Block : Type 0
Block = ℕ → Bool

pub record Superblock : Type 0 where
  pub size : ℕ
  pub ninodes : ℕ
  pub inodestart : ℕ
  pub bmapstart : ℕ

pub record Disk : Type 0 where
  pub sb : Superblock
  pub blocks : ℕ → ℕ → Block

-- `n` bits from `at` on as a number, and a number written there.
pub load : ℕ → ℕ → Block → ℕ
load zero at f = 0
load (suc n) at f = (if f at then 1 else 0) + 2 * load n (at + 1) f

pub bit_at : ℕ → ℕ → Bool
bit_at zero x = x % 2 == 1
bit_at (suc j) x = bit_at j (x / 2)

pub store : ℕ → ℕ → ℕ → Block → Block
store n at x f k = if leb at k && ltb k (at + n) then bit_at (k - at) x else f k

abbrev pub set_block : ℕ → ℕ → Block → Disk → Disk
set_block dev c f s = record s { blocks = update s.blocks dev (update (s.blocks dev) c f) }

abbrev pub bblock : ℕ → Disk → ℕ
bblock b s = b / bpb + s.sb.bmapstart

pub bzero : ℕ → ℕ → Disk → Disk
bzero dev bno s = set_block dev bno (λ k. false) s

abbrev pub mark : Bool → ℕ → ℕ → Disk → Disk
mark used dev b s = set_block dev (bblock b s) (update (s.blocks dev (bblock b s)) (b % bpb) used) s

-- How many bits of the bitmap block of `b` the inner loop looks at.
pub room : ℕ → Disk → ℕ
room b s = if ltb bpb (s.sb.size - b) then bpb else s.sb.size - b

-- The loop over the bitmap blocks from the block `b` on, with `n` rounds left.
pub balloc_from : ℕ → ℕ → ℕ → Disk → Outcome (ℕ × Disk)
balloc_from dev zero b s = no_fuel
balloc_from dev (suc n) b s =
    let bits = s.blocks dev (bblock b s) in
    let here = first_of (room b s) (λ bi. not (bits bi)) in
    let later = balloc_from dev n (b + bpb) s in
    if ltb b s.sb.size
    then elim here [
      | none ↦ later
      | some bi ↦
          done (b + bi, bzero dev (b + bi) (set_block dev (bblock b s) (update bits bi true) s))
    ]
    else panic

pub balloc : ℕ → Disk → Outcome (ℕ × Disk)
balloc dev s = balloc_from dev (s.sb.size / bpb + 2) 0 s

pub bfree : ℕ → ℕ → Disk → Outcome Disk
bfree dev b s = if s.blocks dev (bblock b s) (b % bpb) then done (mark false dev b s) else panic

abbrev pub word : ℕ → ℕ → ℕ → Disk → ℕ
word dev c j s = load 32 (32 * j) (s.blocks dev c)

abbrev pub set_word : ℕ → ℕ → ℕ → ℕ → Disk → Disk
set_word dev c j x s = set_block dev c (store 32 (32 * j) x (s.blocks dev c)) s

-- The address at `j` of the inode's array, which is allocated if there is none.
pub map_inode : ℕ → ℕ → (ℕ → ℕ) → Disk → Outcome (ℕ × (ℕ → ℕ) × Disk)
map_inode dev j addrs s =
    if addrs j == 0
    then balloc dev s >>= (λ r. done (r.0, update addrs j r.0, r.1))
    else done (addrs j, addrs, s)

-- The address at `j` of the block `c`.
pub map_block : ℕ → ℕ → ℕ → Disk → Outcome (ℕ × Disk)
map_block dev c j s =
    if word dev c j s == 0
    then balloc dev s >>= (λ r. done (r.0, set_word dev c j r.0 r.1))
    else done (word dev c j s, s)

-- The address at `j` of the block that the inode's array names at `i`.
pub map_through : ℕ → ℕ → ℕ → (ℕ → ℕ) → Disk → Outcome (ℕ × (ℕ → ℕ) × Disk)
map_through dev i j addrs s =
    map_inode dev i addrs s >>= (λ r. map_block dev r.0 j r.2 >>= (λ q. done (q.0, r.1, q.1)))

-- One block of addresses further.
pub map_double : ℕ → ℕ → ℕ → ℕ → (ℕ → ℕ) → Disk → Outcome (ℕ × (ℕ → ℕ) × Disk)
map_double dev i k j addrs s =
    map_through dev i k addrs s >>= (λ r. map_block dev r.0 j r.2 >>= (λ q. done (q.0, r.1, q.1)))

pub bmap : ℕ → ℕ → (ℕ → ℕ) → Disk → Outcome (ℕ × (ℕ → ℕ) × Disk)
bmap dev bn addrs s =
    if ltb bn ndirect
    then map_inode dev bn addrs s
    else if ltb (bn - ndirect) nindirect
    then map_through dev ndirect (bn - ndirect) addrs s
    else if ltb (bn - ndirect - nindirect) ndindirect
    then map_double dev (ndirect + 1) ((bn - ndirect - nindirect) / nindirect)
        ((bn - ndirect - nindirect) % nindirect) addrs s
    else panic

-- The loops of `itrunc`: over the inode's array, and over the addresses in a block, from `i` on.
pub free_direct : ℕ → ℕ → ℕ → (ℕ → ℕ) × Disk → Outcome ((ℕ → ℕ) × Disk)
free_direct dev zero i r = done r
free_direct dev (suc n) i (addrs, s) =
    (if addrs i == 0
      then done (addrs, s)
      else bfree dev (addrs i) s >>= (λ t. done (update addrs i 0, t)))
    >>= (λ r. free_direct dev n (i + 1) r)

-- The addresses in the block `c`, from `j` on.
pub free_words : ℕ → ℕ → ℕ → ℕ → Disk → Outcome Disk
free_words dev c zero j s = done s
free_words dev c (suc n) j s =
    (if word dev c j s == 0 then done s else bfree dev (word dev c j s) s)
    >>= (λ t. free_words dev c n (j + 1) t)

-- The first-level blocks that the second-level block `c` names, and what they name.
pub free_lists : ℕ → ℕ → ℕ → ℕ → Disk → Outcome Disk
free_lists dev c zero i s = done s
free_lists dev c (suc n) i s =
    (if word dev c i s == 0
      then done s
      else free_words dev (word dev c i s) nindirect 0 s >>= (λ t. bfree dev (word dev c i t) t))
    >>= (λ t. free_lists dev c n (i + 1) t)

pub free_indirect : ℕ → (ℕ → ℕ) × Disk → Outcome ((ℕ → ℕ) × Disk)
free_indirect dev (addrs, s) =
    let c = addrs ndirect in
    if c == 0
    then done (addrs, s)
    else free_words dev c nindirect 0 s
      >>= (λ t. bfree dev c t >>= (λ u. done (update addrs ndirect 0, u)))

pub free_double : ℕ → (ℕ → ℕ) × Disk → Outcome ((ℕ → ℕ) × Disk)
free_double dev (addrs, s) =
    let c = addrs (ndirect + 1) in
    if c == 0
    then done (addrs, s)
    else free_lists dev c nindirect 0 s
      >>= (λ t. bfree dev c t >>= (λ u. done (update addrs (ndirect + 1) 0, u)))

-- Up to the change of the size and `iupdate`.
pub itrunc : ℕ → (ℕ → ℕ) → Disk → Outcome ((ℕ → ℕ) × Disk)
itrunc dev addrs s =
    free_direct dev ndirect 0 (addrs, s) >>= (λ r. free_indirect dev r >>= (λ q. free_double dev q))
