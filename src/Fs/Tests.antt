-- ===== src/Fs/Tests.antt =====
-- kernel/filesystem/fs.c: runs of the model, and its theorems at concrete inputs.
use os2025_yyds.Common.{
  ℕ, ◌+◌, ◌/◌, ◌<◌, ◌≡◌, refl, sym, ◌∙◌, ap, ◌⊎◌, inl, inr, Bool, true, false, ◌&&◌, arith, ltb,
  ◌==◌, first_from, Outcome, done, panic, no_fuel,
}
use os2025_yyds.Fs.{
  Disk, ndirect, bpb, load, bzero, room, balloc_from, balloc, map_inode, map_block, map_through,
  bmap, itrunc,
}
use os2025_yyds.Fs.Balloc.{Allocated, balloc-Allocated, used}
use os2025_yyds.Fs.File.{Slot, inode, under, IsSlot, value, IsBitmap, IsFile}
use os2025_yyds.Fs.Place.{Nearly, Mapped, slot_of}
use os2025_yyds.Fs.Bmap.{bmap-Mapped}
use os2025_yyds.Fs.Free.{Freed}
use os2025_yyds.Fs.Trunc.{itrunc-Freed}

-- A disk of 20 blocks, of which the first five are in use.
abbrev small : Disk
small = record {
  sb = record { size = 20; ninodes = 5; inodestart = 2; bmapstart = 1 };
  blocks = λ dev b k. b == 1 && ltb k 5;
}

abbrev no_blocks : ℕ → ℕ
no_blocks i = 0

small-IsBitmap : IsBitmap 1 small
small-IsBitmap = record {
  small = omega arith;
  boot = refl;
  inside = λ y lt. omega (arith, lt);
  taken = λ y lt. let first : y / bpb ≡ 0 = omega (arith, lt) in rw first refl;
}

value-no_blocks : (q : Slot) → value 1 no_blocks small q ≡ 0
unfolding value
value-no_blocks (inode i) = refl
value-no_blocks (under p j) = let e = value-no_blocks p in rw e refl

no_blocks-IsFile : IsFile 1 no_blocks small
no_blocks-IsFile = record {
  inside = λ p _. let e = value-no_blocks p in rw e (omega arith);
  taken = λ p _. let e = value-no_blocks p in rw e refl;
  apart = λ p y _ ne _. absurd (ne (value-no_blocks p));
  distinct = λ p q _ _ ne _. absurd (ne (value-no_blocks p));
}

balloc-Allocated_example :
    ((balloc 1 small ≡ panic) × ((y : ℕ) → y < 20 → used 1 y small ≡ true))
    ⊎ ((x : ℕ) × (t : Disk) × (balloc 1 small ≡ done (x, t)) × Allocated 1 small x t)
balloc-Allocated_example = balloc-Allocated 1 small

-- The first block behind the direct ones, which needs the indirect block as well.
bmap-Mapped_example :
    ((bmap 1 ndirect no_blocks small ≡ panic) × Nearly 1 2 small)
    ⊎ ((b : ℕ) × (addrs : ℕ → ℕ) × (t : Disk) × (bmap 1 ndirect no_blocks small
          ≡ done (b, addrs, t))
        × Mapped 1 no_blocks small (slot_of ndirect) b addrs t)
bmap-Mapped_example =
    bmap-Mapped 1 ndirect no_blocks small (omega arith) small-IsBitmap no_blocks-IsFile

-- The file and the disk after that.
array_of : Outcome (ℕ × (ℕ → ℕ) × Disk) → ℕ → ℕ
array_of (done (b, addrs, t)) = addrs
array_of panic = no_blocks
array_of no_fuel = no_blocks

disk_of : Outcome (ℕ × (ℕ → ℕ) × Disk) → Disk
disk_of (done (b, addrs, t)) = t
disk_of panic = small
disk_of no_fuel = small

is_done : Outcome (ℕ × (ℕ → ℕ) × Disk) → Bool
is_done (done r) = true
is_done panic = false
is_done no_fuel = false

abbrev grown : Outcome (ℕ × (ℕ → ℕ) × Disk)
grown = bmap 1 ndirect no_blocks small

grown-done : is_done grown ≡ true
unfolding is_done bmap map_through map_inode map_block balloc balloc_from bzero room load first_from
grown-done = refl

grown-IsBitmap-IsFile :
    (r : Outcome (ℕ × (ℕ → ℕ) × Disk))
    → is_done r ≡ true
    → ((r ≡ panic) × Nearly 1 2 small)
      ⊎ ((b : ℕ) × (addrs : ℕ → ℕ) × (t : Disk) × (r ≡ done (b, addrs, t))
          × Mapped 1 no_blocks small (slot_of ndirect) b addrs t)
    → IsBitmap 1 (disk_of r) × IsFile 1 (array_of r) (disk_of r)
unfolding is_done disk_of array_of
grown-IsBitmap-IsFile r e (inl (stops, _)) = absurd (clash (sym e ∙ ap is_done stops))
  where
    clash : true ≡ false → ⊥
    clash p = cc
grown-IsBitmap-IsFile r e (inr (b, addrs, t, ends, mapped)) = rw ends (mapped.bitmap, mapped.file)

grown_sound : IsBitmap 1 (disk_of grown) × IsFile 1 (array_of grown) (disk_of grown)
grown_sound =
    grown-IsBitmap-IsFile grown grown-done
      (bmap-Mapped 1 ndirect no_blocks small (omega arith) small-IsBitmap no_blocks-IsFile)

itrunc-Freed_example :
    (b : ℕ → ℕ) × (t : Disk) × (itrunc 1 (array_of grown) (disk_of grown) ≡ done (b, t))
    × ((i : ℕ) → i < ndirect + 2 → b i ≡ 0)
    × Freed 1 (array_of grown) (disk_of grown) IsSlot t
itrunc-Freed_example = itrunc-Freed 1 (array_of grown) (disk_of grown) grown_sound.0 grown_sound.1
