-- ===== src/Vma.antt =====
-- kernel/mm/vma.c: the memory areas of a process, and kernel/filesystem/file.c: references to files.
--
-- `vma` is the array of the process, and `refs` the field `ref` of each open file. What the last
-- `fileclose` does with a pipe or an inode is left out. Addresses and lengths wrap at 2 ^ 64.
pub mod Refs
pub mod Map
pub mod Held
pub mod Copy
mod Tests
use os2025_yyds.Common.{
  ℕ, zero, suc, ◌+◌, ◌-◌, ◌%◌, ◌^◌, Bool, true, false, not, ◌&&◌, ◌||◌, Option, none, some, ltb,
  leb, ◌==◌, if◌then◌else◌, update, first_of, Outcome, done, panic, ◌>>=◌,
}

abbrev pub nvma : ℕ
nvma = 16

pub record VmArea : Type 0 where
  pub used : Bool
  pub addr : ℕ
  pub len : ℕ
  pub prot : ℕ
  pub flags : ℕ
  pub vfile : Option ℕ
  pub offset : ℕ

-- What `vma_find` hands out.
pub record VmaExt : Type 0 where
  pub start : ℕ
  pub end : ℕ
  pub flags : ℕ
  pub file : Option ℕ
  pub file_offset : ℕ

pub record Space : Type 0 where
  pub vma : ℕ → VmArea
  pub refs : ℕ → ℕ
  pub total_mapped : ℕ

-- A 64-bit value that is stored in an `int` field and read back.
pub through_int : ℕ → ℕ
through_int x = if ltb (x % 2 ^ 32) (2 ^ 31) then x % 2 ^ 32 else x % 2 ^ 32 + 2 ^ 64 - 2 ^ 32

abbrev pub end_of : VmArea → ℕ
end_of v = (v.addr + v.len) % 2 ^ 64

abbrev pub contains : ℕ → VmArea → Bool
contains a v = v.used && leb v.addr a && ltb a (end_of v)

abbrev pub view : VmArea → VmaExt
view v = record {
  start = v.addr;
  end = end_of v;
  flags = v.prot;
  file = v.vfile;
  file_offset = v.offset;
}

pub vma_find : ℕ → (ℕ → VmArea) → Option VmaExt
vma_find a vma = elim (first_of nvma (λ i. contains a (vma i))) [
  | none ↦ none
  | some i ↦ some (view (vma i))
]

-- `f->ref < 1`, where `ref` is an `int`, as its 32-bit pattern.
abbrev pub is_closed : ℕ → Bool
is_closed r = r == 0 || leb (2 ^ 31) r

pub filedup : ℕ → (ℕ → ℕ) → Outcome (ℕ → ℕ)
filedup f refs = if is_closed (refs f) then panic else done (update refs f ((refs f + 1) % 2 ^ 32))

pub fileclose : ℕ → (ℕ → ℕ) → Outcome (ℕ → ℕ)
fileclose f refs = if is_closed (refs f) then panic else done (update refs f (refs f - 1))

abbrev pub dup_file : Option ℕ → (ℕ → ℕ) → Outcome (ℕ → ℕ)
dup_file none refs = done refs
dup_file (some f) refs = filedup f refs

abbrev pub close_file : Option ℕ → (ℕ → ℕ) → Outcome (ℕ → ℕ)
close_file none refs = done refs
close_file (some f) refs = fileclose f refs

abbrev pub overlaps : ℕ → ℕ → VmArea → Bool
overlaps addr len v = v.used && ltb addr (end_of v) && ltb v.addr ((addr + len) % 2 ^ 64)

pub new_area : ℕ → ℕ → ℕ → ℕ → Option ℕ → ℕ → VmArea
unfolding through_int
new_area addr len prot flags file offset = record {
  used = true;
  addr = addr;
  len = through_int len;
  prot = prot;
  flags = flags;
  vfile = file;
  offset = through_int offset;
}

pub vma_map : ℕ → ℕ → ℕ → ℕ → Option ℕ → ℕ → Space → Outcome (Bool × Space)
vma_map addr len prot flags file offset s = elim (first_of nvma (λ i. not (s.vma i).used)) [
  | none ↦ done (false, s)
  | some slot ↦ elim (first_of nvma (λ i. overlaps addr len (s.vma i))) [
    | some _ ↦ done (false, s)
    | none ↦ dup_file file s.refs >>= (λ refs. done (
      true,
      record {
        vma = update s.vma slot (new_area addr len prot flags file offset);
        refs = refs;
        total_mapped = (s.total_mapped + len) % 2 ^ 64;
      },
    ))
  ]
]

-- The loops over the areas from `i` on, with `n` of them left.
pub copy_from : (ℕ → VmArea) → ℕ → ℕ → (ℕ → VmArea) → (ℕ → ℕ) → Outcome ((ℕ → VmArea) × (ℕ → ℕ))
copy_from src zero i dst refs = done (dst, refs)
copy_from src (suc n) i dst refs =
    if (src i).used
    then dup_file (src i).vfile refs >>= (λ r. copy_from src n (i + 1) (update dst i (src i)) r)
    else copy_from src n (i + 1) dst refs

-- The areas of the child, and the references to files, with the areas of the parent first.
pub vma_copy : (ℕ → VmArea) → (ℕ → VmArea) → (ℕ → ℕ) → Outcome ((ℕ → VmArea) × (ℕ → ℕ))
vma_copy src dst refs = copy_from src nvma 0 dst refs

pub free_from : ℕ → ℕ → (ℕ → VmArea) → (ℕ → ℕ) → Outcome ((ℕ → VmArea) × (ℕ → ℕ))
free_from zero i vma refs = done (vma, refs)
free_from (suc n) i vma refs =
    if (vma i).used
    then close_file (vma i).vfile refs
      >>= (λ r. free_from n (i + 1) (update vma i (record (vma i) { used = false })) r)
    else free_from n (i + 1) vma refs

pub vma_free_all : (ℕ → VmArea) → (ℕ → ℕ) → Outcome ((ℕ → VmArea) × (ℕ → ℕ))
vma_free_all vma refs = free_from nvma 0 vma refs
