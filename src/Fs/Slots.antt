-- ===== src/Fs/Slots.antt =====
-- kernel/filesystem/fs.c: the slots of a file, in the order in which `itrunc` frees their blocks.
use os2025_yyds.Common.{
  ℕ, ◌+◌, ◌≤◌, ◌<◌, ◌≡◌, refl, sym, ap, ◌⊎◌, inl, inr, arith, ℕ_discrete, dec_lt,
}
use os2025_yyds.Fs.{ndirect, nindirect}
use os2025_yyds.Fs.File.{Slot, inode, under, IsNode, IsSlot}
use os2025_yyds.Fs.Free.{Range, under_index}

unfoldable pub double : Slot
double = inode (ndirect + 1)

-- The first-level blocks from `i` on, and what they name.
unfoldable pub Lists : ℕ → ℕ → Slot → Type 0
Lists i n q =
    (k : ℕ) × (i ≤ k) × (k < i + n) × ((under double k ≡ q) ⊎ Range (under double k) 0 nindirect q)

-- The direct addresses from `i` on.
abbrev pub Direct : ℕ → ℕ → Slot → Type 0
Direct i n q = (k : ℕ) × (i ≤ k) × (k < i + n) × (inode k ≡ q)

pub inode_index : (i k : ℕ) → inode i ≡ inode k → i ≡ k
inode_index i k e = ap index e
  where
    index : Slot → ℕ
    index (inode i) = i
    index (under p j) = j

pub same_parent : (a b : Slot) (i j : ℕ) → under a i ≡ under b j → a ≡ b
same_parent a b i j e = ap above e
  where
    above : Slot → Slot
    above (inode i) = inode i
    above (under p j) = p

pub not_below : (i k j : ℕ) → under (under double k) j ≡ under double i → ⊥
unfolding double
not_below i k j e = cc

pub same_list : (k l j n : ℕ) → under (under double k) j ≡ under (under double l) n → k ≡ l
same_list k l j n e = under_index double k l (same_parent (under double k) (under double l) j n e)

pub under_inode : (r : Slot) (k i : ℕ) → under r k ≡ inode i → ⊥
under_inode r k i e = cc

pub under-Direct : (r : Slot) (k : ℕ) → ⊥ ⊎ Direct 0 ndirect (under r k) → ⊥
under-Direct r k (inl never) = never
under-Direct r k (inr (i, _, _, it)) = under_inode r k i (sym it)

-- What is free before the double indirect block.
abbrev pub Before : Slot → Type 0
Before q = (⊥ ⊎ Direct 0 ndirect q) ⊎ (inode ndirect ≡ q) ⊎ Range (inode ndirect) 0 nindirect q

pub Before-list : (k : ℕ) → Before (under double k) → ⊥
unfolding double
Before-list k (inl d) = under-Direct double k d
Before-list k (inr (inl it)) = under_inode double k ndirect (sym it)
Before-list k (inr (inr (j, _, _, it))) =
    omega (arith, inode_index ndirect (ndirect + 1) (same_parent (inode ndirect) double j k it))

pub Before-below : (k j : ℕ) → Before (under (under double k) j) → ⊥
Before-below k j (inl d) = under-Direct (under double k) j d
Before-below k j (inr (inl it)) = under_inode (under double k) j ndirect (sym it)
Before-below k j (inr (inr (i, _, _, it))) =
    under_inode double k ndirect (sym (same_parent (inode ndirect) (under double k) i j it))

pub Before-double : Before double → ⊥
unfolding double
Before-double (inl (inl never)) = never
Before-double (inl (inr (k, lo, hi, it))) = omega (arith, inode_index k (ndirect + 1) it, hi)
Before-double (inr (inl it)) = omega (arith, inode_index ndirect (ndirect + 1) it)
Before-double (inr (inr (k, _, _, it))) = under_inode (inode ndirect) k (ndirect + 1) it

pub Lists-inode : (i : ℕ) → Lists 0 nindirect (inode i) → ⊥
unfolding Lists
Lists-inode i (k, _, _, inl it) = under_inode double k i it
Lists-inode i (k, _, _, inr (j, _, _, it)) = under_inode (under double k) j i it

-- All the slots of a file.
pub cover : (q : Slot) → IsSlot q → Before q ⊎ (double ≡ q) ⊎ Lists 0 nindirect q
unfolding IsSlot IsNode double Lists
cover (inode i) low = elim (dec_lt i ndirect) [
  | yes direct ↦ inl (inl (inr (i, omega arith, direct, refl)))
  | no high ↦ elim (ℕ_discrete ndirect i) [
    | yes it ↦ inl (inr (inl (ap inode it)))
    | no more ↦ inr (inl (ap inode (omega (arith, low, high, more))))
  ]
]
cover (under (inode i) j) ((ge, le), low) = elim (ℕ_discrete ndirect i) [
  | yes it ↦ inl (inr (inr (j, omega arith, low, ap (λ (k : ℕ). under (inode k) j) it)))
  | no more ↦
      let twelve : ndirect + 1 ≡ i = omega (arith, ge, le, more) in
      inr (inr (j, omega arith, low, inl (ap (λ (k : ℕ). under (inode k) j) twelve)))
]
cover (under (under (inode i) j) k) ((twelve, low), below) = inr (
    inr (
      j,
      omega arith,
      low,
      inr (k, omega arith, below, ap (λ (l : ℕ). under (under (inode l) j) k) (sym twelve)),
    ))
cover (under (under (under p i) j) k) (node, _) = absurd node
