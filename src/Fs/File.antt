-- ===== src/Fs/File.antt =====
-- kernel/filesystem/fs.c: the addresses of a file, as the slots of a tree, and what a new one changes.
use os2025_yyds.Common.{
  ℕ, ◌+◌, ◌^◌, ◌≤◌, ◌<◌, ◌≡◌, ◌≢◌, refl, sym, ◌∙◌, ap, subst, ◌⊎◌, inl, inr, true, false, arith,
  ◌==◌, if◌then◌else◌, ==_iff, ne→==, ℕ_discrete,
}
use os2025_yyds.Fs.{Superblock, Disk, ndirect, nindirect, bblock, word}
use os2025_yyds.Fs.Balloc.{used}

-- An entry of the inode's array, or of the block that another slot names.
pub data Slot : Type 0 where
  inode : ℕ → Slot
  under : Slot → ℕ → Slot

-- The slots that name blocks of addresses.
unfoldable pub IsNode : Slot → Type 0
IsNode (inode i) = (ndirect ≤ i) × (i < ndirect + 2)
IsNode (under (inode i) j) = (i ≡ ndirect + 1) × (j < nindirect)
IsNode (under (under p i) j) = ⊥

unfoldable pub IsSlot : Slot → Type 0
unfolding IsNode
IsSlot (inode i) = i < ndirect + 2
IsSlot (under p j) = IsNode p × (j < nindirect)

pub node-IsSlot : (p : Slot) → IsNode p → IsSlot p
unfolding IsNode IsSlot
node-IsSlot (inode i) h = h.1
node-IsSlot (under (inode i) j) (twelve, low) =
    ((omega (arith, twelve), omega (arith, twelve)), low)
node-IsSlot (under (under p i) j) h = absurd h

-- The address in a slot, 0 where a block on the way is missing.
unfoldable pub value : ℕ → (ℕ → ℕ) → Disk → Slot → ℕ
value dev addrs s (inode i) = addrs i
value dev addrs s (under p j) = let c = value dev addrs s p in if c == 0 then 0 else word dev c j s

-- The bitmap blocks are blocks of the disk that are in use, and so is block 0.
pub record IsBitmap (dev : ℕ) (s : Disk) : Type 0 where
  pub small : s.sb.size < 2 ^ 32
  pub boot : used dev 0 s ≡ true
  pub inside : (y : ℕ) → y < s.sb.size → bblock y s < s.sb.size
  pub taken : (y : ℕ) → y < s.sb.size → used dev (bblock y s) s ≡ true

-- The addresses of a file are blocks in use, none of them of the bitmap, and no two are the same.
pub record IsFile (dev : ℕ) (addrs : ℕ → ℕ) (s : Disk) : Type 0 where
  pub inside : (p : Slot) → IsSlot p → value dev addrs s p < s.sb.size
  pub taken : (p : Slot) → IsSlot p → used dev (value dev addrs s p) s ≡ true
  pub apart :
      (p : Slot) (y : ℕ)
      → IsSlot p
      → value dev addrs s p ≢ 0
      → y < s.sb.size
      → value dev addrs s p ≢ bblock y s
  pub distinct :
      (p q : Slot)
      → IsSlot p
      → IsSlot q
      → value dev addrs s p ≢ 0
      → value dev addrs s p ≡ value dev addrs s q
      → p ≡ q

-- A slot without an address gets the block `x`, which was free.
pub record Assigned (dev : ℕ) (addrs : ℕ → ℕ) (s : Disk) (p : Slot) (x : ℕ) (addrs' : ℕ → ℕ)
    (t : Disk) : Type 0 where
  pub in_range : x < s.sb.size
  pub was_free : used dev x s ≡ false
  pub now_used : used dev x t ≡ true
  pub kept : (y : ℕ) → y < s.sb.size → x ≢ y → used dev y t ≡ used dev y s
  pub same_sb : t.sb ≡ s.sb
  pub was : value dev addrs s p ≡ 0
  pub now : value dev addrs' t p ≡ x
  pub inodes : (i : ℕ) → (addrs' i ≡ addrs i) ⊎ (Slot.inode i ≡ p)
  pub words :
      (r : Slot) (k : ℕ)
      → IsSlot (under r k)
      → value dev addrs s r ≢ 0
      → (word dev (value dev addrs s r) k t ≡ word dev (value dev addrs s r) k s) ⊎ (under r k ≡ p)
  pub empty : (k : ℕ) → k < nindirect → word dev x k t ≡ 0

pub value-under :
    (dev : ℕ) (addrs : ℕ → ℕ) (s : Disk) (p : Slot) (j : ℕ)
    → value dev addrs s p ≢ 0
    → value dev addrs s (under p j) ≡ word dev (value dev addrs s p) j s
unfolding value
value-under dev addrs s p j ne = rw (ne→== (value dev addrs s p) 0 ne) refl

pub value-under_none :
    (dev : ℕ) (addrs : ℕ → ℕ) (s : Disk) (p : Slot) (j : ℕ)
    → value dev addrs s p ≡ 0
    → value dev addrs s (under p j) ≡ 0
unfolding value
value-under_none dev addrs s p j e = rw ((==_iff (value dev addrs s p) 0).1 e) refl

module _ (dev : ℕ) (addrs : ℕ → ℕ) (s : Disk) (p : Slot) (x : ℕ) (addrs' : ℕ → ℕ) (t : Disk)
    (nonzero : x ≢ 0) (a : Assigned dev addrs s p x addrs' t) where
  pub assigned-others :
      (q : Slot) → IsSlot q → (value dev addrs' t q ≡ value dev addrs s q) ⊎ (q ≡ p)
  unfolding value IsSlot
  assigned-others (inode i) valid = a.inodes i
  assigned-others (under r k) (node, low) = elim (assigned-others r (node-IsSlot r node)) [
    | inr same ↦
        let now : value dev addrs' t r ≡ x =
          subst (λ q. value dev addrs' t q ≡ x) (sym same) a.now in
        let was : value dev addrs s r ≡ 0 = subst (λ q. value dev addrs s q ≡ 0) (sym same) a.was in
        inl (
          value-under dev addrs' t r k (λ z. nonzero (sym now ∙ z))
          ∙ ap (λ (c : ℕ). word dev c k t) now
          ∙ a.empty k low
          ∙ sym (value-under_none dev addrs s r k was))
    | inl same ↦ elim (ℕ_discrete (value dev addrs s r) 0) [
      | yes none ↦ inl (
          value-under_none dev addrs' t r k (same ∙ none)
          ∙ sym (value-under_none dev addrs s r k none))
      | no some_block ↦ elim (a.words r k (node, low) some_block) [
        | inr it ↦ inr it
        | inl kept ↦ inl (
            value-under dev addrs' t r k (λ z. some_block (sym same ∙ z))
            ∙ ap (λ (c : ℕ). word dev c k t) same
            ∙ kept
            ∙ sym (value-under dev addrs s r k some_block))
      ]
    ]
  ]

  at_slot :
      (q : Slot)
      → IsSlot q
      → (value dev addrs' t q ≡ value dev addrs s q) ⊎ ((q ≡ p) × (value dev addrs' t q ≡ x))
  at_slot q valid = elim (assigned-others q valid) [
    | inl same ↦ inl same
    | inr it ↦ inr (it, subst (λ r. value dev addrs' t r ≡ x) (sym it) a.now)
  ]

  fresh : IsFile dev addrs s → (q : Slot) → IsSlot q → x ≢ value dev addrs s q
  fresh f q valid e =
      absurd
        (true_false (sym (f.taken q valid) ∙ ap (λ (y : ℕ). used dev y s) (sym e) ∙ a.was_free))
    where
      true_false : true ≡ false → ⊥
      true_false e = cc

  bitmap_same : (y : ℕ) → bblock y t ≡ bblock y s
  bitmap_same y = rw a.same_sb refl

  -- A file keeps its blocks and gets one more.
  pub assigned-IsFile : IsBitmap dev s → IsFile dev addrs s → IsFile dev addrs' t
  assigned-IsFile m f = record {
    inside = λ q valid. elim (at_slot q valid) [
      | inl same ↦ rw (same, a.same_sb) (f.inside q valid)
      | inr (it, now) ↦ rw (now, a.same_sb) a.in_range
    ];
    taken = λ q valid. elim (at_slot q valid) [
      | inl same ↦
          ap (λ (y : ℕ). used dev y t) same
          ∙ a.kept (value dev addrs s q) (f.inside q valid) (fresh f q valid)
          ∙ f.taken q valid
      | inr (it, now) ↦ ap (λ (y : ℕ). used dev y t) now ∙ a.now_used
    ];
    apart = λ q y valid ne lt e.
        let low : y < s.sb.size = subst (λ (b : Superblock). y < b.size) a.same_sb lt in
        elim (at_slot q valid) [
          | inl same ↦ f.apart q y valid (λ z. ne (same ∙ z)) low (sym same ∙ e ∙ bitmap_same y)
          | inr (it, now) ↦ absurd (
              true_false (
                sym (m.taken y low)
                ∙ ap (λ (b : ℕ). used dev b s) (sym (bitmap_same y) ∙ sym e ∙ now)
                ∙ a.was_free))
        ];
    distinct = λ q r vq vr ne same. elim (at_slot q vq) [
      | inl old_q ↦ elim (at_slot r vr) [
        | inl old_r ↦ f.distinct q r vq vr (λ z. ne (old_q ∙ z)) (sym old_q ∙ same ∙ old_r)
        | inr (it, now) ↦ absurd (fresh f q vq (sym now ∙ sym same ∙ old_q))
      ]
      | inr (it_q, now_q) ↦ elim (at_slot r vr) [
        | inl old_r ↦ absurd (fresh f r vr (sym now_q ∙ same ∙ old_r))
        | inr (it_r, now_r) ↦ it_q ∙ sym it_r
      ]
    ];
  }
    where
      true_false : true ≡ false → ⊥
      true_false e = cc

  pub assigned-IsBitmap : IsBitmap dev s → IsBitmap dev t
  assigned-IsBitmap m = record {
    small = rw a.same_sb m.small;
    boot = stays 0 m.boot (omega (arith, a.in_range));
    inside = λ y lt.
        let low : y < s.sb.size = subst (λ (b : Superblock). y < b.size) a.same_sb lt in
        rw (bitmap_same y, a.same_sb) (m.inside y low);
    taken = λ y lt.
        let low : y < s.sb.size = subst (λ (b : Superblock). y < b.size) a.same_sb lt in
        ap (λ (b : ℕ). used dev b t) (bitmap_same y)
        ∙ stays (bblock y s) (m.taken y low) (m.inside y low);
  }
    where
      true_false : true ≡ false → ⊥
      true_false e = cc

      stays : (y : ℕ) → used dev y s ≡ true → y < s.sb.size → used dev y t ≡ true
      stays y on lt =
          a.kept y lt (λ e. true_false (sym on ∙ ap (λ (b : ℕ). used dev b s) (sym e) ∙ a.was_free))
          ∙ on
