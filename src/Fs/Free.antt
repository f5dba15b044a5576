-- ===== src/Fs/Free.antt =====
-- kernel/filesystem/fs.c: what is left when some of the blocks of a file are freed.
use os2025_yyds.Common.{
  ℕ, zero, suc, ◌+◌, ◌*◌, ◌/◌, ◌%◌, ◌≤◌, ◌<◌, ◌≡◌, ◌≢◌, refl, sym, ◌∙◌, ap, subst, ◌⊎◌, inl, inr,
  Bool, ◌&&◌, true, false, arith, ◌==◌, if◌then◌else◌, update, ==_refl, ==_iff, ne→==, ℕ_discrete,
  done,
}
use os2025_yyds.Fs.{Superblock, Disk, bpb, nindirect, bblock, word, mark, bfree, free_words}
use os2025_yyds.Fs.Bits.{load-agree}
use os2025_yyds.Fs.Balloc.{used, set_block-read}
use os2025_yyds.Fs.File.{
  Slot, inode, under, IsNode, IsSlot, node-IsSlot, value, value-under, IsBitmap, IsFile,
}

clash : {v : Bool} → v ≡ true → v ≡ false → ⊥
clash p q = cc

-- The blocks in the slots of `D` are free, the other blocks are as they were, and so is the content
-- of every block outside the bitmap.
pub record Freed (dev : ℕ) (addrs : ℕ → ℕ) (s : Disk) (D : Slot → Type 0) (t : Disk) : Type 0 where
  pub off :
      (q : Slot)
      → D q
      → IsSlot q
      → value dev addrs s q ≢ 0
      → used dev (value dev addrs s q) t ≡ false
  pub kept :
      (y : ℕ)
      → y < s.sb.size
      → ((q : Slot) → D q → IsSlot q → value dev addrs s q ≢ 0 → value dev addrs s q ≢ y)
      → used dev y t ≡ used dev y s
  pub content :
      (e k : ℕ) → ((y : ℕ) → y < s.sb.size → e ≢ bblock y s) → t.blocks dev e k ≡ s.blocks dev e k
  pub same_sb : t.sb ≡ s.sb

index_of : Slot → ℕ
index_of (inode i) = i
index_of (under p j) = j

pub under_index : (r : Slot) (j k : ℕ) → under r j ≡ under r k → j ≡ k
unfolding index_of
under_index r j k e = ap index_of e

-- The slots of one block of addresses, from `j` on.
abbrev pub Range : Slot → ℕ → ℕ → Slot → Type 0
Range r j n q = (k : ℕ) × (j ≤ k) × (k < j + n) × (under r k ≡ q)

module _ (dev : ℕ) (addrs : ℕ → ℕ) (s : Disk) (m : IsBitmap dev s) (f : IsFile dev addrs s) where
  -- The same slots, said in another way.
  pub Freed-weaken :
      (D E : Slot → Type 0) (t : Disk)
      → ((q : Slot) → E q → IsSlot q → value dev addrs s q ≢ 0 → D q)
      → ((q : Slot) → D q → IsSlot q → value dev addrs s q ≢ 0 → E q)
      → Freed dev addrs s D t
      → Freed dev addrs s E t
  Freed-weaken D E t back forth v = record {
    off = λ q e valid ne. v.off q (back q e valid ne) valid ne;
    kept = λ y lt none. v.kept y lt (λ q d valid ne. none q (forth q d valid ne) valid ne);
    content = v.content;
    same_sb = v.same_sb;
  }

  pub Freed-none : (D : Slot → Type 0) → ((q : Slot) → D q → ⊥) → Freed dev addrs s D s
  Freed-none D none = record {
    off = λ q d. absurd (none q d);
    kept = λ y lt _. refl;
    content = λ e k _. refl;
    same_sb = refl;
  }

  -- The blocks of addresses are read as they were.
  pub Freed-word :
      (D : Slot → Type 0) (t : Disk) (r : Slot) (k : ℕ)
      → Freed dev addrs s D t
      → IsSlot r
      → value dev addrs s r ≢ 0
      → word dev (value dev addrs s r) k t ≡ value dev addrs s (under r k)
  Freed-word D t r k v valid ne =
      load-agree 32 (32 * k) (t.blocks dev (value dev addrs s r))
        (s.blocks dev (value dev addrs s r))
        (λ j _. v.content (value dev addrs s r) (32 * k + j) (λ y lt. f.apart r y valid ne lt))
      ∙ sym (value-under dev addrs s r k ne)

  -- A block that is in use is freed.
  pub bfree-Freed :
      (D : Slot → Type 0) (t : Disk) (p : Slot)
      → Freed dev addrs s D t
      → IsSlot p
      → (D p → ⊥)
      → value dev addrs s p ≢ 0
      → (bfree dev (value dev addrs s p) t ≡ done (mark false dev (value dev addrs s p) t))
        × Freed dev addrs s (λ q. D q ⊎ (p ≡ q)) (mark false dev (value dev addrs s p) t)
  unfolding bfree
  bfree-Freed D t p v valid new ne = (
    rw on refl,
    record {
      off = λ q d vq nq. elim d [
        | inl d ↦
            other (value dev addrs s q) (f.inside q vq)
              (λ e. new (subst D (sym (f.distinct p q valid vq ne e)) d))
            ∙ v.off q d vq nq
        | inr same ↦
            subst (λ r. used dev (value dev addrs s r) (mark false dev x t) ≡ false) same here
      ];
      kept = λ y lt none.
          other y lt (none p (inr refl) valid ne) ∙ v.kept y lt (λ q d vq nq. none q (inl d) vq nq);
      content = λ e k data_block.
          set_block-read dev (bblock x t) (update (t.blocks dev (bblock x t)) (x % bpb) false) t dev
            e k
          ∙ rw
              (
                ==_refl dev,
                ne→== (bblock x t) e (λ h. data_block x (f.inside p valid) (sym h ∙ same_block x)),
              )
              (v.content e k data_block);
      same_sb = v.same_sb;
    },
  )
    where
      x : ℕ
      x = value dev addrs s p

      same_block : (y : ℕ) → bblock y t ≡ bblock y s
      same_block y = ap (λ (b : Superblock). y / bpb + b.bmapstart) v.same_sb

      on : used dev x t ≡ true
      on =
          v.kept x (f.inside p valid)
            (λ q d vq nq e. new (subst D (f.distinct q p vq valid nq e) d))
          ∙ f.taken p valid

      read :
          (y : ℕ)
          → used dev y (mark false dev x t) ≡ (
              if dev == dev && bblock x t == bblock y t
              then update (t.blocks dev (bblock x t)) (x % bpb) false (y % bpb)
              else used dev y t)
      read y =
          set_block-read dev (bblock x t) (update (t.blocks dev (bblock x t)) (x % bpb) false) t dev
            (bblock y t) (y % bpb)

      here : used dev x (mark false dev x t) ≡ false
      here = read x ∙ rw (==_refl dev, ==_refl (bblock x t), ==_refl (x % bpb)) refl

      other : (y : ℕ) → y < s.sb.size → x ≢ y → used dev y (mark false dev x t) ≡ used dev y t
      other y lt apart = read y ∙ elim (ℕ_discrete (bblock x t) (bblock y t)) [
        | no block ↦ rw (==_refl dev, ne→== (bblock x t) (bblock y t) block) refl
        | yes block ↦
            let bit : x % bpb ≢ y % bpb = λ e. apart (omega (arith, block, e)) in
            rw
              (
                ==_refl dev,
                (==_iff (bblock x t) (bblock y t)).1 block,
                ne→== (x % bpb) (y % bpb) bit,
              )
              (ap (λ (b : ℕ). t.blocks dev b (y % bpb)) block)
      ]

  -- What `itrunc` does with one address.
  pub free_slot :
      (D : Slot → Type 0) (t : Disk) (p : Slot) (x : ℕ)
      → x ≡ value dev addrs s p
      → Freed dev addrs s D t
      → IsSlot p
      → (D p → ⊥)
      → (u : Disk) × ((if x == 0 then done t else bfree dev x t) ≡ done u)
        × Freed dev addrs s (λ q. D q ⊎ (p ≡ q)) u
  free_slot D t p x same v valid new = elim (ℕ_discrete x 0) [
    | yes none ↦ (
      t,
      rw ((==_iff x 0).1 none) refl,
      Freed-weaken D (λ q. D q ⊎ (p ≡ q)) t
          (λ q d vq nq. elim d [
            | inl d ↦ d
            | inr it ↦ absurd (nq (subst (λ r. value dev addrs s r ≡ 0) it (sym same ∙ none)))
          ])
          (λ q d _ _. inl d) v,
    )
    | no some_block ↦
        let ne : value dev addrs s p ≢ 0 = λ z. some_block (same ∙ z) in
        let (e, w) = bfree-Freed D t p v valid new ne in
        (
          mark false dev (value dev addrs s p) t,
          rw (ne→== x 0 some_block) (ap (λ (y : ℕ). bfree dev y t) same ∙ e),
          w,
        )
  ]

  pub words-Freed :
      (n j : ℕ) (r : Slot) (D : Slot → Type 0) (t : Disk)
      → IsNode r
      → value dev addrs s r ≢ 0
      → j + n ≤ nindirect
      → Freed dev addrs s D t
      → ((k : ℕ) → j ≤ k → D (under r k) → ⊥)
      → (u : Disk) × (free_words dev (value dev addrs s r) n j t ≡ done u)
        × Freed dev addrs s (λ q. D q ⊎ Range r j n q) u
  unfolding free_words IsSlot
  words-Freed zero j r D t node ne fits v new = (
    t,
    refl,
    Freed-weaken D (λ q. D q ⊎ Range r j 0 q) t
        (λ q d _ _. elim d [ inl d ↦ d | inr (k, lo, hi, e) ↦ absurd (omega (arith, lo, hi)) ])
        (λ q d _ _. inl d) v,
  )
  words-Freed (suc n) j r D t node ne fits v new =
      let (u, e, w) =
        free_slot D t (under r j) (word dev (value dev addrs s r) j t)
          (Freed-word D t r j v (node-IsSlot r node) ne) v (node, omega (arith, fits))
          (new j (omega arith)) in
      let (x, g, z) =
        words-Freed n (j + 1) r (λ q. D q ⊎ (under r j ≡ q)) u node ne (omega (arith, fits)) w
          (λ k le d. elim d [
            | inl d ↦ new k (omega (arith, le)) d
            | inr same ↦ absurd (omega (arith, under_index r j k same, le))
          ]) in
      (
        x,
        rw e g,
        Freed-weaken (λ q. (D q ⊎ (under r j ≡ q)) ⊎ Range r (j + 1) n q)
            (λ q. D q ⊎ Range r j (suc n) q) x
            (λ q d _ _. elim d [
              | inl d ↦ inl (inl d)
              | inr (k, lo, hi, same) ↦ elim (ℕ_discrete j k) [
                | yes first ↦ inl (inr (subst (λ i. under r i ≡ q) (sym first) same))
                | no later ↦ inr (k, omega (arith, lo, later), omega (arith, hi), same)
              ]
            ])
            (λ q d _ _. elim d [
              | inl d ↦ elim d [
                | inl d ↦ inl d
                | inr same ↦ inr (j, omega arith, omega arith, same)
              ]
              | inr (k, lo, hi, same) ↦ inr (k, omega (arith, lo), omega (arith, hi), same)
            ])
            z,
      )
