-- ===== src/Fs/Assign.antt =====
-- kernel/filesystem/fs.c: a new block in a slot of a file, in the inode or in a block of addresses.
use os2025_yyds.Common.{
  ℕ, zero, suc, ◌+◌, ◌*◌, ◌/◌, ◌%◌, ◌<◌, ◌≡◌, ◌≢◌, refl, sym, ◌∙◌, ap, ◌⊎◌, inl, inr, Bool, ◌&&◌,
  true, false, arith, ◌==◌, if◌then◌else◌, update, Bool-cases, ==_refl, ne→==, ℕ_discrete, dec_lt,
}
use os2025_yyds.Fs.{Superblock, Block, Disk, bpb, bblock, load, store, word, set_word}
use os2025_yyds.Fs.Bits.{load-agree, load-store, load-store_other}
use os2025_yyds.Fs.Balloc.{used, Allocated, set_block-read}
use os2025_yyds.Fs.File.{
  Slot, inode, under, IsNode, IsSlot, node-IsSlot, value, value-under, value-under_none, IsBitmap,
  IsFile, Assigned,
}

load-zero : (n at : ℕ) (f : Block) → ((j : ℕ) → f (at + j) ≡ false) → load n at f ≡ 0
unfolding load
load-zero zero at f none = refl
load-zero (suc n) at f none =
    let first : f at ≡ false = ap f (omega arith) ∙ none 0 in
    let rest = load-zero n (at + 1) f (λ j. ap f (omega arith) ∙ none (suc j)) in
    rw (first, rest) refl

clash : {v : Bool} → v ≡ true → v ≡ false → ⊥
clash p q = cc

module _ (dev : ℕ) (s : Disk) (x : ℕ) (u : Disk) (m : IsBitmap dev s)
    (a : Allocated dev s x u) where
  pub new_nonzero : x ≢ 0
  new_nonzero e = clash m.boot (ap (λ (y : ℕ). used dev y s) (sym e) ∙ a.was_free)

  new_data : (y : ℕ) → y < s.sb.size → x ≢ bblock y s
  new_data y lt e = clash (m.taken y lt) (ap (λ (b : ℕ). used dev b s) (sym e) ∙ a.was_free)

  -- Where `balloc` changes nothing.
  block_kept : (e k : ℕ) → x ≢ e → bblock x s ≢ e → u.blocks dev e k ≡ s.blocks dev e k
  block_kept e k other data_block =
      a.content dev e k ∙ rw (==_refl dev, ne→== x e other, ne→== (bblock x s) e data_block) refl

  word_kept : (e k : ℕ) → x ≢ e → bblock x s ≢ e → word dev e k u ≡ word dev e k s
  word_kept e k other data_block =
      load-agree 32 (32 * k) (u.blocks dev e) (s.blocks dev e)
        (λ j _. block_kept e (32 * k + j) other data_block)

  new_empty : (k : ℕ) → word dev x k u ≡ 0
  new_empty k =
      load-zero 32 (32 * k) (u.blocks dev x)
        (λ j. a.content dev x (32 * k + j) ∙ rw (==_refl dev, ==_refl x) refl)

  new_used : used dev x u ≡ true
  new_used =
      ap (λ (b : Superblock). u.blocks dev (x / bpb + b.bmapstart) (x % bpb)) a.same_sb
      ∙ a.content dev (bblock x s) (x % bpb)
      ∙ rw
          (
            ==_refl dev,
            ne→== x (bblock x s) (new_data x a.in_range),
            ==_refl (bblock x s),
            ==_refl (x % bpb),
          )
          refl

  used_kept : (y : ℕ) → y < s.sb.size → x ≢ y → used dev y u ≡ used dev y s
  used_kept y lt other =
      ap (λ (b : Superblock). u.blocks dev (y / bpb + b.bmapstart) (y % bpb)) a.same_sb
      ∙ a.content dev (bblock y s) (y % bpb)
      ∙ elim (ℕ_discrete (bblock x s) (bblock y s)) [
        | yes block ↦ elim (ℕ_discrete (x % bpb) (y % bpb)) [
          | yes bit ↦ absurd (other (omega (arith, block, bit)))
          | no bit ↦
              rw (==_refl dev, ne→== x (bblock y s) (new_data y lt), ne→== (x % bpb) (y % bpb) bit)
                (tail y)
        ]
        | no block ↦
            rw
              (
                ==_refl dev,
                ne→== x (bblock y s) (new_data y lt),
                ne→== (bblock x s) (bblock y s) block,
              )
              refl
      ]
    where
      tail :
          (y : ℕ)
          → (if bblock x s == bblock y s && false then true else used dev y s) ≡ used dev y s
      tail y = elim (Bool-cases (bblock x s == bblock y s)) [
        | inl e ↦ rw e refl
        | inr e ↦ rw e refl
      ]

  module _ (addrs : ℕ → ℕ) (f : IsFile dev addrs s) where
    not_new : (r : Slot) → IsSlot r → x ≢ value dev addrs s r
    not_new r valid e = clash (f.taken r valid) (ap (λ (y : ℕ). used dev y s) (sym e) ∙ a.was_free)

    slot_word :
        (r : Slot) (k : ℕ)
        → IsSlot r
        → value dev addrs s r ≢ 0
        → word dev (value dev addrs s r) k u ≡ word dev (value dev addrs s r) k s
    slot_word r k valid ne =
        word_kept (value dev addrs s r) k (not_new r valid)
          (λ e. f.apart r x valid ne a.in_range (sym e))

    pub inode-Assigned :
        (i : ℕ) → addrs i ≡ 0 → Assigned dev addrs s (inode i) x (update addrs i x) u
    unfolding value IsSlot
    inode-Assigned i none = record {
      in_range = a.in_range;
      was_free = a.was_free;
      now_used = new_used;
      kept = used_kept;
      same_sb = a.same_sb;
      was = none;
      now = rw (==_refl i) refl;
      inodes = λ j. elim (ℕ_discrete i j) [
        | yes same ↦ inr (ap inode (sym same))
        | no other ↦ inl (rw (ne→== i j other) refl)
      ];
      words = λ r k valid ne. inl (slot_word r k (node-IsSlot r valid.0) ne);
      empty = λ k _. new_empty k;
    }

    -- The state after the address is written into the block that the slot `r` names.
    abbrev after : Slot → ℕ → Disk
    after r j = set_word dev (value dev addrs s r) j x u

    after-other :
        (r : Slot) (j e k : ℕ)
        → value dev addrs s r ≢ e
        → (after r j).blocks dev e k ≡ u.blocks dev e k
    after-other r j e k other =
        set_block-read dev (value dev addrs s r)
          (store 32 (32 * j) x (u.blocks dev (value dev addrs s r))) u dev e k
        ∙ rw (==_refl dev, ne→== (value dev addrs s r) e other) refl

    after-same :
        (r : Slot) (j k : ℕ)
        → (after r j).blocks dev (value dev addrs s r) k
          ≡ store 32 (32 * j) x (u.blocks dev (value dev addrs s r)) k
    after-same r j k =
        set_block-read dev (value dev addrs s r)
          (store 32 (32 * j) x (u.blocks dev (value dev addrs s r))) u dev (value dev addrs s r) k
        ∙ rw (==_refl dev, ==_refl (value dev addrs s r)) refl

    after-used :
        (r : Slot) (j y : ℕ)
        → IsNode r
        → value dev addrs s r ≢ 0
        → y < s.sb.size
        → used dev y (after r j) ≡ used dev y u
    after-used r j y node ne lt = after-other r j (bblock y u) (y % bpb) (λ e.
        f.apart r y (node-IsSlot r node) ne lt
          (e ∙ ap (λ (b : Superblock). y / bpb + b.bmapstart) a.same_sb))

    after-words :
        (r : Slot) (j : ℕ)
        → IsNode r
        → value dev addrs s r ≢ 0
        → (q : Slot) (k : ℕ) → IsSlot (under q k)
        → value dev addrs s q ≢ 0
        → (word dev (value dev addrs s q) k (after r j) ≡ word dev (value dev addrs s q) k s)
          ⊎ (under q k ≡ under r j)
    unfolding IsSlot
    after-words r j node ne q k (node_q, low) ne_q =
        elim (ℕ_discrete (value dev addrs s r) (value dev addrs s q)) [
          | no other ↦ inl (
              load-agree 32 (32 * k) ((after r j).blocks dev (value dev addrs s q))
                (u.blocks dev (value dev addrs s q))
                (λ i _. after-other r j (value dev addrs s q) (32 * k + i) other)
              ∙ slot_word q k (node-IsSlot q node_q) ne_q)
          | yes same ↦
              let slots : r ≡ q =
                f.distinct r q (node-IsSlot r node) (node-IsSlot q node_q) ne same in
              elim (ℕ_discrete j k) [
                | yes index ↦ inr (sym (ap (λ p. under p j) slots ∙ ap (under q) index))
                | no other ↦ inl (
                    ap (λ (e : ℕ). word dev e k (after r j)) (sym same)
                    ∙ load-agree 32 (32 * k) ((after r j).blocks dev (value dev addrs s r))
                        (store 32 (32 * j) x (u.blocks dev (value dev addrs s r)))
                        (λ i _. after-same r j (32 * k + i))
                    ∙ load-store_other 32 (32 * k) 32 (32 * j) x
                        (u.blocks dev (value dev addrs s r))
                        (elim (dec_lt k j) [
                          | yes lower ↦ inl (omega (arith, lower))
                          | no higher ↦ inr (omega (arith, higher, other))
                        ])
                    ∙ slot_word r k (node-IsSlot r node) ne
                    ∙ ap (λ (e : ℕ). word dev e k s) same)
              ]
        ]

    node_kept :
        (r : Slot) (j : ℕ)
        → IsNode r
        → value dev addrs s r ≢ 0
        → value dev addrs (after r j) r ≡ value dev addrs s r
    unfolding IsNode IsSlot value
    node_kept (inode i) j node ne = refl
    node_kept (under (inode i) l) j node ne = elim (ℕ_discrete (addrs i) 0) [
      | yes none ↦ absurd (ne (value-under_none dev addrs s (inode i) l none))
      | no some_block ↦
          elim (after-words (under (inode i) l) j node ne (inode i) l
            ((omega (arith, node.0), omega (arith, node.0)), node.1) some_block) [
              | inr same ↦ cc
              | inl kept ↦
                  value-under dev addrs (after (under (inode i) l) j) (inode i) l some_block
                  ∙ kept
                  ∙ sym (value-under dev addrs s (inode i) l some_block)
            ]
    ]
    node_kept (under (under p i) l) j node ne = absurd node

    pub block-Assigned :
        (r : Slot) (j : ℕ)
        → IsSlot (under r j)
        → value dev addrs s r ≢ 0
        → word dev (value dev addrs s r) j s ≡ 0
        → Assigned dev addrs s (under r j) x addrs (after r j)
    unfolding IsSlot
    block-Assigned r j (node, low) ne none = record {
      in_range = a.in_range;
      was_free = a.was_free;
      now_used = after-used r j x node ne a.in_range ∙ new_used;
      kept = λ y lt other. after-used r j y node ne lt ∙ used_kept y lt other;
      same_sb = a.same_sb;
      was = value-under dev addrs s r j ne ∙ none;
      now =
          value-under dev addrs (after r j) r j (λ z. ne (sym (node_kept r j node ne) ∙ z))
          ∙ ap (λ (e : ℕ). word dev e j (after r j)) (node_kept r j node ne)
          ∙ load-agree 32 (32 * j) ((after r j).blocks dev (value dev addrs s r))
              (store 32 (32 * j) x (u.blocks dev (value dev addrs s r)))
              (λ i _. after-same r j (32 * j + i))
          ∙ load-store 32 (32 * j) x (u.blocks dev (value dev addrs s r))
              (omega (arith, a.in_range, m.small));
      inodes = λ i. inl refl;
      words = after-words r j node ne;
      empty = λ k _.
          load-agree 32 (32 * k) ((after r j).blocks dev x) (u.blocks dev x)
            (λ i _. after-other r j x (32 * k + i) (λ e. not_new r (node-IsSlot r node) (sym e)))
          ∙ new_empty k;
    }
