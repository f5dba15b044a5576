-- ===== src/Fs/Place.antt =====
-- kernel/filesystem/fs.c: one address that `bmap` finds or allocates.
use os2025_yyds.Common.{
  ℕ, suc, ◌+◌, ◌-◌, ◌/◌, ◌%◌, ◌≤◌, ◌<◌, ◌≡◌, ◌≢◌, refl, sym, ◌∙◌, subst, ◌⊎◌, inl, inr, true, arith,
  ltb, ◌==◌, if◌then◌else◌, update, List, [], length, count, ==_iff, ne→==, ℕ_discrete, done, panic,
}
use os2025_yyds.Fs.{Disk, ndirect, nindirect, word, set_word, map_inode, map_block}
use os2025_yyds.Fs.Balloc.{used, balloc-Allocated}
use os2025_yyds.Fs.File.{
  Slot, inode, under, IsSlot, value, value-under, IsBitmap, IsFile, Assigned, assigned-others,
  assigned-IsFile, assigned-IsBitmap,
}
use os2025_yyds.Fs.Assign.{new_nonzero, inode-Assigned, block-Assigned}

-- The slot of a block of a file.
abbrev pub slot_of : ℕ → Slot
slot_of bn =
    if ltb bn ndirect
    then inode bn
    else if ltb (bn - ndirect) nindirect
    then under (inode ndirect) (bn - ndirect)
    else under (under (inode (ndirect + 1)) ((bn - ndirect - nindirect) / nindirect))
        ((bn - ndirect - nindirect) % nindirect)

-- The slot `p` has the address `b`. The addresses that the file had are as before, and nothing has
-- changed at all when `p` had one.
pub record Mapped (dev : ℕ) (addrs : ℕ → ℕ) (s : Disk) (p : Slot) (b : ℕ) (addrs' : ℕ → ℕ)
    (t : Disk) : Type 0 where
  pub address : value dev addrs' t p ≡ b
  pub nonzero : b ≢ 0
  pub bitmap : IsBitmap dev t
  pub file : IsFile dev addrs' t
  pub kept :
      (q : Slot) → IsSlot q → value dev addrs s q ≢ 0 → value dev addrs' t q ≡ value dev addrs s q
  pub same_sb : t.sb ≡ s.sb
  pub stable : value dev addrs s p ≢ 0 → (addrs' ≡ addrs) × (t ≡ s)

-- At most `n` blocks of the disk are free.
pub record Nearly (dev n : ℕ) (s : Disk) : Type 0 where
  pub free : List ℕ
  pub few : length free ≤ n
  pub others : (y : ℕ) → y < s.sb.size → (used dev y s ≡ true) ⊎ (count y free ≢ 0)

-- No block but `b` has come into use.
unfoldable pub Step : ℕ → Disk → ℕ → Disk → Type 0
Step dev s b t = (y : ℕ) → y < s.sb.size → used dev y t ≡ true → (used dev y s ≡ true) ⊎ (b ≡ y)

-- What is free later was free before, but for two blocks.
abbrev pub NearlyAfter : ℕ → Disk → Disk → Type 0
NearlyAfter dev s t = (n : ℕ) → Nearly dev n t → Nearly dev (suc (suc n)) s

module _ (dev : ℕ) where
  -- The slot had an address.
  had-Mapped :
      (addrs : ℕ → ℕ) (s : Disk) (p : Slot)
      → IsBitmap dev s
      → IsFile dev addrs s
      → value dev addrs s p ≢ 0
      → Mapped dev addrs s p (value dev addrs s p) addrs s
  had-Mapped addrs s p m f ne = record {
    address = refl;
    nonzero = ne;
    bitmap = m;
    file = f;
    kept = λ q _ _. refl;
    same_sb = refl;
    stable = λ _. (refl, refl);
  }

  Assigned-Mapped :
      (addrs : ℕ → ℕ) (s : Disk) (p : Slot) (x : ℕ) (addrs' : ℕ → ℕ) (t : Disk)
      → IsBitmap dev s
      → IsFile dev addrs s
      → x ≢ 0
      → Assigned dev addrs s p x addrs' t
      → Mapped dev addrs s p x addrs' t
  Assigned-Mapped addrs s p x addrs' t m f ne a = record {
    address = a.now;
    nonzero = ne;
    bitmap = assigned-IsBitmap dev addrs s p x addrs' t ne a m;
    file = assigned-IsFile dev addrs s p x addrs' t ne a m f;
    kept = λ q valid some_block. elim (assigned-others dev addrs s p x addrs' t ne a q valid) [
      | inl same ↦ same
      | inr it ↦ absurd (some_block (subst (λ r. value dev addrs s r ≡ 0) (sym it) a.was))
    ];
    same_sb = a.same_sb;
    stable = λ some_block. absurd (some_block a.was);
  }

  assigned-Step :
      (addrs : ℕ → ℕ) (s : Disk) (p : Slot) (x : ℕ) (addrs' : ℕ → ℕ) (t : Disk)
      → Assigned dev addrs s p x addrs' t
      → Step dev s x t
  unfolding Step
  assigned-Step addrs s p x addrs' t a y lt on = elim (ℕ_discrete x y) [
    | yes same ↦ inr same
    | no other ↦ inl (sym (a.kept y lt other) ∙ on)
  ]

  pub map_inode-Mapped :
      (i : ℕ) (addrs : ℕ → ℕ) (s : Disk)
      → IsBitmap dev s
      → IsFile dev addrs s
      → ((map_inode dev i addrs s ≡ panic) × Nearly dev 0 s)
        ⊎ ((b : ℕ) × (addrs' : ℕ → ℕ) × (t : Disk) × (map_inode dev i addrs s ≡ done (b, addrs', t))
            × Mapped dev addrs s (inode i) b addrs' t
            × Step dev s b t)
  unfolding map_inode value Step
  map_inode-Mapped i addrs s m f = elim (ℕ_discrete (addrs i) 0) [
    | no some_block ↦ inr (
      addrs i,
      addrs,
      s,
      rw (ne→== (addrs i) 0 some_block) refl,
      had-Mapped addrs s (inode i) m f some_block,
      λ y _ on. inl on,
    )
    | yes none ↦
        let e : (addrs i == 0) ≡ true = (==_iff (addrs i) 0).1 none in
        elim (balloc-Allocated dev s) [
          | inl (g, full) ↦ inl (
            rw (e, g) refl,
            record { free = []; few = omega arith; others = λ y lt. inl (full y lt) },
          )
          | inr (x, u, g, a) ↦ inr (
            x,
            update addrs i x,
            u,
            rw (e, g) refl,
            Assigned-Mapped addrs s (inode i) x (update addrs i x) u m f (new_nonzero dev s x u m a)
                (inode-Assigned dev s x u m a addrs f i none),
            assigned-Step addrs s (inode i) x (update addrs i x) u
                (inode-Assigned dev s x u m a addrs f i none),
          )
        ]
  ]

  pub map_block-Mapped :
      (r : Slot) (j : ℕ) (addrs : ℕ → ℕ) (s : Disk)
      → IsSlot (under r j)
      → value dev addrs s r ≢ 0
      → IsBitmap dev s
      → IsFile dev addrs s
      → ((map_block dev (value dev addrs s r) j s ≡ panic) × Nearly dev 0 s)
        ⊎ ((b : ℕ) × (t : Disk) × (map_block dev (value dev addrs s r) j s ≡ done (b, t))
            × Mapped dev addrs s (under r j) b addrs t
            × Step dev s b t)
  unfolding map_block Step
  map_block-Mapped r j addrs s valid ne m f =
      let c = value dev addrs s r in
      let here = value-under dev addrs s r j ne in
      elim (ℕ_discrete (word dev c j s) 0) [
        | no some_block ↦ inr (
          word dev c j s,
          s,
          rw (ne→== (word dev c j s) 0 some_block) refl,
          subst (λ (b : ℕ). Mapped dev addrs s (under r j) b addrs s) here
              (had-Mapped addrs s (under r j) m f (λ z. some_block (sym here ∙ z))),
          λ y _ on. inl on,
        )
        | yes none ↦
            let e : (word dev c j s == 0) ≡ true = (==_iff (word dev c j s) 0).1 none in
            elim (balloc-Allocated dev s) [
              | inl (g, full) ↦ inl (
                rw (e, g) refl,
                record { free = []; few = omega arith; others = λ y lt. inl (full y lt) },
              )
              | inr (x, u, g, a) ↦ inr (
                x,
                set_word dev c j x u,
                rw (e, g) refl,
                Assigned-Mapped addrs s (under r j) x addrs (set_word dev c j x u) m f
                    (new_nonzero dev s x u m a)
                    (block-Assigned dev s x u m a addrs f r j valid ne none),
                assigned-Step addrs s (under r j) x addrs (set_word dev c j x u)
                    (block-Assigned dev s x u m a addrs f r j valid ne none),
              )
            ]
      ]
