-- ===== src/Fs/Bmap.antt =====
-- kernel/filesystem/fs.c: `bmap` gives each block of a file one address, and keeps it.
use os2025_yyds.Common.{
  ℕ, suc, ◌+◌, ◌-◌, ◌/◌, ◌%◌, ◌≤◌, ◌<◌, ◌≡◌, refl, sym, ◌∙◌, subst, ◌⊎◌, inl, inr, true, arith, ltb,
  ◌∷◌, Bool-cases, ==_iff, done, panic,
}
use os2025_yyds.Fs.{Superblock, Disk, ndirect, nindirect, ndindirect, map_through, map_double, bmap}
use os2025_yyds.Fs.File.{
  Slot, inode, under, IsNode, IsSlot, node-IsSlot, value, value-under_none, IsBitmap, IsFile,
}
use os2025_yyds.Fs.Place.{
  slot_of, Mapped, Nearly, Step, NearlyAfter, map_inode-Mapped, map_block-Mapped,
}

module _ (dev : ℕ) where
  -- A block of addresses is there, and then the address in it.
  then-Mapped :
      (addrs : ℕ → ℕ) (s : Disk) (r : Slot) (j c : ℕ) (addrs' : ℕ → ℕ) (t : Disk) (b : ℕ) (u : Disk)
      → IsSlot (under r j)
      → Mapped dev addrs s r c addrs' t
      → Mapped dev addrs' t (under r j) b addrs' u
      → Mapped dev addrs s (under r j) b addrs' u
  then-Mapped addrs s r j c addrs' t b u valid first second = record {
    address = second.address;
    nonzero = second.nonzero;
    bitmap = second.bitmap;
    file = second.file;
    kept =
        λ q vq ne. second.kept q vq (λ z. ne (sym (first.kept q vq ne) ∙ z)) ∙ first.kept q vq ne;
    same_sb = second.same_sb ∙ first.same_sb;
    stable = λ ne.
        let (same_addrs, same) =
          first.stable (λ none. ne (value-under_none dev addrs s r j none)) in
        let (_, same2) = second.stable (λ z. ne (sym (first.kept (under r j) valid ne) ∙ z)) in
        (same_addrs, same2 ∙ same);
  }

  earlier-Nearly :
      (s : Disk) (b n : ℕ) (t : Disk)
      → t.sb ≡ s.sb
      → Step dev s b t
      → Nearly dev n t
      → Nearly dev (suc n) s
  unfolding Step
  earlier-Nearly s b n t same_sb step v = record {
    free = b ∷ v.free;
    few = omega (arith, v.few);
    others = λ y lt. elim (v.others y (subst (λ (sb : Superblock). y < sb.size) (sym same_sb) lt)) [
      | inr listed ↦ inr (ground (arith, listed))
      | inl on ↦ elim (step y lt on) [
        | inl before ↦ inl before
        | inr it ↦ inr (ground (arith, (==_iff b y).1 it))
      ]
    ];
  }

  map_through-Mapped :
      (i j : ℕ) (addrs : ℕ → ℕ) (s : Disk)
      → IsSlot (under (inode i) j)
      → IsBitmap dev s
      → IsFile dev addrs s
      → ((map_through dev i j addrs s ≡ panic) × Nearly dev 1 s)
        ⊎ ((b : ℕ) × (addrs' : ℕ → ℕ) × (t : Disk) × (map_through dev i j addrs s
              ≡ done (b, addrs', t))
            × Mapped dev addrs s (under (inode i) j) b addrs' t
            × NearlyAfter dev s t)
  unfolding value map_through
  map_through-Mapped i j addrs s valid m f = elim (map_inode-Mapped dev i addrs s m f) [
    | inl (e, v) ↦
        inl (rw e refl, record { free = v.free; few = omega (arith, v.few); others = v.others })
    | inr (c, addrs', t, e, first, step) ↦
        elim (map_block-Mapped dev (inode i) j addrs' t valid
          (λ z. first.nonzero (sym first.address ∙ z)) first.bitmap first.file) [
            | inl (g, v) ↦
                inl (rw (e, sym first.address, g) refl, earlier-Nearly s c 0 t first.same_sb step v)
            | inr (b, u, g, second, step2) ↦ inr (
              b,
              addrs',
              u,
              rw (e, sym first.address, g) refl,
              then-Mapped addrs s (inode i) j c addrs' t b u valid first second,
              λ n v.
                  earlier-Nearly s c (suc n) t first.same_sb step
                    (earlier-Nearly t b n u second.same_sb step2 v),
            )
          ]
  ]

  double-Mapped :
      (i k j : ℕ) (addrs : ℕ → ℕ) (s : Disk)
      → IsSlot (under (under (inode i) k) j)
      → IsBitmap dev s
      → IsFile dev addrs s
      → ((map_double dev i k j addrs s ≡ panic) × Nearly dev 2 s)
        ⊎ ((b : ℕ) × (addrs' : ℕ → ℕ) × (t : Disk) × (map_double dev i k j addrs s
              ≡ done (b, addrs', t))
            × Mapped dev addrs s (under (under (inode i) k) j) b addrs' t)
  unfolding map_double IsSlot
  double-Mapped i k j addrs s valid m f =
      elim (map_through-Mapped i k addrs s (node-IsSlot (under (inode i) k) valid.0) m f) [
        | inl (e, v) ↦
            inl (rw e refl, record { free = v.free; few = omega (arith, v.few); others = v.others })
        | inr (c, addrs', t, e, first, grow) ↦
            elim (map_block-Mapped dev (under (inode i) k) j addrs' t valid
              (λ z. first.nonzero (sym first.address ∙ z)) first.bitmap first.file) [
                | inl (g, v) ↦ inl (rw (e, sym first.address, g) refl, grow 0 v)
                | inr (b, u, g, second, _) ↦ inr (
                  b,
                  addrs',
                  u,
                  rw (e, sym first.address, g) refl,
                  then-Mapped addrs s (under (inode i) k) j c addrs' t b u valid first second,
                )
              ]
      ]

  -- On a file whose addresses are distinct blocks in use, outside the bitmap, `bmap` of a block below
  -- MAXFILE panics only when at most two blocks of the disk are free. Otherwise the block has the
  -- address that it returns, which is not 0, from then on. The addresses are again distinct blocks in
  -- use, those that the file had are as before, and nothing changes when the block had an address.
  pub bmap-Mapped :
      (bn : ℕ) (addrs : ℕ → ℕ) (s : Disk)
      → bn < ndirect + nindirect + ndindirect
      → IsBitmap dev s
      → IsFile dev addrs s
      → ((bmap dev bn addrs s ≡ panic) × Nearly dev 2 s)
        ⊎ ((b : ℕ) × (addrs' : ℕ → ℕ) × (t : Disk) × (bmap dev bn addrs s ≡ done (b, addrs', t))
            × Mapped dev addrs s (slot_of bn) b addrs' t)
  unfolding bmap IsSlot IsNode
  bmap-Mapped bn addrs s lt m f = elim (Bool-cases (ltb bn ndirect)) [
    | inl e ↦ rw e (elim (map_inode-Mapped dev bn addrs s m f) [
      | inl (g, v) ↦ inl (g, wider 0 s (omega arith) v)
      | inr (b, addrs', t, g, mapped, _) ↦ inr (b, addrs', t, g, mapped)
    ])
    | inr e ↦ elim (Bool-cases (ltb (bn - ndirect) nindirect)) [
      | inl g ↦
          rw (e, g)
            (elim (map_through-Mapped ndirect (bn - ndirect) addrs s
              ((omega arith, omega arith), ground (arith, g)) m f) [
                | inl (h, v) ↦ inl (h, wider 1 s (omega arith) v)
                | inr (b, addrs', t, h, mapped, _) ↦ inr (b, addrs', t, h, mapped)
              ])
      | inr g ↦
          let inside : ltb (bn - ndirect - nindirect) ndindirect ≡ true =
            ground (arith, lt, e, g) in
          rw (e, g, inside)
            (double-Mapped (ndirect + 1) ((bn - ndirect - nindirect) / nindirect)
              ((bn - ndirect - nindirect) % nindirect) addrs s
              ((refl, quotient (bn - ndirect - nindirect) (ground (arith, inside))), omega arith) m
              f)
    ]
  ]
    where
      wider : (n : ℕ) (s : Disk) → n ≤ 2 → Nearly dev n s → Nearly dev 2 s
      wider n s le v = record { free = v.free; few = omega (arith, v.few, le); others = v.others }

      quotient : (n : ℕ) → n < ndindirect → n / nindirect < nindirect
      quotient n lt = omega (arith, lt)
