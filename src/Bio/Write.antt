-- ===== src/Bio/Write.antt =====
-- kernel/filesystem/bio.c: a change of a buffer that `bwrite` writes, against what a reader sees.
use os2025_yyds.Common.{
  ℕ, ◌<◌, ◌≡◌, refl, sym, ap, subst, ◌∙◌, inl, inr, true, false, ◌==◌, if◌then◌else◌, Bool-cases,
  ==_refl, ==_iff, ℕ_discrete,
}
use os2025_yyds.Bio.{Bcache, nbuf, holds, bwrite, modify}
use os2025_yyds.Bio.View.{Sees, set_self, set_other}

module _ {B : Type 0} where
  bwrite-disk :
      (b : ℕ) (s : Bcache B) (d n : ℕ)
      → (bwrite b s).disk d n ≡ (if holds d n (s.bufs b) then (s.bufs b).content else s.disk d n)
  unfolding bwrite
  bwrite-disk b s d n = elim (Bool-cases ((s.bufs b).dev == d)) [
    | inr e ↦ rw e refl
    | inl e ↦ elim (Bool-cases ((s.bufs b).blockno == n)) [
      | inl f ↦ rw (e, f) refl
      | inr f ↦ rw (e, f) (ap (λ k. s.disk k n) ((==_iff (s.bufs b).dev d).0 e))
    ]
  ]

  bwrite-bufs : (b : ℕ) (s : Bcache B) → (bwrite b s).bufs ≡ s.bufs
  unfolding bwrite
  bwrite-bufs b s = refl

  other_block :
      (b d n : ℕ) (w v : B) (s : Bcache B)
      → holds d n (s.bufs b) ≡ false
      → Sees s d n v
      → Sees (bwrite b (modify b w s)) d n v
  unfolding Sees bwrite
  other_block b d n w v s miss (inl (c, lt, h, ok, e)) =
      let keep : (modify b w s).bufs c ≡ s.bufs c =
        set_other s b (record (s.bufs b) { content = w }) c
          (λ same.
            absurd (true_false (sym h ∙ ap (λ k. holds d n (s.bufs k)) (sym same) ∙ miss))) in
      let same = ap (λ f. f c) (bwrite-bufs b (modify b w s)) ∙ keep in
      inl (
        c,
        lt,
        subst (λ y. holds d n y ≡ true) (sym same) h,
        subst (λ y. y.valid ≡ true) (sym same) ok,
        subst (λ y. y.content ≡ v) (sym same) e,
      )
    where
      true_false : true ≡ false → ⊥
      true_false e = cc
  other_block b d n w v s miss (inr (never, e)) = inr (
    λ c lt hc. elim (ℕ_discrete b c) [
      | yes same ↦
          let it = subst (λ k. holds d n ((modify b w s).bufs k) ≡ true) (sym same) hc in
          let old =
            subst (λ y. holds d n y ≡ true) (set_self s b (record (s.bufs b) { content = w })) it in
          absurd (true_false (sym old ∙ miss))
      | no apart ↦
          let keep = set_other s b (record (s.bufs b) { content = w }) c apart in
          subst (λ y. y.valid ≡ false) (sym keep)
            (never c lt (subst (λ y. holds d n y ≡ true) keep hc))
    ],
    bwrite-disk b (modify b w s) d n ∙ rw (==_refl b, miss) e,
  )
    where
      true_false : true ≡ false → ⊥
      true_false e = cc

  -- A caller changes the content of a valid buffer and calls `bwrite`: the disk has the new content,
  -- a reader sees it, and every other block shows what it did.
  modify-bwrite-Sees :
      (b : ℕ) (w : B) (s : Bcache B)
      → b < nbuf
      → (s.bufs b).valid ≡ true
      → ((bwrite b (modify b w s)).disk (s.bufs b).dev (s.bufs b).blockno ≡ w)
        × Sees (bwrite b (modify b w s)) (s.bufs b).dev (s.bufs b).blockno w
        × ((d n : ℕ) (v : B)
            → holds d n (s.bufs b) ≡ false
            → Sees s d n v
            → Sees (bwrite b (modify b w s)) d n v)
  unfolding Sees bwrite
  modify-bwrite-Sees b w s lb full = (
    rw (==_refl b, ==_refl (s.bufs b).dev, ==_refl (s.bufs b).blockno) refl,
    inl (
      b,
      lb,
      rw (==_refl b, ==_refl (s.bufs b).dev, ==_refl (s.bufs b).blockno) refl,
      rw (==_refl b) full,
      rw (==_refl b) refl,
    ),
    λ d n v miss sees. other_block b d n w v s miss sees,
  )
