-- ===== src/Bio/View.antt =====
-- kernel/filesystem/bio.c: the cache as a memory of blocks. What a reader sees of a block is the
-- content of the valid buffer that has it, and what the disk holds where there is none.
use os2025_yyds.Common.{
  ℕ, ◌<◌, ◌≡◌, refl, sym, ap, subst, ◌∙◌, ◌≢◌, ◌⊎◌, inl, inr, true, false, arith, Bool-cases,
  ==_refl, ne→==, ℕ_discrete,
}
use os2025_yyds.Bio.{Buf, Bcache, nbuf, holds, fill, set_buf}
use os2025_yyds.Bio.Invariant.{IsBcache}
use os2025_yyds.Bio.Get.{Got}

module _ {B : Type 0} where
  unfoldable pub Sees : Bcache B → ℕ → ℕ → B → Type 0
  Sees s d n v =
      ((b : ℕ) × (b < nbuf)
        × (holds d n (s.bufs b) ≡ true)
        × ((s.bufs b).valid ≡ true)
        × ((s.bufs b).content ≡ v))
      ⊎ (((b : ℕ) → b < nbuf → holds d n (s.bufs b) ≡ true → (s.bufs b).valid ≡ false)
          × (s.disk d n ≡ v))

  -- A buffer that nobody uses has what the disk holds: its users wrote it before they released it.
  unfoldable pub IsClean : Bcache B → Type 0
  IsClean s =
      (b : ℕ)
      → b < nbuf
      → (s.bufs b).refcnt ≡ 0
      → (s.bufs b).valid ≡ true
      → (s.bufs b).content ≡ s.disk (s.bufs b).dev (s.bufs b).blockno

  pub holds-pair : (d n : ℕ) (x : Buf B) → holds d n x ≡ true → (x.dev ≡ d) × (x.blockno ≡ n)
  holds-pair d n x h = (ground (arith, h), ground (arith, h))

  -- No other buffer has the block.
  pub alone :
      (s : Bcache B) (d n a c : ℕ)
      → IsBcache s
      → d ≢ 0
      → a < nbuf
      → c < nbuf
      → holds d n (s.bufs a) ≡ true
      → holds d n (s.bufs c) ≡ true
      → a ≡ c
  alone s d n a c v ne la lc ha hc =
      let (da, na) = holds-pair d n (s.bufs a) ha in
      let (dc, nc) = holds-pair d n (s.bufs c) hc in
      v.unique a c la lc (λ e. ne (sym da ∙ e)) (da ∙ sym dc) (na ∙ sym nc)

  Same : Buf B → Buf B → Type 0
  Same x y =
      (x.dev ≡ y.dev) × (x.blockno ≡ y.blockno) × (x.valid ≡ y.valid) × (x.content ≡ y.content)

  Sees-Same :
      (s t : Bcache B) (d n : ℕ) (v : B)
      → t.disk ≡ s.disk
      → ((c : ℕ) → Same (t.bufs c) (s.bufs c))
      → Sees s d n v
      → Sees t d n v
  unfolding Sees Same
  Sees-Same s t d n v disk same (inl (b, lt, h, ok, e)) =
      inl (b, lt, rw ((same b).0, (same b).1) h, (same b).2 ∙ ok, (same b).3 ∙ e)
  Sees-Same s t d n v disk same (inr (never, e)) = inr (
    λ c lt h. (same c).2 ∙ never c lt (rw (sym (same c).0, sym (same c).1) h),
    ap (λ f. f d n) disk ∙ e,
  )

  entry-Same : (x y : Buf B) → x ≡ y → Same x y
  unfolding Same
  entry-Same x y e =
      (ap (λ z. z.dev) e, ap (λ z. z.blockno) e, ap (λ z. z.valid) e, ap (λ z. z.content) e)

  -- An unused buffer becomes another block's: its content is lost, which the disk has.
  recycled-Sees :
      (s t : Bcache B) (b d n : ℕ) (v : B)
      → IsBcache s
      → IsClean s
      → d ≢ 0
      → t.disk ≡ s.disk
      → ((c : ℕ) → b ≢ c → t.bufs c ≡ s.bufs c)
      → (t.bufs b).valid ≡ false
      → (s.bufs b).refcnt ≡ 0
      → Sees s d n v
      → Sees t d n v
  unfolding Sees IsClean
  recycled-Sees s t b d n v w clean ne disk others empty free (inl (c, lt, h, ok, e)) =
      elim (ℕ_discrete b c) [
        | no apart ↦
            inl (c, lt, rw (others c apart) h, rw (others c apart) ok, rw (others c apart) e)
        | yes same ↦
            let unused = subst (λ k. (s.bufs k).refcnt ≡ 0) same free in
            let (dev, block) = holds-pair d n (s.bufs c) h in
            inr (
              λ a la ha. elim (ℕ_discrete b a) [
                | yes it ↦ subst (λ k. (t.bufs k).valid ≡ false) it empty
                | no apart ↦ absurd (
                    apart (
                      same
                      ∙ alone s d n c a w ne lt la h
                          (subst (λ x. holds d n x ≡ true) (others a apart) ha)))
              ],
              ap (λ f. f d n) disk ∙ sym (rw (sym dev, sym block) (clean c lt unused ok)) ∙ e,
            )
      ]
  recycled-Sees s t b d n v w clean ne disk others empty free (inr (never, e)) = inr (
    λ a la ha. elim (ℕ_discrete b a) [
      | yes it ↦ subst (λ k. (t.bufs k).valid ≡ false) it empty
      | no apart ↦
          ap (λ x. x.valid) (others a apart)
          ∙ never a la (subst (λ x. holds d n x ≡ true) (others a apart) ha)
    ],
    ap (λ f. f d n) disk ∙ e,
  )

  pub Got-Sees :
      (now dev blockno b : ℕ) (s t : Bcache B) (d n : ℕ) (v : B)
      → IsBcache s
      → IsClean s
      → d ≢ 0
      → Got now dev blockno s b t
      → Sees s d n v
      → Sees t d n v
  unfolding Same
  Got-Sees now dev blockno b s t d n v w clean ne g sees = elim g.how [
    | inl (it, e) ↦
        Sees-Same s t d n v g.same_disk
          (λ c. elim (ℕ_discrete b c) [
            | yes same ↦
                subst (λ k. Same (t.bufs k) (s.bufs k)) same (rw e (refl, refl, refl, refl))
            | no apart ↦ entry-Same (t.bufs c) (s.bufs c) (g.others c apart)
          ])
          sees
    | inr (fresh, free, oldest, e) ↦
        recycled-Sees s t b d n v w clean ne g.same_disk g.others (ap (λ x. x.valid) e) free sees
  ]

  pub set_self : (s : Bcache B) (b : ℕ) (x : Buf B) → (set_buf b x s).bufs b ≡ x
  set_self s b x = rw (==_refl b) refl

  pub set_other :
      (s : Bcache B) (b : ℕ) (x : Buf B) (c : ℕ) → b ≢ c → (set_buf b x s).bufs c ≡ s.bufs c
  set_other s b x c apart = rw (ne→== b c apart) refl

  -- Reading a block into its buffer shows what the disk holds.
  filled-Sees :
      (s : Bcache B) (b : ℕ) (x : Buf B) (d n : ℕ) (v : B)
      → b < nbuf
      → (s.bufs b).valid ≡ false
      → x.dev ≡ (s.bufs b).dev
      → x.blockno ≡ (s.bufs b).blockno
      → x.valid ≡ true
      → x.content ≡ s.disk (s.bufs b).dev (s.bufs b).blockno
      → Sees s d n v
      → Sees (set_buf b x s) d n v
  unfolding Sees
  filled-Sees s b x d n v lb empty dev block ok content (inl (c, lt, h, valid, e)) = inl (
    c,
    lt,
    subst (λ y. holds d n y ≡ true) (sym (set_other s b x c apart)) h,
    subst (λ y. y.valid ≡ true) (sym (set_other s b x c apart)) valid,
    subst (λ y. y.content ≡ v) (sym (set_other s b x c apart)) e,
  )
    where
      apart : b ≢ c
      apart same = let full = subst (λ k. (s.bufs k).valid ≡ true) (sym same) valid in cc
  filled-Sees s b x d n v lb empty dev block ok content (inr (never, e)) =
      elim (Bool-cases (holds d n (s.bufs b))) [
        | inl h ↦
            let (same_dev, same_block) = holds-pair d n (s.bufs b) h in
            inl (
              b,
              lb,
              subst (λ y. holds d n y ≡ true) (sym (set_self s b x)) (rw (dev, block) h),
              subst (λ y. y.valid ≡ true) (sym (set_self s b x)) ok,
              subst (λ y. y.content ≡ v) (sym (set_self s b x))
                  (content
                    ∙ ap (λ k. s.disk k (s.bufs b).blockno) same_dev
                    ∙ ap (s.disk d) same_block
                    ∙ e),
            )
        | inr h ↦ inr (
          λ c lt hc. elim (ℕ_discrete b c) [
            | yes same ↦
                let it = subst (λ k. holds d n ((set_buf b x s).bufs k) ≡ true) (sym same) hc in
                let at_x = subst (λ y. holds d n y ≡ true) (set_self s b x) it in
                let at_b : holds d n (s.bufs b) ≡ true = rw (sym dev, sym block) at_x in
                absurd (true_false (sym at_b ∙ h))
            | no apart ↦
                let old = subst (λ y. holds d n y ≡ true) (set_other s b x c apart) hc in
                subst (λ y. y.valid ≡ false) (sym (set_other s b x c apart)) (never c lt old)
          ],
          e,
        )
      ]
    where
      true_false : true ≡ false → ⊥
      true_false e = cc

  pub fill-Sees :
      (b : ℕ) (s : Bcache B) (d n : ℕ) (v : B) → b < nbuf → Sees s d n v → Sees (fill b s) d n v
  unfolding fill
  fill-Sees b s d n v lb sees = elim (Bool-cases (s.bufs b).valid) [
    | inl e ↦ subst (λ t. Sees t d n v) (sym (full e)) sees
    | inr e ↦
        subst (λ t. Sees t d n v) (sym (read e))
          (filled-Sees s b _ d n v lb e refl refl refl refl sees)
  ]
    where
      full : (s.bufs b).valid ≡ true → fill b s ≡ s
      full e = rw e refl

      read :
          (s.bufs b).valid ≡ false
          → fill b s
            ≡ set_buf b
                (record (s.bufs b) {
                  valid = true;
                  content = s.disk (s.bufs b).dev (s.bufs b).blockno;
                })
                s
      read e = rw e refl

  -- What the buffer shows after `fill`.
  pub fill-shows :
      (b : ℕ) (s : Bcache B)
      → (((fill b s).bufs b).valid ≡ true)
        × (((fill b s).bufs b).dev ≡ (s.bufs b).dev)
        × (((fill b s).bufs b).blockno ≡ (s.bufs b).blockno)
  unfolding fill
  fill-shows b s = elim (Bool-cases (s.bufs b).valid) [
    | inl e ↦ rw e (e, refl, refl)
    | inr e ↦ rw (e, ==_refl b) (refl, refl, refl)
  ]
