-- ===== src/Bio/Read.antt =====
-- kernel/filesystem/bio.c: `bread` against what a reader sees.
use os2025_yyds.Common.{
  ◌-◌, ◌^◌, ne→==, ℕ, ◌<◌, ◌≡◌, refl, sym, ap, subst, ◌∙◌, ◌≢◌, ◌⊎◌, inl, inr, true, false, arith,
  done, panic, Bool-cases, ==_refl, ℕ_discrete,
}
use os2025_yyds.Bio.{set_buf, Buf, Bcache, nbuf, holds, fill, bread}
use os2025_yyds.Bio.Invariant.{IsBcache, set_buf-IsBcache}
use os2025_yyds.Bio.Get.{Got, bget-Got}
use os2025_yyds.Bio.View.{Sees, IsClean, holds-pair, alone, Got-Sees, fill-Sees, fill-shows}

module _ {B : Type 0} where
  pub fill-IsBcache : (b : ℕ) (s : Bcache B) → IsBcache s → IsBcache (fill b s)
  unfolding fill
  fill-IsBcache b s v = elim (Bool-cases (s.bufs b).valid) [
    | inl e ↦ rw e v
    | inr e ↦ rw e (set_buf-IsBcache s b _ refl refl v)
  ]

  fill-hit :
      (b : ℕ) (s : Bcache B)
      → (s.bufs b).valid ≡ true
      → ((fill b s).bufs b).content ≡ (s.bufs b).content
  unfolding fill
  fill-hit b s e = rw e refl

  fill-miss :
      (b : ℕ) (s : Bcache B)
      → (s.bufs b).valid ≡ false
      → ((fill b s).bufs b).content ≡ s.disk (s.bufs b).dev (s.bufs b).blockno
  unfolding fill
  fill-miss b s e = rw (e, ==_refl b) refl

  holds_refl :
      (dev blockno : ℕ) (x : Buf B) → x.dev ≡ dev → x.blockno ≡ blockno → holds dev blockno x ≡ true
  holds_refl dev blockno x e f = rw (e, f, ==_refl dev, ==_refl blockno) refl

  Got-holds :
      (now dev blockno b : ℕ) (s t : Bcache B)
      → Got now dev blockno s b t
      → holds dev blockno (t.bufs b) ≡ true
  Got-holds now dev blockno b s t g = elim g.how [
    | inl (it, e) ↦ subst (λ x. holds dev blockno x ≡ true) (sym e) it
    | inr (fresh, free, oldest, e) ↦
        holds_refl dev blockno (t.bufs b) (ap (λ x. x.dev) e) (ap (λ x. x.blockno) e)
  ]

  from_disk :
      (now dev blockno b : ℕ) (s t : Bcache B)
      → Got now dev blockno s b t
      → (t.bufs b).valid ≡ false
      → ((fill b t).bufs b).content ≡ s.disk dev blockno
  from_disk now dev blockno b s t g e =
      let (d, n) = holds-pair dev blockno (t.bufs b) (Got-holds now dev blockno b s t g) in
      fill-miss b t e
      ∙ ap (λ k. t.disk k (t.bufs b).blockno) d
      ∙ ap (t.disk dev) n
      ∙ ap (λ f. f dev blockno) g.same_disk

  Got-content :
      (now dev blockno b : ℕ) (s t : Bcache B)
      → dev ≢ 0
      → IsBcache s
      → Got now dev blockno s b t
      → Sees s dev blockno ((fill b t).bufs b).content
  unfolding Sees
  Got-content now dev blockno b s t ne v g = elim g.how [
    | inl (it, e) ↦ elim (Bool-cases (s.bufs b).valid) [
      | inl full ↦ inl (
        b,
        g.buffer,
        it,
        full,
        sym (fill-hit b t (ap (λ x. x.valid) e ∙ full) ∙ ap (λ x. x.content) e),
      )
      | inr empty ↦ inr (
        λ c lt h.
            subst (λ k. (s.bufs k).valid ≡ false) (alone s dev blockno b c v ne g.buffer lt it h)
              empty,
        sym (from_disk now dev blockno b s t g (ap (λ x. x.valid) e ∙ empty)),
      )
    ]
    | inr (fresh, free, oldest, e) ↦ inr (
      λ c lt h. absurd (ground (arith, fresh c lt, h)),
      sym (from_disk now dev blockno b s t g (ap (λ x. x.valid) e)),
    )
  ]

  -- A buffer that `bget` returns is in use, if its count does not wrap, and the others are as before.
  Got-IsClean :
      (now dev blockno b : ℕ) (s t : Bcache B)
      → (s.bufs b).refcnt < 2 ^ 32 - 1
      → IsClean s
      → Got now dev blockno s b t
      → IsClean t
  unfolding IsClean
  Got-IsClean now dev blockno b s t few clean g c lt free full = elim (ℕ_discrete b c) [
    | no apart ↦
        let same = g.others c apart in
        subst (λ (f : ℕ → ℕ → B). (t.bufs c).content ≡ f (t.bufs c).dev (t.bufs c).blockno)
          (sym g.same_disk)
          (subst (λ (x : Buf B). x.content ≡ s.disk x.dev x.blockno) (sym same)
            (clean c lt (sym (ap (λ x. x.refcnt) same) ∙ free)
              (sym (ap (λ x. x.valid) same) ∙ full)))
    | yes same ↦ absurd (in_use (subst (λ k. (t.bufs k).refcnt ≡ 0) (sym same) free))
  ]
    where
      in_use : (t.bufs b).refcnt ≡ 0 → ⊥
      in_use zero_count = elim g.how [
        | inl (it, e) ↦ omega (arith, few, ap (λ x. x.refcnt) e, zero_count)
        | inr (fresh, unused, oldest, e) ↦ omega (arith, ap (λ x. x.refcnt) e, zero_count)
      ]

  fill-IsClean : (b : ℕ) (s : Bcache B) → IsClean s → IsClean (fill b s)
  unfolding fill IsClean
  fill-IsClean b s clean = elim (Bool-cases (s.bufs b).valid) [
    | inl e ↦ rw e clean
    | inr e ↦ rw e (λ c lt free full. elim (ℕ_discrete b c) [
      | yes same ↦
          let x = record (s.bufs b) {
            valid = true;
            content = s.disk (s.bufs b).dev (s.bufs b).blockno;
          } in
          subst
            (λ k.
              ((set_buf b x s).bufs k).content
              ≡ s.disk ((set_buf b x s).bufs k).dev ((set_buf b x s).bufs k).blockno)
            same (rw (==_refl b) refl)
      | no apart ↦
          rw (ne→== b c apart)
            (clean c lt (rw (ne→== b c apart) at free) (rw (ne→== b c apart) at full))
    ])
  ]

  pub record Read (dev blockno : ℕ) (s : Bcache B) (b : ℕ) (t : Bcache B) : Type 0 where
    pub buffer : b < nbuf
    pub valid_state : IsBcache t
    pub clean_state : IsClean t
    pub it : holds dev blockno (t.bufs b) ≡ true
    pub full : (t.bufs b).valid ≡ true
    pub seen : Sees s dev blockno (t.bufs b).content
    pub kept : (d n : ℕ) (v : B) → d ≢ 0 → Sees s d n v → Sees t d n v

  -- In a well-formed cache whose unused valid buffers have what the disk holds, `bread` of a block of
  -- a device that is not 0, where no count is about to wrap, panics when each buffer is in use and none has the block, and otherwise
  -- returns a valid buffer of that block whose content is what a reader saw of the block before.
  -- The cache stays as it should be and no reader sees another content of any block of a device.
  pub bread-Read :
      (now dev blockno : ℕ) (s : Bcache B)
      → dev ≢ 0
      → IsBcache s
      → IsClean s
      → ((c : ℕ) → c < nbuf → (s.bufs c).refcnt < 2 ^ 32 - 1)
      → ((bread now dev blockno s ≡ panic)
          × ((c : ℕ) → c < nbuf → ((s.bufs c).refcnt ≢ 0) × (holds dev blockno (s.bufs c) ≡ false)))
        ⊎ ((b : ℕ) × (t : Bcache B) × (bread now dev blockno s ≡ done (b, t))
            × Read dev blockno s b t)
  unfolding bread
  bread-Read now dev blockno s ne v clean few = elim (bget-Got now dev blockno s v) [
    | inl (e, used) ↦ inl (rw e refl, used)
    | inr (b, t, e, g) ↦
        let (full, same_dev, same_block) = fill-shows b t in
        let (d, n) = holds-pair dev blockno (t.bufs b) (Got-holds now dev blockno b s t g) in
        inr (
          b,
          fill b t,
          rw e refl,
          record {
            buffer = g.buffer;
            valid_state = fill-IsBcache b t g.valid_state;
            clean_state =
                fill-IsClean b t (Got-IsClean now dev blockno b s t (few b g.buffer) clean g);
            it = holds_refl dev blockno ((fill b t).bufs b) (same_dev ∙ d) (same_block ∙ n);
            full = full;
            seen = Got-content now dev blockno b s t ne v g;
            kept = λ d n w nd sees.
                fill-Sees b t d n w g.buffer
                  (Got-Sees now dev blockno b s t d n w v clean nd g sees);
          },
        )
  ]
