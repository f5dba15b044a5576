-- ===== src/Fs/Lists.antt =====
-- kernel/filesystem/fs.c: the loops of `itrunc` over blocks of addresses.
use os2025_yyds.Common.{
  ℕ, zero, suc, ◌+◌, ◌≤◌, ◌<◌, ◌≡◌, ◌≢◌, refl, sym, ◌∙◌, ap, subst, ◌⊎◌, inl, inr, false, arith,
  ◌==◌, if◌then◌else◌, ==_iff, ne→==, ℕ_discrete, done, ◌>>=◌,
}
use os2025_yyds.Fs.{Disk, ndirect, nindirect, word, mark, bfree, free_words, free_lists}
use os2025_yyds.Fs.File.{Slot, under, IsNode, IsSlot, value, value-under_none, IsBitmap, IsFile}
use os2025_yyds.Fs.Free.{
  Freed, Freed-weaken, Freed-word, bfree-Freed, Range, words-Freed, under_index,
}
use os2025_yyds.Fs.Slots.{double, Lists, not_below, same_list}

list_run :
    (dev c i l : ℕ) (t u w : Disk)
    → word dev c i t ≡ l
    → l ≢ 0
    → free_words dev l nindirect 0 t ≡ done u
    → word dev c i u ≡ l
    → bfree dev l u ≡ done w
    → (if word dev c i t == 0
        then done t
        else free_words dev (word dev c i t) nindirect 0 t >>= (λ t. bfree dev (word dev c i t) t))
      ≡ done w
list_run dev c i l t u w here some_block e again g =
    rw (here, ne→== l 0 some_block, e) (ap (λ (m : ℕ). bfree dev m u) again ∙ g)

module _ (dev : ℕ) (addrs : ℕ → ℕ) (s : Disk) (m : IsBitmap dev s) (f : IsFile dev addrs s) where
  -- One first-level block and what it names.
  list-Freed :
      (i : ℕ) (D : Slot → Type 0) (t : Disk)
      → value dev addrs s double ≢ 0
      → i < nindirect
      → Freed dev addrs s D t
      → (D (under double i) → ⊥)
      → ((j : ℕ) → D (under (under double i) j) → ⊥)
      → (u : Disk) × ((if word dev (value dev addrs s double) i t == 0
            then done t
            else free_words dev (word dev (value dev addrs s double) i t) nindirect 0 t
              >>= (λ t. bfree dev (word dev (value dev addrs s double) i t) t))
          ≡ done u)
        × Freed dev addrs s
            (λ q. D q ⊎ (under double i ≡ q) ⊎ Range (under double i) 0 nindirect q)
            u
  unfolding double IsSlot IsNode
  list-Freed i D t ne low v new new_below =
      let l : ℕ = value dev addrs s (under double i) in
      let here = Freed-word dev addrs s m f D t double i v (omega arith) ne in
      elim (ℕ_discrete l 0) [
        | yes none ↦ (
          t,
          rw ((==_iff (word dev (value dev addrs s double) i t) 0).1 (here ∙ none)) refl,
          Freed-weaken dev addrs s m f D
              (λ q. D q ⊎ (under double i ≡ q) ⊎ Range (under double i) 0 nindirect q) t
              (λ q d _ nq. elim d [
                | inl d ↦ d
                | inr (inl it) ↦ absurd (nq (subst (λ r. value dev addrs s r ≡ 0) it none))
                | inr (inr (k, _, _, it)) ↦ absurd (
                    nq (
                      subst (λ r. value dev addrs s r ≡ 0) it
                        (value-under_none dev addrs s (under double i) k none)))
              ])
              (λ q d _ _. inl d) v,
        )
        | no some_block ↦
            let (u, e, w) =
              words-Freed dev addrs s m f nindirect 0 (under double i) D t (refl, low) some_block
                (omega arith) v (λ k _ d. new_below k d) in
            let again =
              Freed-word dev addrs s m f (λ q. D q ⊎ Range (under double i) 0 nindirect q) u double
                i w (omega arith) ne in
            let (g, z) =
              bfree-Freed dev addrs s m f (λ q. D q ⊎ Range (under double i) 0 nindirect q) u
                (under double i) w ((omega arith, omega arith), low)
                (λ d. elim d [ inl d ↦ new d | inr (k, _, _, it) ↦ absurd (not_below i i k it) ])
                some_block in
            (
              mark false dev l u,
              list_run dev (value dev addrs s double) i l t u (mark false dev l u) here some_block e
                  again g,
              Freed-weaken dev addrs s m f
                  (λ q. (D q ⊎ Range (under double i) 0 nindirect q) ⊎ (under double i ≡ q))
                  (λ q. D q ⊎ (under double i ≡ q) ⊎ Range (under double i) 0 nindirect q)
                  (mark false dev l u)
                  (λ q d _ _. elim d [
                    | inl d ↦ inl (inl d)
                    | inr (inl it) ↦ inr it
                    | inr (inr it) ↦ inl (inr it)
                  ])
                  (λ q d _ _. elim d [
                    | inl (inl d) ↦ inl d
                    | inl (inr it) ↦ inr (inr it)
                    | inr it ↦ inr (inl it)
                  ])
                  z,
            )
      ]

  pub Lists-Freed :
      (n i : ℕ) (D : Slot → Type 0) (t : Disk)
      → value dev addrs s double ≢ 0
      → i + n ≤ nindirect
      → Freed dev addrs s D t
      → ((k : ℕ) → i ≤ k → D (under double k) → ⊥)
      → ((k j : ℕ) → i ≤ k → D (under (under double k) j) → ⊥)
      → (u : Disk) × (free_lists dev (value dev addrs s double) n i t ≡ done u)
        × Freed dev addrs s (λ q. D q ⊎ Lists i n q) u
  unfolding free_lists Lists
  Lists-Freed zero i D t ne fits v new new_below = (
    t,
    refl,
    Freed-weaken dev addrs s m f D (λ q. D q ⊎ Lists i 0 q) t
        (λ q d _ _. elim d [ inl d ↦ d | inr (k, lo, hi, e) ↦ absurd (omega (arith, lo, hi)) ])
        (λ q d _ _. inl d) v,
  )
  Lists-Freed (suc n) i D t ne fits v new new_below =
      let (u, e, w) =
        list-Freed i D t ne (omega (arith, fits)) v (new i (omega arith))
          (λ j. new_below i j (omega arith)) in
      let (x, g, z) =
        Lists-Freed n (i + 1)
          (λ q. D q ⊎ (under double i ≡ q) ⊎ Range (under double i) 0 nindirect q) u ne
          (omega (arith, fits)) w
          (λ k le d. elim d [
            | inl d ↦ new k (omega (arith, le)) d
            | inr (inl same) ↦ absurd (omega (arith, under_index double i k same, le))
            | inr (inr (j, _, _, same)) ↦ absurd (not_below k i j same)
          ])
          (λ k j le d. elim d [
            | inl d ↦ new_below k j (omega (arith, le)) d
            | inr (inl same) ↦ absurd (not_below i k j (sym same))
            | inr (inr (l, _, _, same)) ↦ absurd (omega (arith, same_list i k l j same, le))
          ]) in
      (
        x,
        rw e g,
        Freed-weaken dev addrs s m f
            (λ q.
              (D q ⊎ (under double i ≡ q) ⊎ Range (under double i) 0 nindirect q)
              ⊎ Lists (i + 1) n q)
            (λ q. D q ⊎ Lists i (suc n) q) x
            (λ q d _ _. elim d [
              | inl d ↦ inl (inl d)
              | inr (k, lo, hi, which) ↦ elim (ℕ_discrete i k) [
                | yes first ↦ inl (
                    inr (
                      subst (λ l. (under double l ≡ q) ⊎ Range (under double l) 0 nindirect q)
                        (sym first) which))
                | no later ↦ inr (k, omega (arith, lo, later), omega (arith, hi), which)
              ]
            ])
            (λ q d _ _. elim d [
              | inl (inl d) ↦ inl d
              | inl (inr which) ↦ inr (i, omega arith, omega arith, which)
              | inr (k, lo, hi, which) ↦ inr (k, omega (arith, lo), omega (arith, hi), which)
            ])
            z,
      )

  pub Lists-value :
      (q : Slot) → addrs (ndirect + 1) ≡ 0 → Lists 0 nindirect q → value dev addrs s q ≡ 0
  unfolding Lists value double
  Lists-value q empty (k, _, _, which) =
      let first = value-under_none dev addrs s double k empty in
      elim which [
        | inl it ↦ subst (λ r. value dev addrs s r ≡ 0) it first
        | inr (j, _, _, it) ↦
            subst (λ r. value dev addrs s r ≡ 0) it
              (value-under_none dev addrs s (under double k) j first)
      ]
