-- ===== src/Fs/Trunc.antt =====
-- kernel/filesystem/fs.c: `itrunc` frees each block of a file, once.
use os2025_yyds.Common.{
  ℕ, zero, suc, ◌+◌, ◌≤◌, ◌<◌, ◌≡◌, ◌≢◌, refl, sym, ◌∙◌, subst, ◌⊎◌, inl, inr, false, arith, ◌==◌,
  if◌then◌else◌, update, ==_refl, ==_iff, ne→==, ℕ_discrete, Outcome, done, ◌>>=◌,
}
use os2025_yyds.Fs.{
  Disk, ndirect, nindirect, mark, bfree, free_words, free_lists, free_direct, free_indirect,
  free_double, itrunc,
}
use os2025_yyds.Fs.File.{Slot, inode, IsNode, IsSlot, value, value-under_none, IsBitmap, IsFile}
use os2025_yyds.Fs.Free.{Freed, Freed-weaken, Freed-none, bfree-Freed, Range, words-Freed}
use os2025_yyds.Fs.Slots.{
  double, Lists, Direct, inode_index, under_inode, under-Direct, Before, Before-list, Before-below,
  Before-double, Lists-inode, cover,
}
use os2025_yyds.Fs.Lists.{Lists-Freed, Lists-value}

-- What the code does with the address at `i` of the inode, `run` first.
abbrev top_run : ℕ → ℕ → (ℕ → Disk → Outcome Disk) → (ℕ → ℕ) → Disk → Outcome ((ℕ → ℕ) × Disk)
top_run dev i run a t =
    if a i == 0
    then done (a, t)
    else run (a i) t >>= (λ t. bfree dev (a i) t >>= (λ u. done (update a i 0, u)))

-- The array after the three parts.
cleared :
    (a b c : ℕ → ℕ) (i : ℕ)
    → i < ndirect + 2
    → ((k : ℕ) → 0 ≤ k → k < ndirect → a k ≡ 0)
    → b ndirect ≡ 0
    → ((k : ℕ) → ndirect ≢ k → b k ≡ a k)
    → c (ndirect + 1) ≡ 0
    → ((k : ℕ) → ndirect + 1 ≢ k → c k ≡ b k)
    → c i ≡ 0
cleared a b c i lt zeros none_left rest last keep = elim (ℕ_discrete (ndirect + 1) i) [
  | yes it ↦ subst (λ k. c k ≡ 0) it last
  | no low ↦ keep i low ∙ elim (ℕ_discrete ndirect i) [
    | yes it ↦ subst (λ k. b k ≡ 0) it none_left
    | no lower ↦ rest i lower ∙ zeros i (omega arith) (omega (arith, lt, low, lower))
  ]
]

module _ (dev : ℕ) (addrs : ℕ → ℕ) (s : Disk) (m : IsBitmap dev s) (f : IsFile dev addrs s) where
  -- What is done with the address at `i` of the inode: its lower blocks are freed, then its block.
  top-Freed :
      (i : ℕ) (run : ℕ → Disk → Outcome Disk) (Below D : Slot → Type 0) (a : ℕ → ℕ) (t : Disk)
      → i < ndirect + 2
      → a i ≡ addrs i
      → (addrs i ≢ 0
          → (u : Disk) × (run (addrs i) t ≡ done u) × Freed dev addrs s (λ q. D q ⊎ Below q) u)
      → Freed dev addrs s D t
      → (D (inode i) → ⊥)
      → (Below (inode i) → ⊥)
      → ((q : Slot) → Below q → addrs i ≡ 0 → value dev addrs s q ≡ 0)
      → (b : ℕ → ℕ) × (u : Disk) × (top_run dev i run a t ≡ done (b, u))
        × Freed dev addrs s (λ q. D q ⊎ (inode i ≡ q) ⊎ Below q) u
        × (b i ≡ 0)
        × ((k : ℕ) → i ≢ k → b k ≡ a k)
  unfolding IsSlot value
  top-Freed i run Below D a t low same lower v new apart none = elim (ℕ_discrete (addrs i) 0) [
    | yes empty ↦ (
      a,
      t,
      rw ((==_iff (a i) 0).1 (same ∙ empty)) refl,
      Freed-weaken dev addrs s m f D (λ q. D q ⊎ (inode i ≡ q) ⊎ Below q) t
          (λ q d _ nq. elim d [
            | inl d ↦ d
            | inr (inl it) ↦ absurd (nq (subst (λ r. value dev addrs s r ≡ 0) it empty))
            | inr (inr it) ↦ absurd (nq (none q it empty))
          ])
          (λ q d _ _. inl d) v,
      same ∙ empty,
      λ k _. refl,
    )
    | no some_block ↦
        let (u, e, w) = lower some_block in
        let (g, z) =
          bfree-Freed dev addrs s m f (λ q. D q ⊎ Below q) u (inode i) w low
            (λ d. elim d [ inl d ↦ new d | inr it ↦ apart it ]) some_block in
        (
          update a i 0,
          mark false dev (addrs i) u,
          top_done a i (addrs i) run t u (mark false dev (addrs i) u) same some_block e g,
          Freed-weaken dev addrs s m f (λ q. (D q ⊎ Below q) ⊎ (inode i ≡ q))
              (λ q. D q ⊎ (inode i ≡ q) ⊎ Below q) (mark false dev (addrs i) u)
              (λ q d _ _. elim d [
                | inl d ↦ inl (inl d)
                | inr (inl it) ↦ inr it
                | inr (inr it) ↦ inl (inr it)
              ])
              (λ q d _ _. elim d [
                | inl (inl d) ↦ inl d
                | inl (inr it) ↦ inr (inr it)
                | inr it ↦ inr (inl it)
              ])
              z,
          rw (==_refl i) refl,
          λ k other. rw (ne→== i k other) refl,
        )
  ]
    where
      top_done :
          (a : ℕ → ℕ) (i c : ℕ) (run : ℕ → Disk → Outcome Disk) (t u w : Disk)
          → a i ≡ c
          → c ≢ 0
          → run c t ≡ done u
          → bfree dev c u ≡ done w
          → top_run dev i run a t ≡ done (update a i 0, w)
      top_done a i c run t u w same ne e g = rw (same, ne→== c 0 ne, e, g) refl

  Direct-Freed :
      (n i : ℕ) (D : Slot → Type 0) (a : ℕ → ℕ) (t : Disk)
      → i + n ≤ ndirect
      → ((k : ℕ) → i ≤ k → a k ≡ addrs k)
      → Freed dev addrs s D t
      → ((k : ℕ) → i ≤ k → D (inode k) → ⊥)
      → (b : ℕ → ℕ) × (u : Disk) × (free_direct dev n i (a, t) ≡ done (b, u))
        × Freed dev addrs s (λ q. D q ⊎ Direct i n q) u
        × ((k : ℕ) → i ≤ k → k < i + n → b k ≡ 0)
        × ((k : ℕ) → k < i ⊎ (i + n ≤ k) → b k ≡ a k)
  unfolding free_direct
  Direct-Freed zero i D a t fits same v new = (
    a,
    t,
    refl,
    Freed-weaken dev addrs s m f D (λ q. D q ⊎ Direct i 0 q) t
        (λ q d _ _. elim d [ inl d ↦ d | inr (k, lo, hi, e) ↦ absurd (omega (arith, lo, hi)) ])
        (λ q d _ _. inl d) v,
    λ k lo hi. absurd (omega (arith, lo, hi)),
    λ k _. refl,
  )
  Direct-Freed (suc n) i D a t fits same v new =
      let (b, u, e, w, none_left, others) =
        top-Freed i (λ _ t. done t) (λ _. ⊥) D a t (omega (arith, fits)) (same i (omega arith))
          (λ _. (
            t,
            refl,
            Freed-weaken dev addrs s m f D (λ q. D q ⊎ ⊥) t
                (λ q d _ _. elim d [ inl d ↦ d | inr never ↦ absurd never ]) (λ q d _ _. inl d) v,
          ))
          v (new i (omega arith)) (λ never. never) (λ q never. absurd never) in
      let (c, x, g, z, cleared, rest) =
        Direct-Freed n (i + 1) (λ q. D q ⊎ (inode i ≡ q) ⊎ ⊥) b u (omega (arith, fits))
          (λ k le. others k (λ h. omega (arith, le, h)) ∙ same k (omega (arith, le))) w
          (λ k le d. elim d [
            | inl d ↦ new k (omega (arith, le)) d
            | inr (inl it) ↦ omega (arith, inode_index i k it, le)
            | inr (inr never) ↦ never
          ]) in
      (
        c,
        x,
        rw e g,
        Freed-weaken dev addrs s m f (λ q. (D q ⊎ (inode i ≡ q) ⊎ ⊥) ⊎ Direct (i + 1) n q)
            (λ q. D q ⊎ Direct i (suc n) q) x
            (λ q d _ _. elim d [
              | inl d ↦ inl (inl d)
              | inr (k, lo, hi, it) ↦ elim (ℕ_discrete i k) [
                | yes first ↦ inl (inr (inl (subst (λ l. inode l ≡ q) (sym first) it)))
                | no later ↦ inr (k, omega (arith, lo, later), omega (arith, hi), it)
              ]
            ])
            (λ q d _ _. elim d [
              | inl (inl d) ↦ inl d
              | inl (inr (inl it)) ↦ inr (i, omega arith, omega arith, it)
              | inl (inr (inr never)) ↦ absurd never
              | inr (k, lo, hi, it) ↦ inr (k, omega (arith, lo), omega (arith, hi), it)
            ])
            z,
        λ k lo hi. elim (ℕ_discrete i k) [
          | yes first ↦ rest k (inl (omega (arith, first))) ∙ subst (λ j. b j ≡ 0) first none_left
          | no later ↦ cleared k (omega (arith, lo, later)) (omega (arith, hi))
        ],
        λ k out.
            rest k (elim out [ inl h ↦ inl (omega (arith, h)) | inr h ↦ inr (omega (arith, h)) ])
            ∙ others k
                (λ h. elim out [ inl o ↦ omega (arith, o, h) | inr o ↦ omega (arith, o, h) ]),
      )

  -- For a disk whose bitmap blocks and block 0 are in use, and a file whose addresses are blocks in
  -- use, outside the bitmap and all different, `itrunc` does not panic. It leaves no address in the
  -- inode. Every block that the inode or a block of addresses named, those blocks of addresses with
  -- them, is free afterwards. Every other block of the disk is free or in use as before, and outside
  -- the bitmap no content changes.
  pub itrunc-Freed :
      (b : ℕ → ℕ) × (t : Disk) × (itrunc dev addrs s ≡ done (b, t))
      × ((i : ℕ) → i < ndirect + 2 → b i ≡ 0)
      × Freed dev addrs s IsSlot t
  unfolding itrunc free_indirect free_double double IsNode value
  itrunc-Freed =
      let (a, t, e, v, zeros, others) =
        Direct-Freed ndirect 0 (λ _. ⊥) addrs s (omega arith) (λ k _. refl)
          (Freed-none dev addrs s m f (λ _. ⊥) (λ q never. never)) (λ k _ never. never) in
      let first : a ndirect ≡ addrs ndirect = others ndirect (inr (omega arith)) in
      let (b, u, g, w, none_left, rest) =
        top-Freed ndirect (λ c t. free_words dev c nindirect 0 t)
          (Range (inode ndirect) 0 nindirect) (λ q. ⊥ ⊎ Direct 0 ndirect q) a t (omega arith) first
          (λ ne.
            words-Freed dev addrs s m f nindirect 0 (inode ndirect) (λ q. ⊥ ⊎ Direct 0 ndirect q) t
              (omega arith, omega arith) ne (omega arith) v
              (λ k _ d. under-Direct (inode ndirect) k d))
          v
          (λ d. elim d [
            | inl never ↦ never
            | inr (k, lo, hi, it) ↦ omega (arith, inode_index k ndirect it, hi)
          ])
          (λ (k, lo, hi, it). under_inode (inode ndirect) k ndirect it)
          (λ q (k, lo, hi, it) empty.
            subst (λ r. value dev addrs s r ≡ 0) it
              (value-under_none dev addrs s (inode ndirect) k empty)) in
      let second : b (ndirect + 1) ≡ addrs (ndirect + 1) =
        rest (ndirect + 1) (λ h. omega (arith, h)) ∙ others (ndirect + 1) (inr (omega arith)) in
      let (c, x, h, z, last, keep) =
        top-Freed (ndirect + 1) (λ c t. free_lists dev c nindirect 0 t) (Lists 0 nindirect) Before b
          u (omega arith) second
          (λ ne.
            Lists-Freed dev addrs s m f nindirect 0 Before u ne (omega arith) w
              (λ k _ d. Before-list k d) (λ k j _ d. Before-below k j d))
          w Before-double (λ l. Lists-inode (ndirect + 1) l)
          (λ q l empty. Lists-value dev addrs s m f q empty l) in
      (
        c,
        x,
        rw (e, g) h,
        λ i lt. cleared a b c i lt zeros none_left rest last keep,
        Freed-weaken dev addrs s m f (λ q. Before q ⊎ (double ≡ q) ⊎ Lists 0 nindirect q) IsSlot x
            (λ q valid _ _. cover q valid) (λ q _ valid _. valid) z,
      )
