-- ===== src/Bio/Search.antt =====
-- kernel/filesystem/bio.c: what the loops of `bget` find.
use os2025_yyds.Common.{
  ℕ, zero, suc, ◌+◌, ◌-◌, ◌%◌, ◌≤◌, ◌<◌, ◌≡◌, refl, sym, subst, ◌≢◌, ◌⊎◌, inl, inr, true, false,
  List, [], ◌∷◌, Option, none, some, arith, ◌==◌, count, Bool-cases, Option-cases, ==_iff,
  ℕ_discrete,
}
use mathlib.Core.Option.{some-injective}
use os2025_yyds.Bio.{Buf, nbucket, holds, search_bucket, is_better, lru, find_unused}

start : (i k : ℕ) → i < nbucket → 0 ≡ k → (i + k) % nbucket ≡ i
start i k h first = omega arith

shift : (i k : ℕ) → 0 ≢ k → (i + k) % nbucket ≡ ((i + 1) % nbucket + (k - 1)) % nbucket
shift i k others = omega arith

module _ {B : Type 0} (bufs : ℕ → Buf B) where
  pub record Hit (dev blockno : ℕ) (l : List ℕ) (b : ℕ) : Type 0 where
    pub on_list : count b l ≢ 0
    pub it : holds dev blockno (bufs b) ≡ true

  pub search_bucket-cases :
      (dev blockno : ℕ) (l : List ℕ)
      → ((search_bucket dev blockno bufs l ≡ none)
          × ((b : ℕ) → count b l ≢ 0 → holds dev blockno (bufs b) ≡ false))
        ⊎ ((b : ℕ) × (search_bucket dev blockno bufs l ≡ some b) × Hit dev blockno l b)
  unfolding search_bucket
  search_bucket-cases dev blockno [] = inl (refl, λ b h. absurd (h refl))
  search_bucket-cases dev blockno (x ∷ xs) = elim (Bool-cases (holds dev blockno (bufs x))) [
    | inl e ↦ inr (x, rw e refl, record { on_list = ground arith; it = e })
    | inr e ↦ elim (search_bucket-cases dev blockno xs) [
      | inr (b, later, h) ↦
          inr (b, rw e later, record { on_list = ground (arith, h.on_list); it = h.it })
      | inl (later, never) ↦ inl (
        rw e later,
        λ b h. elim (Bool-cases (x == b)) [
          | inl same ↦ subst (λ y. holds dev blockno (bufs y) ≡ false) ((==_iff x b).0 same) e
          | inr apart ↦ never b (ground (arith, apart, h))
        ],
      )
    ]
  ]

  -- The best choice of a list: an unused buffer, none of the unused ones older.
  pub record Best (l : List ℕ) (b : ℕ) : Type 0 where
    pub on_list : count b l ≢ 0
    pub unused : (bufs b).refcnt ≡ 0
    pub oldest :
        (c : ℕ) → count c l ≢ 0 → (bufs c).refcnt ≡ 0 → (bufs b).timestamp ≤ (bufs c).timestamp

  Goes : List ℕ → Option ℕ → Option ℕ → Type 0
  Goes l best none = (best ≡ none) × ((c : ℕ) → count c l ≢ 0 → (bufs c).refcnt ≢ 0)
  Goes l best (some b) =
      ((best ≡ some b) ⊎ ((count b l ≢ 0) × ((bufs b).refcnt ≡ 0)))
      × ((c : ℕ) → count c l ≢ 0 → (bufs c).refcnt ≡ 0 → (bufs b).timestamp ≤ (bufs c).timestamp)
      × ((a : ℕ) → best ≡ some a → (bufs b).timestamp ≤ (bufs a).timestamp)

  -- One more buffer at the front: it becomes the best choice, or it does not.
  Goes-taken :
      (t : ℕ) (ts : List ℕ) (best r : Option ℕ)
      → is_better bufs t best ≡ true
      → Goes ts (some t) r
      → Goes (t ∷ ts) best r
  unfolding is_better Goes
  Goes-taken t ts best none h (e, _) = absurd (some_none e)
    where
      some_none : some t ≡ none → ⊥
      some_none e = cc
  Goes-taken t ts none (some b) h (from, all, old) = (
    inr (elim from [
      | inl e ↦
          subst (λ y. (count y (t ∷ ts) ≢ 0) × ((bufs y).refcnt ≡ 0)) (some-injective _ _ e)
            (ground arith, ground (arith, h))
      | inr (on, free) ↦ (ground (arith, on), free)
    ]),
    λ c on free. elim (Bool-cases (t == c)) [
      | inl same ↦
          subst (λ y. (bufs b).timestamp ≤ (bufs y).timestamp) ((==_iff t c).0 same) (old t refl)
      | inr apart ↦ all c (ground (arith, apart, on)) free
    ],
    λ a e. cc,
  )
  Goes-taken t ts (some a) (some b) h (from, all, old) = (
    inr (elim from [
      | inl e ↦
          subst (λ y. (count y (t ∷ ts) ≢ 0) × ((bufs y).refcnt ≡ 0)) (some-injective _ _ e)
            (ground arith, ground (arith, h))
      | inr (on, free) ↦ (ground (arith, on), free)
    ]),
    λ c on free. elim (Bool-cases (t == c)) [
      | inl same ↦
          subst (λ y. (bufs b).timestamp ≤ (bufs y).timestamp) ((==_iff t c).0 same) (old t refl)
      | inr apart ↦ all c (ground (arith, apart, on)) free
    ],
    λ d e.
        subst (λ y. (bufs b).timestamp ≤ (bufs y).timestamp) (some-injective _ _ e)
          (ground (arith, old t refl, h)),
  )

  Goes-left :
      (t : ℕ) (ts : List ℕ) (best r : Option ℕ)
      → is_better bufs t best ≡ false
      → Goes ts best r
      → Goes (t ∷ ts) best r
  unfolding is_better Goes
  Goes-left t ts none none h (e, used) = (
    e,
    λ c on. elim (Bool-cases (t == c)) [
      | inl same ↦ subst (λ y. (bufs y).refcnt ≢ 0) ((==_iff t c).0 same) (ground (arith, h))
      | inr apart ↦ used c (ground (arith, apart, on))
    ],
  )
  Goes-left t ts (some a) none h (e, used) = cc
  Goes-left t ts none (some b) h (from, all, old) = (
    elim from [ inl e ↦ inl e | inr (on, free) ↦ inr (ground (arith, on), free) ],
    λ c on free. elim (Bool-cases (t == c)) [
      | inl same ↦ absurd (used (subst (λ y. (bufs y).refcnt ≡ 0) (sym ((==_iff t c).0 same)) free))
      | inr apart ↦ all c (ground (arith, apart, on)) free
    ],
    old,
  )
    where
      used : (bufs t).refcnt ≡ 0 → ⊥
      used free = ground (arith, h)
  Goes-left t ts (some a) (some b) h (from, all, old) = (
    elim from [ inl e ↦ inl e | inr (on, free) ↦ inr (ground (arith, on), free) ],
    λ c on free. elim (Bool-cases (t == c)) [
      | inl same ↦
          subst (λ y. (bufs b).timestamp ≤ (bufs y).timestamp) ((==_iff t c).0 same)
            (ground (
              arith,
              h,
              old a refl,
              subst (λ y. (bufs y).refcnt ≡ 0) (sym ((==_iff t c).0 same)) free,
            ))
      | inr apart ↦ all c (ground (arith, apart, on)) free
    ],
    old,
  )

  lru-Goes : (l : List ℕ) (best : Option ℕ) → Goes l best (lru bufs l best)
  unfolding lru Goes
  lru-Goes [] none = (refl, λ c h. absurd (h refl))
  lru-Goes [] (some a) = (
    inl refl,
    λ c h. absurd (h refl),
    λ d e.
        subst (λ y. (bufs a).timestamp ≤ (bufs y).timestamp) (some-injective _ _ e) (omega arith),
  )
  lru-Goes (t ∷ ts) best = elim (Bool-cases (is_better bufs t best)) [
    | inl e ↦ rw e (Goes-taken t ts best (lru bufs ts (some t)) e (lru-Goes ts (some t)))
    | inr e ↦ rw e (Goes-left t ts best (lru bufs ts best) e (lru-Goes ts best))
  ]

  choice-Best : (l : List ℕ) (b : ℕ) → lru bufs l none ≡ some b → Best l b
  unfolding Goes
  choice-Best l b e =
      let (from, all, old) = subst (λ r. Goes l none r) e (lru-Goes l none) in
      record {
        on_list = elim from [ inl e ↦ cc | inr (on, free) ↦ on ];
        unused = elim from [ inl e ↦ cc | inr (on, free) ↦ free ];
        oldest = all;
      }

  none_of : (l : List ℕ) → lru bufs l none ≡ none → (c : ℕ) → count c l ≢ 0 → (bufs c).refcnt ≢ 0
  unfolding Goes
  none_of l e c on = (subst (λ r. Goes l none r) e (lru-Goes l none)).1 c on

  -- The loop over the buckets finds the best choice of the first bucket that has an unused buffer.
  pub find_unused-cases :
      (buckets : ℕ → List ℕ) (n i : ℕ)
      → i < nbucket
      → ((find_unused bufs buckets n i ≡ none)
          × ((k c : ℕ) → k < n → count c (buckets ((i + k) % nbucket)) ≢ 0 → (bufs c).refcnt ≢ 0))
        ⊎ ((j b : ℕ) × (find_unused bufs buckets n i ≡ some (j, b))
            × (j < nbucket)
            × Best (buckets j) b)
  unfolding find_unused
  find_unused-cases buckets zero i h = inl (refl, λ k c lt on. absurd (omega arith))
  find_unused-cases buckets (suc n) i h = elim (Option-cases (lru bufs (buckets i) none)) [
    | inr (b, e) ↦ inr (i, b, rw (e, find_unused) refl, h, choice-Best (buckets i) b e)
    | inl e ↦ elim (find_unused-cases buckets n ((i + 1) % nbucket) (omega arith)) [
      | inr (j, b, later, lt, best) ↦ inr (j, b, rw (e, find_unused) later, lt, best)
      | inl (later, used) ↦ inl (
        rw (e, find_unused) later,
        λ k c lt on. elim (ℕ_discrete 0 k) [
          | yes first ↦
              none_of (buckets i) e c (subst (λ m. count c (buckets m) ≢ 0) (start i k h first) on)
          | no others ↦
              used (k - 1) c (omega arith)
                (subst (λ m. count c (buckets m) ≢ 0) (shift i k others) on)
        ],
      )
    ]
  ]
