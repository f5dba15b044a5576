-- ===== src/Bio/Invariant.antt =====
-- kernel/filesystem/bio.c: where the buffers are, and which blocks they hold.
use os2025_yyds.Common.{
  ℕ, zero, suc, ◌+◌, ◌≤◌, ◌<◌, ◌≡◌, refl, sym, ap, subst, ◌∙◌, ◌≢◌, ◌⊎◌, inl, inr, Bool, false,
  List, ◌∷◌, arith, ltb, ◌==◌, if◌then◌else◌, update, total, total-update, count, remove_first,
  count-remove_first, Bool-cases, ==_refl, ==_iff, ne→==, ℕ_discrete,
}
use os2025_yyds.Bio.{Buf, Bcache, nbuf, nbucket, hash, holds, set_buf, move_buf, recycle}

-- Each buffer is on one bucket, once, and that is the bucket of its block; two buffers never hold
-- the same block of a device. Device 0 is none: the buffers that were never used have it.
pub record IsBcache {B : Type 0} (s : Bcache B) : Type 0 where
  pub placed : (b : ℕ) → total (count b) nbucket s.buckets ≡ (if ltb b nbuf then 1 else 0)
  pub hashed : (b i : ℕ) → i < nbucket → count b (s.buckets i) ≢ 0 → hash (s.bufs b).blockno ≡ i
  pub unique :
      (a b : ℕ)
      → a < nbuf
      → b < nbuf
      → (s.bufs a).dev ≢ 0
      → (s.bufs a).dev ≡ (s.bufs b).dev
      → (s.bufs a).blockno ≡ (s.bufs b).blockno
      → a ≡ b

total-positive :
    (weight : List ℕ → ℕ) (n : ℕ) (f : ℕ → List ℕ)
    → total weight n f ≢ 0
    → (i : ℕ) × (i < n) × (weight (f i) ≢ 0)
unfolding total
total-positive weight zero f h = absurd (h refl)
total-positive weight (suc n) f h = elim (ℕ_discrete (weight (f n)) 0) [
  | no here ↦ (n, omega arith, here)
  | yes none_here ↦
      let (i, lt, there) = total-positive weight n f (λ e. h (omega arith)) in
      (i, omega arith, there)
]

total-zero :
    (weight : List ℕ → ℕ) (n : ℕ) (f : ℕ → List ℕ) (i : ℕ)
    → total weight n f ≡ 0
    → i < n
    → weight (f i) ≡ 0
unfolding total
total-zero weight zero f i h lt = absurd (omega arith)
total-zero weight (suc n) f i h lt = elim (ℕ_discrete i n) [
  | yes last ↦ rw last (omega arith)
  | no others ↦ total-zero weight n f i (omega arith) (omega arith)
]

total-part :
    (weight : List ℕ → ℕ) (n : ℕ) (f : ℕ → List ℕ) (i : ℕ) → i < n → weight (f i) ≤ total weight n f
unfolding total
total-part weight zero f i lt = absurd (omega arith)
total-part weight (suc n) f i lt = elim (ℕ_discrete i n) [
  | yes last ↦ rw last (omega arith)
  | no others ↦ omega (arith, total-part weight n f i (omega arith))
]

count-put :
    (c b n at : ℕ) (f : ℕ → List ℕ)
    → at < n
    → total (count c) n (update f at (b ∷ f at)) ≡ (if b == c then 1 else 0) + total (count c) n f
count-put c b n at f lt = omega (arith, total-update (count c) n f at (b ∷ f at) lt)

count-taken :
    (c b n at : ℕ) (f : ℕ → List ℕ)
    → at < n
    → count b (f at) ≢ 0
    → (if b == c then 1 else 0) + total (count c) n (update f at (remove_first b (f at)))
      ≡ total (count c) n f
count-taken c b n at f lt on =
    let there : (if b == c then 1 else 0) ≤ count c (f at) = elim (Bool-cases (b == c)) [
      | inl same ↦
          rw same (subst (λ k. 1 ≤ count k (f at)) ((==_iff b c).0 same) (omega (arith, on)))
      | inr apart ↦ rw apart (omega arith)
    ] in
    omega (
      arith,
      total-update (count c) n f at (remove_first b (f at)) lt,
      count-remove_first b c (f at),
      there,
    )

if_false : {A : Type 0} (t : Bool) (x y : A) → t ≡ false → (if t then x else y) ≡ y
if_false t x y e = rw e refl

count-move_buf :
    (i bid b c : ℕ) (buckets : ℕ → List ℕ)
    → i < nbucket
    → bid < nbucket
    → count b (buckets i) ≢ 0
    → total (count c) nbucket (move_buf i bid b buckets) ≡ total (count c) nbucket buckets
unfolding move_buf
count-move_buf i bid b c buckets li lb on = elim (Bool-cases (i == bid)) [
  | inl e ↦ rw e refl
  | inr e ↦
      let without = update buckets i (remove_first b (buckets i)) in
      ap (total (count c) nbucket)
        (if_false (i == bid) buckets (update without bid (b ∷ without bid)) e)
      ∙ count-put c b nbucket bid without lb
      ∙ count-taken c b nbucket i buckets li on
]

-- Where a buffer is after a move, when `b` was in the bucket `i` only, and once.
in_moved :
    (i bid b c j : ℕ) (buckets : ℕ → List ℕ)
    → count b (buckets i) ≤ 1
    → ((k : ℕ) → k < nbucket → count b (buckets k) ≢ 0 → i ≡ k)
    → j < nbucket
    → count c (move_buf i bid b buckets j) ≢ 0
    → ((b ≡ c) × (bid ≡ j)) ⊎ ((b ≢ c) × (count c (buckets j) ≢ 0))
unfolding move_buf
in_moved i bid b c j buckets once only lt on = elim (ℕ_discrete b c) [
  | yes same ↦ inl (
    same,
    elim (ℕ_discrete bid j) [
      | yes there ↦ there
      | no elsewhere ↦
          absurd (
            ground
              (arith, elsewhere, on, same, once, only j lt, count-remove_first b b (buckets i)))
    ],
  )
  | no apart ↦ inr (apart, ground (arith, apart, on, count-remove_first b c (buckets i)))
]

module _ {B : Type 0} where
  -- A buffer is in its own bucket, and what is in a bucket is a buffer.
  pub in_bucket :
      (s : Bcache B) (b : ℕ)
      → IsBcache s
      → b < nbuf
      → count b (s.buckets (hash (s.bufs b).blockno)) ≢ 0
  in_bucket s b v lt =
      let once : total (count b) nbucket s.buckets ≢ 0 = λ e. ground (arith, v.placed b, e) in
      let (i, low, on) = total-positive (count b) nbucket s.buckets once in
      rw (v.hashed b i low on) on

  pub is_buffer :
      (s : Bcache B) (b i : ℕ) → IsBcache s → i < nbucket → count b (s.buckets i) ≢ 0 → b < nbuf
  is_buffer s b i v low on = elim (Bool-cases (ltb b nbuf)) [
    | inl e ↦ ground (arith, e)
    | inr e ↦
        absurd (on (total-zero (count b) nbucket s.buckets i (ground (arith, v.placed b, e)) low))
  ]

  -- The counters and contents of a buffer change, not its block.
  pub set_buf-IsBcache :
      (s : Bcache B) (b : ℕ) (x : Buf B)
      → x.dev ≡ (s.bufs b).dev
      → x.blockno ≡ (s.bufs b).blockno
      → IsBcache s
      → IsBcache (set_buf b x s)
  set_buf-IsBcache s b x same_dev same_block v = record {
    placed = v.placed;
    hashed = λ c i low on. ap hash (blocks c) ∙ v.hashed c i low on;
    unique = λ a c la lc ne dev block.
        v.unique a c la lc (λ e. ne (devs a ∙ e)) (sym (devs a) ∙ dev ∙ devs c)
          (sym (blocks a) ∙ block ∙ blocks c);
  }
    where
      devs : (c : ℕ) → ((set_buf b x s).bufs c).dev ≡ (s.bufs c).dev
      devs c = elim (ℕ_discrete b c) [
        | yes same ↦
            subst (λ k. ((set_buf b x s).bufs k).dev ≡ (s.bufs k).dev) same
              (rw (==_refl b) same_dev)
        | no apart ↦ rw (ne→== b c apart) refl
      ]

      blocks : (c : ℕ) → ((set_buf b x s).bufs c).blockno ≡ (s.bufs c).blockno
      blocks c = elim (ℕ_discrete b c) [
        | yes same ↦
            subst (λ k. ((set_buf b x s).bufs k).blockno ≡ (s.bufs k).blockno) same
              (rw (==_refl b) same_block)
        | no apart ↦ rw (ne→== b c apart) refl
      ]

  pub recycle-IsBcache :
      (now dev blockno i b : ℕ) (s : Bcache B)
      → i < nbucket
      → count b (s.buckets i) ≢ 0
      → ((c : ℕ) → c < nbuf → holds dev blockno (s.bufs c) ≡ false)
      → IsBcache s
      → IsBcache (recycle now dev blockno i b s)
  unfolding recycle
  recycle-IsBcache now dev blockno i b s li on fresh v = record {
    placed = λ c. count-move_buf i (hash blockno) b c s.buckets li (omega arith) on ∙ v.placed c;
    hashed = λ c j low there. elim (in_moved i (hash blockno) b c j s.buckets once only low there) [
      | inl (same, home) ↦
          subst (λ k. hash ((recycle now dev blockno i b s).bufs k).blockno ≡ j) same
            (rw (==_refl b) home)
      | inr (apart, before) ↦ rw (ne→== b c apart) (v.hashed c j low before)
    ];
    unique = λ a c la lc ne same_dev same_block. elim (at a) [
      | inl (ba, dev_a, block_a) ↦ elim (at c) [
        | inl (bc, _, _) ↦ sym ba ∙ bc
        | inr (bc, kept_c) ↦ absurd (
            clash c lc (sym (ap (λ x. x.dev) kept_c) ∙ sym same_dev ∙ dev_a)
              (sym (ap (λ x. x.blockno) kept_c) ∙ sym same_block ∙ block_a))
      ]
      | inr (ba, kept_a) ↦ elim (at c) [
        | inl (bc, dev_c, block_c) ↦ absurd (
            clash a la (sym (ap (λ x. x.dev) kept_a) ∙ same_dev ∙ dev_c)
              (sym (ap (λ x. x.blockno) kept_a) ∙ same_block ∙ block_c))
        | inr (bc, kept_c) ↦
            v.unique a c la lc (λ e. ne (ap (λ x. x.dev) kept_a ∙ e))
              (sym (ap (λ x. x.dev) kept_a) ∙ same_dev ∙ ap (λ x. x.dev) kept_c)
              (sym (ap (λ x. x.blockno) kept_a) ∙ same_block ∙ ap (λ x. x.blockno) kept_c)
      ]
    ];
  }
    where
      once : count b (s.buckets i) ≤ 1
      once = ground (arith, v.placed b, total-part (count b) nbucket s.buckets i li)

      only : (k : ℕ) → k < nbucket → count b (s.buckets k) ≢ 0 → i ≡ k
      only k lt here = sym (v.hashed b i li on) ∙ v.hashed b k lt here

      clash : (c : ℕ) → c < nbuf → (s.bufs c).dev ≡ dev → (s.bufs c).blockno ≡ blockno → ⊥
      clash c lc same_dev same_block = ground (
        arith,
        fresh c lc,
        (==_iff (s.bufs c).dev dev).1 same_dev,
        (==_iff (s.bufs c).blockno blockno).1 same_block,
      )

      after : ℕ → Buf B
      after = (recycle now dev blockno i b s).bufs

      at :
          (c : ℕ)
          → ((b ≡ c) × ((after c).dev ≡ dev) × ((after c).blockno ≡ blockno))
            ⊎ ((b ≢ c) × (after c ≡ s.bufs c))
      at c = elim (ℕ_discrete b c) [
        | yes same ↦ inl (
          same,
          subst (λ k. (after k).dev ≡ dev) same (rw (==_refl b) refl),
          subst (λ k. (after k).blockno ≡ blockno) same (rw (==_refl b) refl),
        )
        | no apart ↦ inr (apart, rw (ne→== b c apart) refl)
      ]
