-- ===== src/Fs/Balloc.antt =====
-- kernel/filesystem/fs.c: which block `balloc` takes.
use os2025_yyds.Common.{
  ℕ, zero, suc, ◌+◌, ◌-◌, ◌*◌, ◌/◌, ◌%◌, ◌≤◌, ◌<◌, ◌≡◌, refl, sym, ◌∙◌, ap, subst, ◌⊎◌, inl, inr,
  Bool, ◌&&◌, not, true, false, none, some, arith, ltb, ◌==◌, if◌then◌else◌, update, first_of,
  first_of-cases, IsFirst, Bool-cases, ==_iff, ne→==, ℕ_discrete, dec_lt, done, panic,
}
use os2025_yyds.Fs.{Block, Disk, bpb, set_block, bblock, bzero, room, balloc_from, balloc}

-- The bit of a block in the bitmap.
abbrev pub used : ℕ → ℕ → Disk → Bool
used dev x s = s.blocks dev (bblock x s) (x % bpb)

-- The lowest free block is taken: its bit is set, its content is zero, and nothing else changes.
pub record Allocated (dev : ℕ) (s : Disk) (x : ℕ) (t : Disk) : Type 0 where
  pub in_range : x < s.sb.size
  pub was_free : used dev x s ≡ false
  pub least : (y : ℕ) → y < x → used dev y s ≡ true
  pub same_sb : t.sb ≡ s.sb
  pub content :
      (d c k : ℕ)
      → t.blocks d c k ≡ (
          if dev == d && x == c
          then false
          else if dev == d && bblock x s == c && x % bpb == k
          then true
          else s.blocks d c k)

-- The bit of the block `b + bi` where the loops read it.
bit_here :
    (dev b bi : ℕ) (s : Disk)
    → b % bpb ≡ 0
    → bi < bpb
    → used dev (b + bi) s ≡ s.blocks dev (bblock b s) bi
bit_here dev b bi s start lt =
    let q : (b + bi) / bpb ≡ b / bpb = omega (arith, start, lt) in
    let r : (b + bi) % bpb ≡ bi = omega (arith, start, lt) in
    ap (λ (m : ℕ). s.blocks dev (m + s.sb.bmapstart) ((b + bi) % bpb)) q
    ∙ ap (s.blocks dev (bblock b s)) r

-- What a block shows after a write.
pub set_block-read :
    (dev c : ℕ) (f : Block) (s : Disk) (d e k : ℕ)
    → (set_block dev c f s).blocks d e k ≡ (if dev == d && c == e then f k else s.blocks d e k)
set_block-read dev c f s d e k = elim (ℕ_discrete dev d) [
  | no apart ↦ rw (ne→== dev d apart) refl
  | yes same ↦
      let there : (dev == d) ≡ true = (==_iff dev d).1 same in
      elim (Bool-cases (c == e)) [
        | inl at ↦ rw (there, at) refl
        | inr away ↦ rw (there, away) (ap (λ (m : ℕ). s.blocks m e k) same)
      ]
]

taken-content :
    (dev c bi x : ℕ) (s : Disk) (d e k : ℕ)
    → (bzero dev x (set_block dev c (update (s.blocks dev c) bi true) s)).blocks d e k ≡ (
        if dev == d && x == e
        then false
        else if dev == d && c == e && bi == k
        then true
        else s.blocks d e k)
unfolding bzero
taken-content dev c bi x s d e k =
    let t = set_block dev c (update (s.blocks dev c) bi true) s in
    set_block-read dev x (λ _. false) t d e k ∙ (elim (Bool-cases (dev == d && x == e)) [
      | inl here ↦ rw here refl
      | inr away ↦ rw away (set_block-read dev c (update (s.blocks dev c) bi true) s d e k ∙ inner)
    ])
  where
    inner :
        (if dev == d && c == e then update (s.blocks dev c) bi true k else s.blocks d e k)
        ≡ (if dev == d && c == e && bi == k then true else s.blocks d e k)
    inner = elim (Bool-cases (dev == d)) [
      | inr away ↦ rw away refl
      | inl dd ↦ elim (Bool-cases (c == e)) [
        | inr away ↦ rw (dd, away) refl
        | inl ee ↦ elim (Bool-cases (bi == k)) [
          | inl kk ↦ rw (dd, ee, kk) refl
          | inr away ↦
              rw (dd, ee, away)
                (ap (λ (m : ℕ). s.blocks m c k) ((==_iff dev d).0 dd)
                  ∙ ap (λ (m : ℕ). s.blocks d m k) ((==_iff c e).0 ee))
        ]
      ]
    ]

room_le : (b bi : ℕ) (s : Disk) → bi < room b s → (bi < bpb) × (b + bi < s.sb.size)
unfolding room
room_le b bi s lt = (ground (arith, lt), ground (arith, lt))

room_ge : (b bi : ℕ) (s : Disk) → bi < bpb → b + bi < s.sb.size → bi < room b s
unfolding room
room_ge b bi s low lt = ground (arith, low, lt)

-- What the blocks before `b` say, and a part of those from `b` on.
extend :
    (dev b m top : ℕ) (s : Disk)
    → b % bpb ≡ 0
    → m ≤ bpb
    → ((y : ℕ) → y < b → y < top → used dev y s ≡ true)
    → ((j : ℕ) → j < m → b + j < top → not (s.blocks dev (bblock b s) j) ≡ false)
    → (y : ℕ) → y < b + m
    → y < top
    → used dev y s ≡ true
extend dev b m top s start le before never y lt below = elim (dec_lt y b) [
  | yes low ↦ before y low below
  | no high ↦
      let j = y - b in
      let split : b + j ≡ y = omega (arith, high) in
      let bit = never j (omega (arith, high, lt)) (omega (arith, below, high)) in
      subst (λ k. used dev k s ≡ true) split
        (bit_here dev b j s start (omega (arith, high, lt, le))
          ∙ flip (s.blocks dev (bblock b s) j) bit)
]
  where
    flip : (v : Bool) → not v ≡ false → v ≡ true
    flip true h = refl
    flip false h = cc

flip_true : (v : Bool) → not v ≡ true → v ≡ false
flip_true true h = cc
flip_true false h = refl

taken-Allocated :
    (dev b bi : ℕ) (s : Disk)
    → b % bpb ≡ 0
    → ((y : ℕ) → y < b → y < s.sb.size → used dev y s ≡ true)
    → IsFirst (λ bi. not (s.blocks dev (bblock b s) bi)) 0 (room b s) bi
    → Allocated dev s (b + bi) (
        bzero dev
          (b + bi)
          (set_block dev (bblock b s) (update (s.blocks dev (bblock b s)) bi true) s))
unfolding bzero
taken-Allocated dev b bi s start before first =
    let (low, lt) = room_le b bi s first.below in
    record {
      in_range = lt;
      was_free = bit_here dev b bi s start low ∙ flip_true (s.blocks dev (bblock b s) bi) first.hit;
      least = λ y ly.
          extend dev b bi s.sb.size s start (omega (arith, low)) before
            (λ j lj _. first.before j (omega arith) lj) y ly (omega (arith, ly, lt));
      same_sb = refl;
      content = λ d c k.
          let q : (b + bi) / bpb + s.sb.bmapstart ≡ bblock b s = omega (arith, start, low) in
          let r : (b + bi) % bpb ≡ bi = omega (arith, start, low) in
          taken-content dev (bblock b s) bi (b + bi) s d c k
          ∙ ap
              (λ (m : ℕ).
                if dev == d && b + bi == c
                then false
                else if dev == d && m == c && bi == k
                then true
                else s.blocks d c k)
              (sym q)
          ∙ ap
              (λ (m : ℕ).
                if dev == d && b + bi == c
                then false
                else if dev == d && bblock (b + bi) s == c && m == k
                then true
                else s.blocks d c k)
              (sym r);
    }

-- One round of the outer loop.
round :
    (dev n b : ℕ) (s : Disk)
    → b % bpb ≡ 0
    → ((y : ℕ) → y < b → y < s.sb.size → used dev y s ≡ true)
    → ((balloc_from dev (suc n) b s ≡ panic) × (s.sb.size ≤ b))
      ⊎ ((x : ℕ) × (t : Disk) × (balloc_from dev (suc n) b s ≡ done (x, t)) × Allocated dev s x t)
      ⊎ ((balloc_from dev (suc n) b s ≡ balloc_from dev n (b + bpb) s)
          × (b < s.sb.size)
          × ((y : ℕ) → y < b + bpb → y < s.sb.size → used dev y s ≡ true))
unfolding balloc_from
round dev n b s start before = elim (Bool-cases (ltb b s.sb.size)) [
  | inr past ↦ inl (rw past refl, ground (arith, past))
  | inl inside ↦ elim (first_of-cases (room b s) (λ bi. not (s.blocks dev (bblock b s) bi))) [
    | inr (bi, e, first) ↦
        inr (inl (b + bi, _, hit bi inside e, taken-Allocated dev b bi s start before first))
    | inl (e, never) ↦ inr (
        inr (
          miss inside e,
          ground (arith, inside),
          λ y lt below.
              extend dev b bpb s.sb.size s start (omega arith) before
                (λ j lj top. never j (room_ge b j s lj top)) y lt below,
        ))
  ]
]
  where
    hit :
        (bi : ℕ)
        → ltb b s.sb.size ≡ true
        → first_of (room b s) (λ bi. not (s.blocks dev (bblock b s) bi)) ≡ some bi
        → balloc_from dev (suc n) b s
          ≡ done (
            b + bi,
            bzero dev
                (b + bi)
                (set_block dev (bblock b s) (update (s.blocks dev (bblock b s)) bi true) s),
          )
    hit bi inside e = rw (inside, e, balloc_from) refl

    miss :
        ltb b s.sb.size ≡ true
        → first_of (room b s) (λ bi. not (s.blocks dev (bblock b s) bi)) ≡ none
        → balloc_from dev (suc n) b s ≡ balloc_from dev n (b + bpb) s
    miss inside e = rw (inside, e, balloc_from) refl

balloc_from-cases :
    (dev n b : ℕ) (s : Disk)
    → b % bpb ≡ 0
    → s.sb.size ≤ b + n * bpb
    → ((y : ℕ) → y < b → y < s.sb.size → used dev y s ≡ true)
    → ((balloc_from dev (suc n) b s ≡ panic) × ((y : ℕ) → y < s.sb.size → used dev y s ≡ true))
      ⊎ ((x : ℕ) × (t : Disk) × (balloc_from dev (suc n) b s ≡ done (x, t)) × Allocated dev s x t)
balloc_from-cases dev zero b s start enough before = elim (round dev zero b s start before) [
  | inl (e, past) ↦ inl (e, λ y lt. before y (omega (arith, past, lt)) lt)
  | inr (inl found) ↦ inr found
  | inr (inr (e, inside, after)) ↦ absurd (omega (arith, inside, enough))
]
balloc_from-cases dev (suc n) b s start enough before = elim (round dev (suc n) b s start before) [
  | inl (e, past) ↦ inl (e, λ y lt. before y (omega (arith, past, lt)) lt)
  | inr (inl found) ↦ inr found
  | inr (inr (e, inside, after)) ↦
      elim (balloc_from-cases dev n (b + bpb) s (omega (arith, start)) (omega (arith, enough))
        after) [ inl (f, full) ↦ inl (e ∙ f, full) | inr (x, t, f, a) ↦ inr (x, t, e ∙ f, a) ]
]

-- `balloc` panics exactly when every block of the disk is in use. Otherwise it takes the lowest free
-- block, sets its bit in the bitmap, makes its content zero, and changes nothing else.
pub balloc-Allocated :
    (dev : ℕ) (s : Disk)
    → ((balloc dev s ≡ panic) × ((y : ℕ) → y < s.sb.size → used dev y s ≡ true))
      ⊎ ((x : ℕ) × (t : Disk) × (balloc dev s ≡ done (x, t)) × Allocated dev s x t)
unfolding balloc
balloc-Allocated dev s =
    let two : s.sb.size / bpb + 2 ≡ suc (s.sb.size / bpb + 1) = omega arith in
    rw two (
      balloc_from-cases dev (s.sb.size / bpb + 1) 0 s refl (omega arith)
        (λ y lt. absurd (omega (arith, lt))))
