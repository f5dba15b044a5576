-- ===== src/Strings/Move.antt =====
-- kernel/lib/string.c: `memmove` copies bytes that overlap.
use os2025_yyds.Common.{
  ℕ, zero, suc, ◌+◌, ◌-◌, ◌≤◌, ◌≡◌, ◌≢◌, refl, ◌∙◌, ◌⊎◌, inl, inr, ◌&&◌, true, false, arith, ltb,
  leb, ◌==◌, if◌then◌else◌, update, Bool-cases, ne→==, ==_refl, ℕ_discrete, dec_lt, subst,
}
use os2025_yyds.Strings.{Memory, move_up, move_down, memmove}

-- All bytes are read before one is written.
abbrev pub copied : ℕ → ℕ → ℕ → Memory → ℕ → ℕ
copied dst src n m k = if leb dst k && ltb k (dst + n) then m (src + (k - dst)) else m k

-- One byte is copied, and the others are copied from where it is not.
copied-first :
    (n d s : ℕ) (m : Memory) (k : ℕ)
    → d ≤ s ⊎ (s + suc n ≤ d)
    → copied (d + 1) (s + 1) n (update m d (m s)) k ≡ copied d s (suc n) m k
copied-first n d s m k apart = elim (ℕ_discrete d k) [
  | yes same ↦
      let at : s + (k - d) ≡ s = omega (arith, same) in
      let inside : (leb d k && ltb k (d + suc n)) ≡ true = ground (arith, same) in
      let outside : (leb (d + 1) k && ltb k (d + 1 + n)) ≡ false = ground (arith, same) in
      rw (inside, outside, at, ==_iff_at d k same) refl
  | no other ↦ elim (Bool-cases (leb (d + 1) k && ltb k (d + 1 + n))) [
    | inl within ↦
        let inside : (leb d k && ltb k (d + suc n)) ≡ true = ground (arith, within) in
        let at : s + 1 + (k - (d + 1)) ≡ s + (k - d) = ground (arith, within) in
        let away : d ≢ s + (k - d) = λ e. elim apart [
          | inl le ↦ ground (arith, within, e, le)
          | inr ge ↦ ground (arith, within, e, ge)
        ] in
        rw (within, inside, at, ne→== d (s + (k - d)) away) refl
    | inr without ↦
        let outside : (leb d k && ltb k (d + suc n)) ≡ false = ground (arith, without, other) in
        rw (without, outside, ne→== d k other) refl
  ]
]
  where
    ==_iff_at : (a b : ℕ) → a ≡ b → (a == b) ≡ true
    ==_iff_at a b e = subst (λ c. (a == c) ≡ true) e (==_refl a)

move_up-copied :
    (n d s : ℕ) (m : Memory) (k : ℕ) → d ≤ s ⊎ (s + n ≤ d) → move_up n d s m k ≡ copied d s n m k
unfolding move_up
move_up-copied zero d s m k apart = ground arith
move_up-copied (suc n) d s m k apart =
    move_up-copied n (d + 1) (s + 1) (update m d (m s)) k
      (elim apart [ inl le ↦ inl (omega (arith, le)) | inr ge ↦ inr (omega (arith, ge)) ])
    ∙ copied-first n d s m k apart

-- The last byte is copied, and the others from before it.
copied-last :
    (n d s : ℕ) (m : Memory) (k : ℕ)
    → s ≤ d
    → copied d s n (update m (d + n) (m (s + n))) k ≡ copied d s (suc n) m k
copied-last n d s m k below = elim (ℕ_discrete (d + n) k) [
  | yes same ↦
      let at : s + (k - d) ≡ s + n = omega (arith, same) in
      let inside : (leb d k && ltb k (d + suc n)) ≡ true = ground (arith, same) in
      let outside : (leb d k && ltb k (d + n)) ≡ false = ground (arith, same) in
      let here : (d + n == k) ≡ true = subst (λ c. (d + n == c) ≡ true) same (==_refl (d + n)) in
      rw (inside, outside, at, here) refl
  | no other ↦ elim (Bool-cases (leb d k && ltb k (d + n))) [
    | inl within ↦
        let inside : (leb d k && ltb k (d + suc n)) ≡ true = ground (arith, within) in
        let away : d + n ≢ s + (k - d) = λ e. ground (arith, within, e, below) in
        rw (within, inside, ne→== (d + n) (s + (k - d)) away) refl
    | inr without ↦
        let outside : (leb d k && ltb k (d + suc n)) ≡ false = ground (arith, without, other) in
        rw (without, outside, ne→== (d + n) k other) refl
  ]
]

move_down-copied :
    (n d s : ℕ) (m : Memory) (k : ℕ) → s ≤ d → move_down n (d + n) (s + n) m k ≡ copied d s n m k
unfolding move_down
move_down-copied zero d s m k below = ground arith
move_down-copied (suc n) d s m k below =
    let dd : d + suc n - 1 ≡ d + n = omega arith in
    let ss : s + suc n - 1 ≡ s + n = omega arith in
    rw (dd, ss)
      (move_down-copied n d s (update m (d + n) (m (s + n))) k below ∙ copied-last n d s m k below)

-- `memmove` leaves at each address what a copy leaves that reads all bytes before it writes one,
-- however the two ranges overlap.
pub memmove-copied :
    (dst src n : ℕ) (m : Memory) (k : ℕ) → memmove dst src n m k ≡ copied dst src n m k
unfolding memmove
memmove-copied dst src n m k = elim (Bool-cases (ltb src dst && ltb dst (src + n))) [
  | inl over ↦ rw over (move_down-copied n dst src m k (ground (arith, over)))
  | inr clear ↦ rw clear (
      move_up-copied n dst src m k (elim (dec_lt src dst) [
        | yes lower ↦ inr (ground (arith, clear, lower))
        | no higher ↦ inl (omega (arith, higher))
      ]))
]
