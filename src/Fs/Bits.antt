-- ===== src/Fs/Bits.antt =====
-- kernel/filesystem/fs.c: numbers in the bits of a block.
use os2025_yyds.Common.{
  ℕ, zero, suc, ◌+◌, ◌-◌, ◌/◌, ◌%◌, ◌^◌, ◌≤◌, ◌<◌, ◌≡◌, refl, ◌∙◌, ap, ◌⊎◌, inl, inr, ◌&&◌, true,
  false, arith, ltb, leb, ◌==◌,
}
use os2025_yyds.Fs.{Block, load, store, bit_at}

pub load-agree :
    (n at : ℕ) (f g : Block)
    → ((j : ℕ) → j < n → f (at + j) ≡ g (at + j))
    → load n at f ≡ load n at g
unfolding load
load-agree zero at f g same = refl
load-agree (suc n) at f g same =
    let first : f at ≡ g at = ap f (omega arith) ∙ same 0 (omega arith) ∙ ap g (omega arith) in
    let rest =
      load-agree n (at + 1) f g
        (λ j lt. ap f (omega arith) ∙ same (suc j) (omega (arith, lt)) ∙ ap g (omega arith)) in
    rw (first, rest) refl

load-bits :
    (n at x : ℕ) (f : Block)
    → x < 2 ^ n
    → ((j : ℕ) → j < n → f (at + j) ≡ bit_at j x)
    → load n at f ≡ x
unfolding load bit_at
load-bits zero at x f small same = omega (arith, small)
load-bits (suc n) at x f small same =
    let first : f at ≡ (x % 2 == 1) = ap f (omega arith) ∙ same 0 (omega arith) in
    let rest : load n (at + 1) f ≡ x / 2 =
      load-bits n (at + 1) (x / 2) f (omega (arith, small))
        (λ j lt. ap f (omega arith) ∙ same (suc j) (omega (arith, lt))) in
    ground (arith, first, rest)

pub load-store : (n at x : ℕ) (f : Block) → x < 2 ^ n → load n at (store n at x f) ≡ x
unfolding store
load-store n at x f small = load-bits n at x (store n at x f) small (λ j lt.
    let inside : (leb at (at + j) && ltb (at + j) (at + n)) ≡ true = ground (arith, lt) in
    let off : at + j - at ≡ j = omega arith in rw (inside, off) refl)

pub load-store_other :
    (n at k to x : ℕ) (f : Block)
    → at + n ≤ to ⊎ (to + k ≤ at)
    → load n at (store k to x f) ≡ load n at f
unfolding store
load-store_other n at k to x f apart = load-agree n at (store k to x f) f (λ j lt.
    let outside : (leb to (at + j) && ltb (at + j) (to + k)) ≡ false = elim apart [
      | inl h ↦ ground (arith, h, lt)
      | inr h ↦ ground (arith, h, lt)
    ] in
    rw outside refl)
