-- ===== src/Common/Table.antt =====
-- Tables with a fixed number of entries: the search for the first entry that fits, as the kernel's
-- `for` loops over an array make it.
use Prim.Native.Nat.{ℕ, zero, suc, ◌+◌, ◌≤◌, ◌<◌}
use mathlib.Core.Path.{◌≡◌, refl, subst}
use mathlib.Core.Logic.{◌⊎◌, inl, inr}
use mathlib.Core.Bool.{Bool, true, false}
use mathlib.Core.Option.{Option, none, some}
use native.Mathlib.Decide.{dec_lt, ℕ_discrete}
use native.Mathlib.Omega.{arith}
use os2025_yyds.Common.Tests.{if◌then◌else◌, Bool-cases}

unfoldable pub first_from : (ℕ → Bool) → ℕ → ℕ → Option ℕ
first_from fits zero i = none
first_from fits (suc n) i =
    let later = first_from fits n (i + 1) in if fits i then some i else later

-- The first of the entries `0 .. n` that fits.
abbrev pub first_of : ℕ → (ℕ → Bool) → Option ℕ
first_of n fits = first_from fits n 0

pub record IsFirst (fits : ℕ → Bool) (lo hi k : ℕ) : Type 0 where
  pub least : lo ≤ k
  pub below : k < hi
  pub hit : fits k ≡ true
  pub before : (j : ℕ) → lo ≤ j → j < k → fits j ≡ false

first_from-cases :
    (fits : ℕ → Bool) (n i : ℕ)
    → ((first_from fits n i ≡ none) × ((j : ℕ) → i ≤ j → j < i + n → fits j ≡ false))
      ⊎ ((k : ℕ) × (first_from fits n i ≡ some k) × IsFirst fits i (i + n) k)
unfolding first_from
first_from-cases fits zero i = inl (refl, λ j lo hi. absurd (omega arith))
first_from-cases fits (suc n) i = elim (Bool-cases (fits i)) [
  | inl yes_here ↦ inr (
    i,
    rw yes_here refl,
    record {
      least = omega arith;
      below = omega arith;
      hit = yes_here;
      before = λ j lo hi. absurd (omega arith);
    },
  )
  | inr not_here ↦ elim (first_from-cases fits n (i + 1)) [
    | inl (e, never) ↦ inl (
      rw not_here e,
      λ j lo hi. elim (ℕ_discrete i j) [
        | yes same ↦ subst (λ k. fits k ≡ false) same not_here
        | no apart ↦ never j (omega arith) (omega arith)
      ],
    )
    | inr (k, e, f) ↦ inr (
      k,
      rw not_here e,
      record {
        least = omega (arith, f.least);
        below = omega (arith, f.below);
        hit = f.hit;
        before = λ j lo hi. elim (ℕ_discrete i j) [
          | yes same ↦ subst (λ l. fits l ≡ false) same not_here
          | no apart ↦ f.before j (omega arith) hi
        ];
      },
    )
  ]
]

-- No entry fits, or the search finds the first one that does.
pub first_of-cases :
    (n : ℕ) (fits : ℕ → Bool)
    → ((first_of n fits ≡ none) × ((j : ℕ) → j < n → fits j ≡ false))
      ⊎ ((k : ℕ) × (first_of n fits ≡ some k) × IsFirst fits 0 n k)
first_of-cases n fits = elim (first_from-cases fits n 0) [
  | inl (e, never) ↦ inl (e, λ j lt. never j (omega arith) (omega arith))
  | inr (k, e, f) ↦ inr (
    k,
    e,
    record { least = f.least; below = omega (arith, f.below); hit = f.hit; before = f.before },
  )
]

-- The search ends at an entry that fits while none before it does.
pub first_of-found :
    (n : ℕ) (fits : ℕ → Bool) (k : ℕ)
    → k < n
    → fits k ≡ true
    → ((j : ℕ) → j < k → fits j ≡ false)
    → first_of n fits ≡ some k
first_of-found n fits k lt hit before = elim (first_of-cases n fits) [
  | inl (e, never) ↦ absurd (true_false (never k lt))
  | inr (l, e, f) ↦ elim (ℕ_discrete k l) [
    | yes same ↦ rw same e
    | no apart ↦ elim (dec_lt k l) [
      | yes lower ↦ absurd (true_false (f.before k (omega arith) lower))
      | no higher ↦ absurd (clash l f.hit (before l (omega arith)))
    ]
  ]
]
  where
    true_false : fits k ≡ false → ⊥
    true_false h = cc

    clash : (l : ℕ) → fits l ≡ true → fits l ≡ false → ⊥
    clash l p q = cc
