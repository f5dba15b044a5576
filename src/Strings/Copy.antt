-- ===== src/Strings/Copy.antt =====
-- kernel/lib/string.c: `safestrcpy` stays in its bound and ends with a NUL.
use os2025_yyds.Common.{
  ℕ, zero, suc, ◌+◌, ◌-◌, ◌≤◌, ◌<◌, ◌≡◌, ◌≢◌, refl, sym, ◌∙◌, ap, ◌⊎◌, inl, inr, true, false, arith,
  ◌==◌, update, ne→==, ==_iff, ℕ_discrete,
}
use os2025_yyds.Strings.{Memory, safe_loop, safestrcpy}

-- A string of `l` bytes that are not NUL stands at `t`.
abbrev pub IsString : Memory → ℕ → ℕ → Type 0
IsString m t l = ((j : ℕ) → j < l → m (t + j) ≢ 0) × (m (t + l) ≡ 0)

-- What the copy leaves in `n + 1` bytes at `s`, and around them.
pub record Copied (s t l n : ℕ) (m m' : Memory) : Type 0 where
  pub outside : (k : ℕ) → k < s ⊎ (s + n < k) → m' k ≡ m k
  pub bytes : (j : ℕ) → j < l → j < n → m' (s + j) ≡ m (t + j)
  pub ends : l ≤ n → m' (s + l) ≡ 0
  pub cut : n ≤ l → m' (s + n) ≡ 0

update_other : (m : Memory) (s x k : ℕ) → s ≢ k → update m s x k ≡ m k
update_other m s x k apart = rw (ne→== s k apart) refl

update_here : (m : Memory) (s x k : ℕ) → s ≡ k → update m s x k ≡ x
update_here m s x k same = let e : (s == k) ≡ true = (==_iff s k).1 same in rw e refl

safe_loop-Copied :
    (n s t l : ℕ) (m : Memory)
    → IsString m t l
    → t + l < s ⊎ (s + n < t)
    → Copied s t l n m (safe_loop n s t m)
unfolding safe_loop
safe_loop-Copied zero s t l m str apart = record {
  outside = λ k far. update_other m s 0 k (λ e. elim far [
    | inl h ↦ absurd (omega (arith, h, e))
    | inr h ↦ absurd (omega (arith, h, e))
  ]);
  bytes = λ j jl jn. absurd (omega (arith, jn));
  ends = λ le. update_here m s 0 (s + l) (omega (arith, le));
  cut = λ le. update_here m s 0 (s + 0) (omega arith);
}
safe_loop-Copied (suc n) s t zero m (some_bytes, nul) apart =
    let e : (m t == 0) ≡ true = (==_iff (m t) 0).1 (ap m (omega arith) ∙ nul) in
    rw e (record {
      outside = λ k far.
          update_other (update m s (m t)) (s + 1) 0 k (λ e. elim far [
            | inl h ↦ absurd (omega (arith, h, e))
            | inr h ↦ absurd (omega (arith, h, e))
          ])
          ∙ update_other m s (m t) k (λ e. elim far [
            | inl h ↦ absurd (omega (arith, h, e))
            | inr h ↦ absurd (omega (arith, h, e))
          ]);
      bytes = λ j jl jn. absurd (omega (arith, jl));
      ends = λ le.
          update_other (update m s (m t)) (s + 1) 0 (s + 0) (λ e. absurd (omega (arith, e)))
          ∙ update_here m s (m t) (s + 0) (omega arith)
          ∙ ap m (omega arith)
          ∙ nul;
      cut = λ le. absurd (omega (arith, le));
    })
safe_loop-Copied (suc n) s t (suc l) m (some_bytes, nul) apart =
    let e : (m t == 0) ≡ false =
      ne→== (m t) 0 (λ z. some_bytes 0 (omega arith) (ap m (omega arith) ∙ z)) in
    let after : Memory = update m s (m t) in
    let same : (j : ℕ) → j ≤ l → after (t + 1 + j) ≡ m (t + suc j) = λ j le.
      update_other m s (m t) (t + 1 + j) (λ x. elim apart [
        | inl h ↦ absurd (omega (arith, h, x, le))
        | inr h ↦ absurd (omega (arith, h, x))
      ])
      ∙ ap m (omega arith) in
    let ih : Copied (s + 1) (t + 1) l n after (safe_loop n (s + 1) (t + 1) after) =
      safe_loop-Copied n (s + 1) (t + 1) l after
        (
          (λ j lt z. some_bytes (suc j) (omega (arith, lt)) (sym (same j (omega (arith, lt))) ∙ z)),
          same l (omega arith) ∙ nul,
        )
        (elim apart [ inl h ↦ inl (omega (arith, h)) | inr h ↦ inr (omega (arith, h)) ]) in
    let r : Memory = safe_loop n (s + 1) (t + 1) after in
    rw e (record {
      outside = λ k far.
          ih.outside k
            (elim far [ inl h ↦ inl (omega (arith, h)) | inr h ↦ inr (omega (arith, h)) ])
          ∙ update_other m s (m t) k (λ e. elim far [
            | inl h ↦ absurd (omega (arith, h, e))
            | inr h ↦ absurd (omega (arith, h, e))
          ]);
      bytes = λ j jl jn. elim (ℕ_discrete j 0) [
        | yes first ↦
            ap r (omega (arith, first))
            ∙ ih.outside s (inl (omega arith))
            ∙ update_here m s (m t) s refl
            ∙ ap m (omega (arith, first))
        | no later ↦
            ap r (omega (arith, later))
            ∙ ih.bytes (j - 1) (omega (arith, later, jl)) (omega (arith, later, jn))
            ∙ same (j - 1) (omega (arith, later, jl))
            ∙ ap m (omega (arith, later))
      ];
      ends = λ le. ap r (omega arith) ∙ ih.ends (omega (arith, le));
      cut = λ le. ap r (omega arith) ∙ ih.cut (omega (arith, le));
    })

-- `safestrcpy` with room for `n + 1` bytes, from a string of `l` bytes that does not overlap the room,
-- copies the bytes that fit, ends them with a NUL, which is in the room also when the string is
-- longer, and writes nowhere else.
pub safestrcpy-Copied :
    (s t l n : ℕ) (m : Memory)
    → IsString m t l
    → t + l < s ⊎ (s + n < t)
    → Copied s t l n m (safestrcpy s t (n + 1) m)
unfolding safestrcpy
safestrcpy-Copied s t l n m str apart =
    let one : n + 1 ≡ suc n = omega arith in rw one (safe_loop-Copied n s t l m str apart)
