-- ===== src/Log/Absorb.antt =====
-- kernel/filesystem/log.c: how `log_write` enters a block into the header.
use os2025_yyds.Common.{
  ℕ, ◌+◌, ◌^◌, ◌<◌, ◌≡◌, refl, ap, ◌≢◌, ◌⊎◌, inl, inr, true, List, [], ◌∷◌, ◌++◌, arith, ◌==◌,
  if◌then◌else◌, length, count, count-append, set, done, Bool-cases,
}
use os2025_yyds.Log.{Log, logsize, pin, slot_of, log_write}
use os2025_yyds.Log.Region.{is_home, AllHome, Distinct}

slot_of-cases :
    (b : ℕ) (xs : List ℕ)
    → ((count b xs ≡ 0) × (slot_of b xs ≡ length xs))
      ⊎ ((count b xs ≢ 0) × (slot_of b xs < length xs) × (set xs (slot_of b xs) b ≡ xs))
unfolding slot_of
slot_of-cases b [] = inl (refl, refl)
slot_of-cases b (x ∷ xs) = elim (Bool-cases (x == b)) [
  | inl e ↦ inr (ground arith, rw e (omega arith), rw e (ap (λ q. q ∷ xs) (ground arith)))
  | inr e ↦ elim (slot_of-cases b xs) [
    | inl (none_in, at) ↦ inl (ground arith, rw e (omega arith))
    | inr (some_in, at, same) ↦ inr (ground arith, rw e (omega arith), rw e (ap (◌∷◌ x) same))
  ]
]

pub Distinct-snoc : (xs : List ℕ) (b : ℕ) → count b xs ≡ 0 → Distinct xs → Distinct (xs ++ b ∷ [])
Distinct-snoc [] b out d = (refl, tt)
Distinct-snoc (x ∷ xs) b out d =
    (ground (arith, count-append x xs (b ∷ [])), Distinct-snoc xs b (omega arith) d.1)

pub AllHome-snoc :
    (start size : ℕ) (xs : List ℕ) (b : ℕ)
    → is_home start size b ≡ true
    → AllHome start size xs
    → AllHome start size (xs ++ b ∷ [])
AllHome-snoc start size [] b hb h = (hb, tt)
AllHome-snoc start size (x ∷ xs) b hb h = (h.0, AllHome-snoc start size xs b hb h.1)

module _ {B : Type 0} where
  -- Where there is room and a call is running, `log_write` pins a new block and enters it at the end
  -- of the header, and leaves a header that has the block as it is.
  pub log_write_lem :
      (b : ℕ) (s : Log B)
      → length s.lh < logsize
      → length s.lh + 1 < s.size
      → 0 < s.outstanding
      → s.outstanding < 2 ^ 31
      → log_write b s
        ≡ done (if count b s.lh == 0 then pin b (record s { lh = s.lh ++ b ∷ [] }) else s)
  unfolding log_write
  log_write_lem b s room fits running small = elim (slot_of-cases b s.lh) [
    | inl (out, at) ↦ ground arith
    | inr (member, at, same) ↦ ground arith
  ]
