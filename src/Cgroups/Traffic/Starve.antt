-- ===== src/Cgroups/Traffic/Starve.antt =====
-- kernel/proc/cgroups.c: calls that come closer to each other than the tokens do.
use os2025_yyds.Common.{
  ℕ, ◌+◌, ◌-◌, ◌*◌, ◌^◌, ◌≤◌, ◌<◌, ◌≡◌, refl, sym, ap, subst, ◌∙◌, true, false, List, [], ◌∷◌, some,
  arith, leb, gt→leb,
}
use os2025_yyds.Cgroups.{Bucket, Cgroups, u64, find_proc}
use os2025_yyds.Cgroups.Traffic.{refill, pay, meter}
use os2025_yyds.Cgroups.Traffic.Rate.{
  Direction, bucket, is_limited, check, granted, InOrder, meter-Meters, meter-limit, check-Checked,
}

-- Calls so close to each other that less than one token comes in between, for more than there is.
abbrev pub Frequent : ℕ → ℕ → ℕ → List (ℕ × ℕ) → Type 0
Frequent rate tokens from [] = Unit
Frequent rate tokens from ((now, bytes) ∷ calls) =
    ((now - from) * rate < 100) × (tokens < bytes) × Frequent rate tokens now calls

refill-frequent :
    (now : ℕ) (b : Bucket)
    → b.last_time ≤ now
    → now < 2 ^ 32
    → (now - b.last_time) * b.bps_limit < 100
    → b.tokens ≤ b.bps_limit
    → b.bps_limit < 2 ^ 64
    → (refill now b).tokens ≡ b.tokens
unfolding refill
refill-frequent now b lo hi few fits small =
    let same : u64 (now + 2 ^ 64 - b.last_time) ≡ now - b.last_time = omega arith in
    rw same (ground arith)

meter-frequent :
    (now bytes : ℕ) (b : Bucket)
    → (refill now b).tokens ≡ b.tokens
    → b.tokens < bytes
    → ((meter now bytes b).0 ≡ false) × ((meter now bytes b).1.tokens ≡ b.tokens)
unfolding meter pay
meter-frequent now bytes b same few =
    let not_enough : leb bytes (refill now b).tokens ≡ false = gt→leb _ _ (omega arith) in
    rw not_enough (refl, same)

-- A limited group, by the number of the process that it is the first group of: calls that come so
-- close to each other that the limit for the time between two of them is below 100, for more bytes
-- than there are tokens, never pass, however many they are and however long they go on, and the
-- tokens stay as they are.
close_calls_starve :
    (d : Direction) (pid i : ℕ) (calls : List (ℕ × ℕ)) (s : Cgroups)
    → find_proc pid s ≡ some i
    → is_limited d (s.groups i) ≡ true
    → InOrder (bucket d (s.groups i)).last_time calls
    → (bucket d (s.groups i)).tokens ≤ (bucket d (s.groups i)).bps_limit
    → (bucket d (s.groups i)).bps_limit < 2 ^ 64
    → (let b = bucket d (s.groups i) in Frequent b.bps_limit b.tokens b.last_time calls)
    → let (sum, t) = granted d pid calls s in
      (sum ≡ 0) × ((bucket d (t.groups i)).tokens ≡ (bucket d (s.groups i)).tokens)
unfolding granted
close_calls_starve d pid i [] s found h order fits small f = (refl, refl)
close_calls_starve d pid i ((now, bytes) ∷ calls) s found h (lo, hi, order) fits small
      (few, more, f) =
    let c = check-Checked d now pid bytes i s found h in
    let b = bucket d (s.groups i) in
    let (ok, t) = check d now pid bytes s in
    let b1 = bucket d (t.groups i) in
    let m = meter-frequent now bytes b (refill-frequent now b lo hi few fits small) more in
    let last : b1.last_time ≡ now =
      ap (λ (x : Bucket). x.last_time) c.passes.after ∙ (meter-Meters now bytes b lo hi).1 in
    let rate : b1.bps_limit ≡ b.bps_limit =
      ap (λ (x : Bucket). x.bps_limit) c.passes.after ∙ meter-limit now bytes b in
    let tokens : b1.tokens ≡ b.tokens = ap (λ (x : Bucket). x.tokens) c.passes.after ∙ m.1 in
    let ih =
      close_calls_starve d pid i calls t c.found c.passes.limited
        (subst (λ l. InOrder l calls) (sym last) order) (omega (arith, rate, tokens, fits))
        (omega (arith, rate, small)) (rw (rate, tokens, last) f) in
    let refused : ok ≡ false = c.passes.answer ∙ m.0 in
    (rw refused (omega (arith, ih.0)), ih.1 ∙ tokens)
