-- ===== src/Cgroups/Traffic/Rate.antt =====
-- kernel/proc/cgroups.c: how much traffic the token buckets let pass.
use os2025_yyds.Common.{
  ℕ, ◌+◌, ◌-◌, ◌*◌, ◌^◌, ◌≤◌, ◌<◌, ◌≡◌, refl, sym, ap, subst, ◌∙◌, inl, inr, Bool, true, false, not,
  ◌||◌, List, [], ◌∷◌, some, arith, leb, ◌==◌, if◌then◌else◌, Bool-cases,
}
use native.Mathlib.Nat.{add-mul}
use os2025_yyds.Cgroups.{Bucket, Cgroup, Cgroups, u64, find_proc, set_group}
use os2025_yyds.Cgroups.Traffic.{
  refill, pay, meter, io_read_in, io_write_in, net_tx_in, net_rx_in, check_in, cgroup_check_io_read,
  cgroup_check_io_write, cgroup_check_net_tx, cgroup_check_net_rx,
}
use os2025_yyds.Cgroups.Tables.{find_proc-set_group, set_group-same}

pub data Direction : Type 0 where
  reads writes sends receives : Direction

-- The check of a direction, its bucket, and whether the group limits it.
abbrev pub check : Direction → ℕ → ℕ → ℕ → Cgroups → Bool × Cgroups
check reads = cgroup_check_io_read
check writes = cgroup_check_io_write
check sends = cgroup_check_net_tx
check receives = cgroup_check_net_rx

abbrev pub bucket : Direction → Cgroup → Bucket
bucket reads g = g.io.read_io
bucket writes g = g.io.write_io
bucket sends g = g.net.tx
bucket receives g = g.net.rx

abbrev pub is_limited : Direction → Cgroup → Bool
is_limited reads g = not (not g.io.enabled || g.io.read_io.bps_limit == 0)
is_limited writes g = not (not g.io.enabled || g.io.write_io.bps_limit == 0)
is_limited sends g = not (not g.net.enabled || g.net.tx.bps_limit == 0)
is_limited receives g = not (not g.net.enabled || g.net.rx.bps_limit == 0)

-- The sum of the bytes that pass when calls at the times with the sizes are made, one after the
-- other.
unfoldable pub granted : Direction → ℕ → List (ℕ × ℕ) → Cgroups → ℕ × Cgroups
granted d pid [] s = (0, s)
granted d pid ((now, bytes) ∷ calls) s =
    let (ok, s1) = check d now pid bytes s in
    let (sum, s2) = granted d pid calls s1 in ((if ok then bytes else 0) + sum, s2)

-- The times do not run back, and are `uint`s.
abbrev pub InOrder : ℕ → List (ℕ × ℕ) → Type 0
InOrder from [] = Unit
InOrder from ((now, bytes) ∷ calls) = (from ≤ now) × (now < 2 ^ 32) × InOrder now calls

abbrev pub Meters : ℕ → ℕ → Bucket → Bool × Bucket → Type 0
Meters now bytes b (ok, b') =
    (((if ok then bytes else 0) + b'.tokens) * 100
      ≤ b.tokens * 100 + (now - b.last_time) * b.bps_limit)
    × (b'.last_time ≡ now)
    × (b'.bps_limit ≡ b.bps_limit)

pub refill-kept :
    (now : ℕ) (b : Bucket)
    → ((refill now b).last_time ≡ now) × ((refill now b).bps_limit ≡ b.bps_limit)
unfolding refill
refill-kept now b = (refl, refl)

refill-tokens :
    (now : ℕ) (b : Bucket)
    → b.last_time ≤ now
    → now < 2 ^ 32
    → (refill now b).tokens * 100 ≤ b.tokens * 100 + (now - b.last_time) * b.bps_limit
unfolding refill
refill-tokens now b lo hi =
    let same : u64 (now + 2 ^ 64 - b.last_time) ≡ now - b.last_time = omega arith in
    rw same (ground arith)

pub meter-Meters :
    (now bytes : ℕ) (b : Bucket)
    → b.last_time ≤ now
    → now < 2 ^ 32
    → Meters now bytes b (meter now bytes b)
unfolding meter pay
meter-Meters now bytes b lo hi =
    let kept : ((refill now b).last_time ≡ now) × ((refill now b).bps_limit ≡ b.bps_limit) =
      refill-kept now b in
    elim (Bool-cases (leb bytes (refill now b).tokens)) [
      | inl e ↦ rw e (ground (arith, e, refill-tokens now b lo hi), kept.0, kept.1)
      | inr e ↦ rw e (omega (arith, refill-tokens now b lo hi), kept.0, kept.1)
    ]

abbrev group_check : Direction → ℕ → ℕ → Cgroup → Bool × Cgroup
group_check reads = io_read_in
group_check writes = io_write_in
group_check sends = net_tx_in
group_check receives = net_rx_in

-- A check of a limited group is a step of its bucket, and keeps the members and the limit.
pub record Passes (d : Direction) (now bytes : ℕ) (g : Cgroup) (ok : Bool) (g' : Cgroup)
    : Type 0 where
  pub answer : ok ≡ (meter now bytes (bucket d g)).0
  pub after : bucket d g' ≡ (meter now bytes (bucket d g)).1
  pub limited : is_limited d g' ≡ true
  pub same_used : g'.used ≡ g.used
  pub same_procs : g'.procs ≡ g.procs

pub meter-limit : (now bytes : ℕ) (b : Bucket) → (meter now bytes b).1.bps_limit ≡ b.bps_limit
unfolding meter pay
meter-limit now bytes b = elim (Bool-cases (leb bytes (refill now b).tokens)) [
  | inl e ↦ rw e (refill-kept now b).1
  | inr e ↦ rw e (refill-kept now b).1
]

group_check-Passes :
    (d : Direction) (now bytes : ℕ) (g : Cgroup)
    → is_limited d g ≡ true
    → let (ok, g') = group_check d now bytes g in Passes d now bytes g ok g'
unfolding io_read_in io_write_in net_tx_in net_rx_in
group_check-Passes reads now bytes g h =
    let limit = meter-limit now bytes g.io.read_io in
    let off : (not g.io.enabled || g.io.read_io.bps_limit == 0) ≡ false = ground (arith, h) in
    rw off (record {
      answer = refl;
      after = refl;
      limited = ground (arith, h, limit);
      same_used = refl;
      same_procs = refl;
    })
group_check-Passes writes now bytes g h =
    let limit = meter-limit now bytes g.io.write_io in
    let off : (not g.io.enabled || g.io.write_io.bps_limit == 0) ≡ false = ground (arith, h) in
    rw off (record {
      answer = refl;
      after = refl;
      limited = ground (arith, h, limit);
      same_used = refl;
      same_procs = refl;
    })
group_check-Passes sends now bytes g h =
    let limit = meter-limit now bytes g.net.tx in
    let off : (not g.net.enabled || g.net.tx.bps_limit == 0) ≡ false = ground (arith, h) in
    rw off (record {
      answer = refl;
      after = refl;
      limited = ground (arith, h, limit);
      same_used = refl;
      same_procs = refl;
    })
group_check-Passes receives now bytes g h =
    let limit = meter-limit now bytes g.net.rx in
    let off : (not g.net.enabled || g.net.rx.bps_limit == 0) ≡ false = ground (arith, h) in
    rw off (record {
      answer = refl;
      after = refl;
      limited = ground (arith, h, limit);
      same_used = refl;
      same_procs = refl;
    })

check-check_in :
    (d : Direction) (now pid bytes : ℕ) (s : Cgroups)
    → check d now pid bytes s ≡ check_in pid (group_check d now bytes) s
unfolding cgroup_check_io_read cgroup_check_io_write cgroup_check_net_tx cgroup_check_net_rx
check-check_in reads now pid bytes s = refl
check-check_in writes now pid bytes s = refl
check-check_in sends now pid bytes s = refl
check-check_in receives now pid bytes s = refl

pub record Checked (d : Direction) (now pid bytes i : ℕ) (s : Cgroups) (ok : Bool) (t : Cgroups)
    : Type 0 where
  pub found : find_proc pid t ≡ some i
  pub passes : Passes d now bytes (s.groups i) ok (t.groups i)

pub check-Checked :
    (d : Direction) (now pid bytes i : ℕ) (s : Cgroups)
    → find_proc pid s ≡ some i
    → is_limited d (s.groups i) ≡ true
    → let (ok, t) = check d now pid bytes s in Checked d now pid bytes i s ok t
unfolding check_in
check-Checked d now pid bytes i s found h =
    let p = group_check-Passes d now bytes (s.groups i) h in
    let g = (group_check d now bytes (s.groups i)).1 in
    let is : check d now pid bytes s ≡ ((group_check d now bytes (s.groups i)).0, set_group i g s) =
      check-check_in d now pid bytes s ∙ rw (found, check_in) refl in
    rw is (record {
      found = find_proc-set_group pid i g s (rw (p.same_used, p.same_procs) refl) ∙ found;
      passes =
          subst (λ x. Passes d now bytes (s.groups i) (group_check d now bytes (s.groups i)).0 x)
            (sym (set_group-same i g s)) p;
    })

-- Two stretches of time, one after the other.
add_up :
    (l n e rate g t t1 sum t' : ℕ)
    → l ≤ n
    → n ≤ e
    → (g + t1) * 100 ≤ t * 100 + (n - l) * rate
    → (sum + t') * 100 ≤ t1 * 100 + (e - n) * rate
    → (g + sum + t') * 100 ≤ t * 100 + (e - l) * rate
add_up l n e rate g t t1 sum t' ln ne one two =
    let whole : e - l ≡ (n - l) + (e - n) = omega arith in
    omega (arith, ap (λ (x : ℕ). x * rate) whole, add-mul (n - l) (e - n) rate)

-- A limited group, by the number of a process that it is the first group of, and any calls in any
-- direction whose times do not run back: 100 times the sum of the bytes that pass and the tokens
-- at the end is at most 100 times the tokens at the start and the limit for the time that has
-- passed; the limit stays, and the time of the last refill does not run back.
pub granted_bounded :
    (d : Direction) (pid i : ℕ) (calls : List (ℕ × ℕ)) (s : Cgroups)
    → find_proc pid s ≡ some i
    → is_limited d (s.groups i) ≡ true
    → InOrder (bucket d (s.groups i)).last_time calls
    → let (sum, t) = granted d pid calls s in
      let b = bucket d (s.groups i) in
      let b' = bucket d (t.groups i) in
      (b.last_time ≤ b'.last_time)
      × (b'.bps_limit ≡ b.bps_limit)
      × ((sum + b'.tokens) * 100 ≤ b.tokens * 100 + (b'.last_time - b.last_time) * b.bps_limit)
unfolding granted
granted_bounded d pid i [] s found h order = (omega arith, refl, omega arith)
granted_bounded d pid i ((now, bytes) ∷ calls) s found h (lo, hi, order) =
    let c = check-Checked d now pid bytes i s found h in
    let b = bucket d (s.groups i) in
    let (ok, t) = check d now pid bytes s in
    let b1 = bucket d (t.groups i) in
    let m : Meters now bytes b (ok, b1) =
      rw (c.passes.answer, c.passes.after) (meter-Meters now bytes b lo hi) in
    let (sum, u) = granted d pid calls t in
    let b2 = bucket d (u.groups i) in
    let ih =
      granted_bounded d pid i calls t c.found c.passes.limited
        (subst (λ l. InOrder l calls) (sym m.1) order) in
    let after : now ≤ b2.last_time = subst (λ l. l ≤ b2.last_time) m.1 ih.0 in
    let rest : (sum + b2.tokens) * 100 ≤ b1.tokens * 100 + (b2.last_time - now) * b.bps_limit =
      subst (λ l. (sum + b2.tokens) * 100 ≤ b1.tokens * 100 + (b2.last_time - l) * b.bps_limit) m.1
        (subst (λ r. (sum + b2.tokens) * 100 ≤ b1.tokens * 100 + (b2.last_time - b1.last_time) * r)
          m.2 ih.2) in
    (
      omega arith,
      ih.1 ∙ m.2,
      add_up b.last_time now b2.last_time b.bps_limit (if ok then bytes else 0) b.tokens b1.tokens
          sum b2.tokens lo after m.0 rest,
    )
