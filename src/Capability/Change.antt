-- ===== src/Capability/Change.antt =====
-- kernel/proc/capability.c: how the sets of processes change.
use os2025_yyds.Common.{
  ℕ, zero, suc, ◌≡◌, refl, ap, subst, ◌⊎◌, inl, inr, Bool, true, false, not, ◌&&◌, ◌||◌, some,
  arith, leb, ◌==◌, update, Bool-cases, Option-cases, ℕ_discrete, ==_refl, ne→==,
}
use os2025_yyds.Capability.{
  Word, Proc, Caps, cap_max, bit_or, bit_and, bit_not, one_bit, nproc, find_from, find_proc, assign,
  may_set, cap_check, cap_set, cap_get, cap_raise, cap_drop, cap_fork_init, cap_exec_init,
}
use os2025_yyds.Capability.Check.{
  cap_check-procs, may_set-procs, IsUnprivileged, may_set-IsUnprivileged,
}

-- A call leaves the table as it was and fails, or it assigns one set of one process and succeeds.
abbrev Sets : ℕ → ℕ → Word → Caps → Bool × Caps → Type 0
Sets pid cap_type caps s r =
    ((r.0 ≡ false) × (r.1.procs ≡ s.procs))
    ⊎ ((i : ℕ) × (find_proc pid s ≡ some i)
        × (r.0 ≡ true)
        × (r.1.procs ≡ update s.procs i (assign cap_type caps (s.procs i))))

cap_set-Sets :
    (now cur pid cap_type : ℕ) (caps : Word) (s : Caps)
    → Sets pid cap_type caps s (cap_set now cur pid cap_type caps s)
unfolding cap_set
cap_set-Sets now cur pid cap_type caps s = elim (Bool-cases (leb 4 cap_type)) [
  | inl e ↦ rw e (inl (refl, refl))
  | inr e ↦ elim (Bool-cases (may_set now cur s).0) [
    | inr may_not ↦ rw (e, may_not) (inl (refl, may_set-procs now cur s))
    | inl may ↦ elim (Option-cases (find_proc pid (may_set now cur s).1)) [
      | inl missing ↦ rw (e, may, missing) (inl (refl, may_set-procs now cur s))
      | inr (i, found) ↦
          rw (e, may, found)
            (inr (
              i,
              subst (λ f. find_from nproc 0 pid f ≡ some i) (may_set-procs now cur s) found,
              refl,
              ap (λ f. update f i (assign cap_type caps (f i))) (may_set-procs now cur s),
            ))
    ]
  ]
]

-- No process gains a capability in its effective set that its permitted set lacked, in its
-- permitted set that its bounding set lacked, or in its bounding set at all.
abbrev pub NoGain : ℕ → Proc → Proc → Type 0
NoGain c p q =
    ((q.effective c && (not (p.effective c) && not (p.permitted c))) ≡ false)
    × ((q.permitted c && (not (p.permitted c) && not (p.bounding c))) ≡ false)
    × ((q.bounding c && not (p.bounding c)) ≡ false)

NoGain-refl : (c : ℕ) (p : Proc) → NoGain c p p
NoGain-refl c p = (ground arith, ground arith, ground arith)

assign-NoGain : (c cap_type : ℕ) (caps : Word) (p : Proc) → NoGain c p (assign cap_type caps p)
unfolding assign
assign-NoGain c zero caps p = (ground arith, ground arith, ground arith)
assign-NoGain c (suc zero) caps p = (ground arith, ground arith, ground arith)
assign-NoGain c (suc (suc zero)) caps p = (ground arith, ground arith, ground arith)
assign-NoGain c (suc (suc (suc n))) caps p = (ground arith, ground arith, ground arith)

Sets-NoGain :
    (c j pid cap_type : ℕ) (caps : Word) (s : Caps) (r : Bool × Caps)
    → Sets pid cap_type caps s r
    → NoGain c (s.procs j) (r.1.procs j)
Sets-NoGain c j pid cap_type caps s r (inl (_, e)) = rw e (NoGain-refl c (s.procs j))
Sets-NoGain c j pid cap_type caps s r (inr (i, _, _, e)) = elim (ℕ_discrete i j) [
  | yes same ↦
      rw (e, subst (λ k. (i == k) ≡ true) same (==_refl i))
        (subst (λ k. NoGain c (s.procs k) (assign cap_type caps (s.procs i))) same
          (assign-NoGain c cap_type caps (s.procs i)))
  | no apart ↦ rw (e, ne→== i j apart) (NoGain-refl c (s.procs j))
]

raise-cases :
    (now cur pid cap : ℕ) (s : Caps)
    → (cap_raise now cur pid cap s ≡ (false, s))
      ⊎ ((w : Word) × (cap_raise now cur pid cap s ≡ cap_set now cur pid 0 w s))
unfolding cap_raise
raise-cases now cur pid cap s = elim (Bool-cases (leb cap_max cap)) [
  | inl e ↦ inl (rw e refl)
  | inr e ↦ elim (Option-cases (cap_get pid 0 s)) [
    | inl missing ↦ inl (rw (e, missing) refl)
    | inr (w, got) ↦ inr (bit_or w (one_bit cap), rw (e, got) refl)
  ]
]

drop-cases :
    (now cur pid cap : ℕ) (s : Caps)
    → (cap_drop now cur pid cap s ≡ (false, s))
      ⊎ ((w : Word) × (cap_drop now cur pid cap s ≡ cap_set now cur pid 0 w s))
unfolding cap_drop
drop-cases now cur pid cap s = elim (Bool-cases (leb cap_max cap)) [
  | inl e ↦ inl (rw e refl)
  | inr e ↦ elim (Option-cases (cap_get pid 0 s)) [
    | inl missing ↦ inl (rw (e, missing) refl)
    | inr (w, got) ↦ inr (bit_and w (bit_not (one_bit cap)), rw (e, got) refl)
  ]
]

-- One call of the component, or its part in `exec`.
pub data Step : Caps → Caps → Type 0 where
  checks : {s : Caps} (now pid cap : ℕ) → Step s (cap_check now pid cap s).1
  sets :
      {s : Caps} (now cur pid cap_type : ℕ) (caps : Word)
      → Step s (cap_set now cur pid cap_type caps s).1
  raises : {s : Caps} (now cur pid cap : ℕ) → Step s (cap_raise now cur pid cap s).1
  drops : {s : Caps} (now cur pid cap : ℕ) → Step s (cap_drop now cur pid cap s).1
  execs :
      {s : Caps} (i : ℕ)
      → Step s (record s { procs = update s.procs i (cap_exec_init (s.procs i)) })

pub data Reach (s : Caps) : Caps → Type 0 where
  here : Reach s s
  next : {t u : Caps} → Reach s t → Step t u → Reach s u

exec-NoGain : (c : ℕ) (p : Proc) → NoGain c p (cap_exec_init p)
unfolding cap_exec_init
exec-NoGain c p = (ground arith, ground arith, ground arith)

set-NoGain :
    (c j now cur pid cap_type : ℕ) (caps : Word) (s : Caps)
    → NoGain c (s.procs j) ((cap_set now cur pid cap_type caps s).1.procs j)
set-NoGain c j now cur pid cap_type caps s =
    Sets-NoGain c j pid cap_type caps s (cap_set now cur pid cap_type caps s)
      (cap_set-Sets now cur pid cap_type caps s)

-- Whoever calls it with whatever arguments, no call of `cap_check`, `cap_set`, `cap_raise` and
-- `cap_drop`, and no `cap_exec_init`, lets any process gain a capability in its effective set that
-- its permitted set lacked, in its permitted set that its bounding set lacked, or in its bounding
-- set.
pub Step-NoGain : (c j : ℕ) {s t : Caps} → Step s t → NoGain c (s.procs j) (t.procs j)
Step-NoGain c j {s = s} (checks now pid cap) =
    rw (cap_check-procs now pid cap s) (NoGain-refl c (s.procs j))
Step-NoGain c j {s = s} (sets now cur pid cap_type caps) =
    set-NoGain c j now cur pid cap_type caps s
Step-NoGain c j {s = s} (raises now cur pid cap) = elim (raise-cases now cur pid cap s) [
  | inl e ↦ rw e (NoGain-refl c (s.procs j))
  | inr (w, e) ↦ rw e (set-NoGain c j now cur pid 0 w s)
]
Step-NoGain c j {s = s} (drops now cur pid cap) = elim (drop-cases now cur pid cap s) [
  | inl e ↦ rw e (NoGain-refl c (s.procs j))
  | inr (w, e) ↦ rw e (set-NoGain c j now cur pid 0 w s)
]
Step-NoGain c j {s = s} (execs i) = elim (ℕ_discrete i j) [
  | yes same ↦ rw (subst (λ k. (i == k) ≡ true) same (==_refl i)) (
      subst (λ k. NoGain c (s.procs k) (cap_exec_init (s.procs i))) same
        (exec-NoGain c (s.procs i)))
  | no apart ↦ rw (ne→== i j apart) (NoGain-refl c (s.procs j))
]

-- The process has given the capability up in its effective, permitted and bounding sets.
abbrev pub HasLost : ℕ → Proc → Type 0
HasLost c p = ((p.effective c || (p.permitted c || p.bounding c)) ≡ false)

-- A process that has given a capability up in its effective, permitted and bounding sets never gets
-- it back, whatever calls of the component are made, by root too; and a child that
-- `cap_fork_init`, which no code calls, would derive from it has not got it.
pub HasLost-forever :
    (c j : ℕ) (child : Proc) {s t : Caps}
    → Reach s t
    → HasLost c (s.procs j)
    → HasLost c (t.procs j) × HasLost c (cap_fork_init child (t.procs j))
unfolding cap_fork_init
HasLost-forever c j child here lost = (lost, ground (arith, lost))
HasLost-forever c j child {t = u} (next r st) lost =
    let (before, _) = HasLost-forever c j child r lost in
    let kept = Step-NoGain c j st in
    let after : HasLost c (u.procs j) = ground (arith, before, kept.0, kept.1, kept.2) in
    (after, ground (arith, after))

refused :
    (now cur pid ty : ℕ) (w : Word) (s : Caps)
    → IsUnprivileged cur s
    → let r = cap_set now cur pid ty w s in (r.0 ≡ false) × (r.1.procs ≡ s.procs)
unfolding cap_set
refused now cur pid ty w s no_right = elim (Bool-cases (leb 4 ty)) [
  | inl e ↦ rw e (refl, refl)
  | inr e ↦ rw (e, may_set-IsUnprivileged now cur s no_right) (refl, may_set-procs now cur s)
]

-- A caller that is neither root nor granted CAP_SETFCAP changes no process by `cap_set`,
-- `cap_raise` or `cap_drop`, and each of them fails.
pub unprivileged_changes_nothing :
    (now cur pid cap_type cap : ℕ) (caps : Word) (s : Caps)
    → IsUnprivileged cur s
    → let set = cap_set now cur pid cap_type caps s in
      let raise = cap_raise now cur pid cap s in
      let drop = cap_drop now cur pid cap s in
      ((set.0 ≡ false) × (set.1.procs ≡ s.procs))
      × ((raise.0 ≡ false) × (raise.1.procs ≡ s.procs))
      × ((drop.0 ≡ false) × (drop.1.procs ≡ s.procs))
unprivileged_changes_nothing now cur pid cap_type cap caps s no_right = (
  refused now cur pid cap_type caps s no_right,
  elim (raise-cases now cur pid cap s) [
    | inl e ↦ rw e (refl, refl)
    | inr (w, e) ↦ rw e (refused now cur pid 0 w s no_right)
  ],
  elim (drop-cases now cur pid cap s) [
    | inl e ↦ rw e (refl, refl)
    | inr (w, e) ↦ rw e (refused now cur pid 0 w s no_right)
  ],
)

-- `cap_set` of the permitted set either fails, changing no process, or leaves the process with the
-- pid the
-- new permitted set, within its bounding set, and its effective set as it was, which may then
-- exceed the permitted set.
effective_outlives_permitted :
    (now cur pid : ℕ) (caps : Word) (s : Caps)
    → let r = cap_set now cur pid 1 caps s in
      ((r.0 ≡ false) × (r.1.procs ≡ s.procs))
      ⊎ ((i : ℕ) × (find_proc pid s ≡ some i)
          × (r.0 ≡ true)
          × ((r.1.procs i).permitted ≡ bit_and caps (s.procs i).bounding)
          × ((r.1.procs i).effective ≡ (s.procs i).effective))
unfolding assign
effective_outlives_permitted now cur pid caps s = elim (cap_set-Sets now cur pid 1 caps s) [
  | inl failed ↦ inl failed
  | inr (i, found, done, e) ↦ inr (i, found, done, rw (e, ==_refl i) refl, rw (e, ==_refl i) refl)
]
