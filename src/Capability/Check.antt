-- ===== src/Capability/Check.antt =====
-- kernel/proc/capability.c: what a check answers and records.
use os2025_yyds.Common.{
  ℕ, zero, suc, ◌+◌, ◌%◌, ◌≤◌, ◌<◌, ◌≡◌, refl, sym, ap, subst, inl, inr, true, false, ◌||◌, none,
  some, arith, leb, ◌==◌, Bool-cases, gt→leb, ==_refl, ℕ_discrete,
}
use os2025_yyds.Capability.{
  Proc, Caps, nproc, cap_max, cap_setfcap, max_cap_audit, is_it, find_from, find_proc, has_cap,
  note_check, cap_check, cap_capable, may_set,
}

-- The loop ends at the first entry that matches.
find_from-first :
    (n i j pid : ℕ) (procs : ℕ → Proc)
    → i ≤ j
    → j < i + n
    → is_it pid (procs j) ≡ true
    → ((k : ℕ) → k < j → is_it pid (procs k) ≡ false)
    → find_from n i pid procs ≡ some j
unfolding find_from
find_from-first zero i j pid procs lo hi here before = absurd (omega arith)
find_from-first (suc n) i j pid procs lo hi here before = elim (ℕ_discrete i j) [
  | yes same ↦ rw (subst (λ k. is_it pid (procs k) ≡ true) (sym same) here) (ap some same)
  | no apart ↦
      rw (before i (omega arith))
        (find_from-first n (i + 1) j pid procs (omega arith) (omega arith) here before)
]

find_from-none :
    (n i pid : ℕ) (procs : ℕ → Proc)
    → ((k : ℕ) → is_it pid (procs k) ≡ false)
    → find_from n i pid procs ≡ none
unfolding find_from
find_from-none zero i pid procs h = refl
find_from-none (suc n) i pid procs h = rw (h i) (find_from-none n (i + 1) pid procs h)

pub has_cap-known :
    (i cap : ℕ) (s : Caps)
    → i < nproc
    → (s.procs i).live ≡ true
    → ((k : ℕ) → k < i → is_it (s.procs i).pid (s.procs k) ≡ false)
    → has_cap (s.procs i).pid cap s ≡ ((s.procs i).uid == 0 || (s.procs i).effective cap)
unfolding has_cap
has_cap-known i cap s h live first =
    let is : is_it (s.procs i).pid (s.procs i) ≡ true = rw (live, ==_refl (s.procs i).pid) refl in
    let found : find_proc (s.procs i).pid s ≡ some i =
      find_from-first nproc 0 i (s.procs i).pid s.procs (omega arith) (omega arith) is first in
    rw (found, has_cap) (ground arith)

cap_check_lem :
    (now pid cap : ℕ) (s : Caps)
    → cap < cap_max
    → cap_check now pid cap s ≡ (has_cap pid cap s, note_check now pid cap (has_cap pid cap s) s)
unfolding cap_check
cap_check_lem now pid cap s fits = rw (gt→leb cap_max cap fits) refl

-- A check of a capability in range, on the first process in use with the pid: it is granted to root
-- and to a process with the capability in its effective set; the result is recorded in the oldest
-- place of the audit log, and no process changes.
cap_check-known :
    (now i cap : ℕ) (s : Caps)
    → i < nproc
    → cap < cap_max
    → (s.procs i).live ≡ true
    → ((k : ℕ) → k < i → is_it (s.procs i).pid (s.procs k) ≡ false)
    → let p = s.procs i in
      let (has, t) = cap_check now p.pid cap s in
      (has ≡ (p.uid == 0 || p.effective cap))
      × (t.procs ≡ s.procs)
      × (t.audit_log (s.audit_idx % max_cap_audit)
          ≡ record { pid = p.pid; cap = cap; granted = has; timestamp = now })
unfolding note_check
cap_check-known now i cap s h fits live first =
    rw (cap_check_lem now (s.procs i).pid cap s fits)
      (has_cap-known i cap s h live first, refl, rw (==_refl (s.audit_idx % max_cap_audit)) refl)

pub cap_check-procs : (now pid cap : ℕ) (s : Caps) → (cap_check now pid cap s).1.procs ≡ s.procs
unfolding cap_check note_check
cap_check-procs now pid cap s = elim (Bool-cases (leb cap_max cap)) [
  | inl e ↦ rw e refl
  | inr e ↦ rw e refl
]

pub may_set-procs : (now cur : ℕ) (s : Caps) → (may_set now cur s).1.procs ≡ s.procs
unfolding may_set cap_capable
may_set-procs now cur s = elim (Bool-cases ((s.procs cur).uid == 0)) [
  | inl e ↦ rw e refl
  | inr e ↦ rw e (cap_check-procs now (s.procs cur).pid cap_setfcap s)
]

-- The process that calls `cap_set` has no right to: it is not root, and a check of CAP_SETFCAP fails.
abbrev pub IsUnprivileged : ℕ → Caps → Type 0
IsUnprivileged cur s =
    (((s.procs cur).uid == 0) ≡ false) × (has_cap (s.procs cur).pid cap_setfcap s ≡ false)

pub may_set-IsUnprivileged :
    (now cur : ℕ) (s : Caps) → IsUnprivileged cur s → (may_set now cur s).0 ≡ false
unfolding may_set cap_capable cap_check
may_set-IsUnprivileged now cur s (user, lacks) = rw (user, lacks) refl
