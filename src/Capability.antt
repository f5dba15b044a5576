-- ===== src/Capability.antt =====
-- kernel/proc/capability.c: the capability sets of processes, checks, audit and inheritance.
--
-- A `uint32` set is the family of its bits, so that `&`, `|`, `~` and `1 << cap` are the operations
-- on each bit. The process table is a family with NPROC entries, a process its `pid`, `uid`, four
-- sets, and whether its state is not UNUSED. An `int` argument is its 32-bit pattern, so that the
-- one test `>= CAP_MAX` also catches the negative ones. `myproc()` is the argument `cur`, an index of
-- the table, and `ticks` the argument `now`. A result of 0 or -1 is `true` or `false`; the pointer
-- that `cap_get` fills is its result. `default_caps` and `root_caps`, which no code reads, are left
-- out. `cap_audit_idx` is a count of fewer than 2^31 checks.
pub mod Check
pub mod Change
mod Tests
use os2025_yyds.Common.{
  ℕ, zero, suc, ◌+◌, ◌%◌, ◌^◌, Bool, true, false, not, ◌&&◌, ◌||◌, Option, none, some, leb, ◌==◌,
  if◌then◌else◌, update,
}

abbrev pub nproc : ℕ
nproc = 64

abbrev pub cap_max : ℕ
cap_max = 32

abbrev pub cap_setfcap : ℕ
cap_setfcap = 17

abbrev pub max_cap_audit : ℕ
max_cap_audit = 64

abbrev pub Word : Type 0
Word = ℕ → Bool

abbrev pub bit_and : Word → Word → Word
bit_and a b i = a i && b i

abbrev pub bit_or : Word → Word → Word
bit_or a b i = a i || b i

abbrev pub bit_not : Word → Word
bit_not a i = not (a i)

abbrev pub one_bit : ℕ → Word
one_bit cap i = i == cap

pub record Proc : Type 0 where
  pub pid : ℕ
  pub uid : ℕ
  pub live : Bool
  pub effective : Word
  pub permitted : Word
  pub inheritable : Word
  pub bounding : Word

pub record Audit : Type 0 where
  pub pid : ℕ
  pub cap : ℕ
  pub granted : Bool
  pub timestamp : ℕ

pub record Caps : Type 0 where
  pub procs : ℕ → Proc
  pub total_checks : ℕ
  pub total_granted : ℕ
  pub total_denied : ℕ
  pub audit_log : ℕ → Audit
  pub audit_idx : ℕ

-- `capability_init`, over a process table.
pub capability_init : (ℕ → Proc) → Caps
capability_init procs = record {
  procs = procs;
  total_checks = 0;
  total_granted = 0;
  total_denied = 0;
  audit_log = λ _. record { pid = 0; cap = 0; granted = false; timestamp = 0 };
  audit_idx = 0;
}

abbrev pub is_it : ℕ → Proc → Bool
is_it pid p = p.pid == pid && p.live

-- The loop over the process table, from the entry `i` on, with `n` entries left.
pub find_from : ℕ → ℕ → ℕ → (ℕ → Proc) → Option ℕ
find_from zero i pid procs = none
find_from (suc n) i pid procs =
    let rest = find_from n (i + 1) pid procs in if is_it pid (procs i) then some i else rest

abbrev pub find_proc : ℕ → Caps → Option ℕ
find_proc pid s = find_from nproc 0 pid s.procs

-- What a process that was found has, or none at all.
pub has_cap : ℕ → ℕ → Caps → Bool
has_cap pid cap s = elim (find_proc pid s) [
  | none ↦ false
  | some i ↦
      (let p = s.procs i in if p.uid == 0 then true else bit_and p.effective (one_bit cap) cap)
]

-- The statistics and the audit record of one check.
pub note_check : ℕ → ℕ → ℕ → Bool → Caps → Caps
note_check now pid cap has s = record s {
  total_checks = (s.total_checks + 1) % 2 ^ 64;
  total_granted = if has then (s.total_granted + 1) % 2 ^ 64 else s.total_granted;
  total_denied = if has then s.total_denied else (s.total_denied + 1) % 2 ^ 64;
  audit_log =
      update s.audit_log (s.audit_idx % max_cap_audit)
        (record { pid = pid; cap = cap; granted = has; timestamp = now });
  audit_idx = s.audit_idx + 1;
}

pub cap_check : ℕ → ℕ → ℕ → Caps → Bool × Caps
cap_check now pid cap s =
    let has = has_cap pid cap s in
    if leb cap_max cap then (false, s) else (has, note_check now pid cap has s)

pub cap_capable : ℕ → ℕ → ℕ → Caps → Bool × Caps
cap_capable now cur cap s = cap_check now (s.procs cur).pid cap s

-- The right to call `cap_set`: `cur->uid != 0 && !cap_capable(CAP_SETFCAP)` fails it.
pub may_set : ℕ → ℕ → Caps → Bool × Caps
may_set now cur s = if (s.procs cur).uid == 0 then (true, s) else cap_capable now cur cap_setfcap s

-- The `switch` of `cap_set`, on a type that has been tested, and that of `cap_get`.
pub assign : ℕ → Word → Proc → Proc
assign zero caps p = record p { effective = bit_and caps p.permitted }
assign (suc zero) caps p = record p { permitted = bit_and caps p.bounding }
assign (suc (suc zero)) caps p = record p { inheritable = caps }
assign (suc (suc (suc _))) caps p = record p { bounding = bit_and p.bounding caps }

pub field : ℕ → Proc → Word
field zero p = p.effective
field (suc zero) p = p.permitted
field (suc (suc zero)) p = p.inheritable
field (suc (suc (suc _))) p = p.bounding

pub cap_set : ℕ → ℕ → ℕ → ℕ → Word → Caps → Bool × Caps
cap_set now cur pid cap_type caps s =
    let (may, s1) = may_set now cur s in
    if leb 4 cap_type
    then (false, s)
    else (if not may then (false, s1) else elim (find_proc pid s1) [
      | none ↦ (false, s1)
      | some i ↦ (true, record s1 { procs = update s1.procs i (assign cap_type caps (s1.procs i)) })
    ])

pub cap_get : ℕ → ℕ → Caps → Option Word
cap_get pid cap_type s =
    if leb 4 cap_type
    then none
    else elim (find_proc pid s) [ none ↦ none | some i ↦ some (field cap_type (s.procs i)) ]

pub cap_raise : ℕ → ℕ → ℕ → ℕ → Caps → Bool × Caps
cap_raise now cur pid cap s = if leb cap_max cap then (false, s) else elim (cap_get pid 0 s) [
  | none ↦ (false, s)
  | some current ↦ cap_set now cur pid 0 (bit_or current (one_bit cap)) s
]

pub cap_drop : ℕ → ℕ → ℕ → ℕ → Caps → Bool × Caps
cap_drop now cur pid cap s = if leb cap_max cap then (false, s) else elim (cap_get pid 0 s) [
  | none ↦ (false, s)
  | some current ↦ cap_set now cur pid 0 (bit_and current (bit_not (one_bit cap))) s
]

pub cap_fork_init : Proc → Proc → Proc
cap_fork_init child parent = record child {
  effective = bit_and parent.inheritable parent.permitted;
  permitted = bit_and parent.inheritable parent.bounding;
  inheritable = parent.inheritable;
  bounding = parent.bounding;
}

pub cap_exec_init : Proc → Proc
cap_exec_init p = record p { effective = bit_and p.permitted p.inheritable }
