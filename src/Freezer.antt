-- ===== src/Freezer.antt =====
-- kernel/proc/freezer.c: the freezing of processes.
--
-- `procs` is the process table as far as the freezer reads it, where `in_use` says that the state is
-- not UNUSED; `now` is `ticks`. A call that returns -1 gives `false`, and one that returns 0 `true`.
-- A call is one step: the locks of the processes and of the freezer leave no trace.
pub mod Thaw
mod Tests
use os2025_yyds.Common.{
  ℕ, zero, suc, ◌+◌, ◌-◌, ◌%◌, ◌^◌, Bool, true, false, not, ◌&&◌, Option, none, some, ltb, leb,
  ◌==◌, if◌then◌else◌, update, first_of,
}

abbrev pub nproc : ℕ
nproc = 64

abbrev pub max_frozen_procs : ℕ
max_frozen_procs = 32

abbrev pub freeze_state_frozen : ℕ
freeze_state_frozen = 2

abbrev pub freeze_reason_lowmem : ℕ
freeze_reason_lowmem = 3

abbrev pub freeze_reason_cgroup : ℕ
freeze_reason_cgroup = 5

pub record Proc : Type 0 where
  pub pid : ℕ
  pub in_use : Bool
  pub cgroup_id : ℕ
  pub frozen : Bool
  pub freeze_reason : ℕ
  pub freeze_prio : ℕ

pub record FrozenProc : Type 0 where
  pub used : Bool
  pub pid : ℕ
  pub freeze_state : ℕ
  pub freeze_reason : ℕ
  pub freeze_time : ℕ
  pub thaw_time : ℕ
  pub frozen_duration : ℕ

pub record Freezer : Type 0 where
  pub procs : ℕ → Proc
  pub records : ℕ → FrozenProc
  pub frozen_count : ℕ
  pub auto_freeze_enabled : Bool
  pub freeze_timeout : ℕ
  pub total_freezes : ℕ
  pub total_thaws : ℕ
  pub total_frozen_time : ℕ
  pub oom_freezes : ℕ

pub freezer_init : (ℕ → Proc) → Freezer
freezer_init procs = record {
  procs = procs;
  records = λ i. record {
    used = false;
    pid = 0;
    freeze_state = 0;
    freeze_reason = 0;
    freeze_time = 0;
    thaw_time = 0;
    frozen_duration = 0;
  };
  frozen_count = 0;
  auto_freeze_enabled = true;
  freeze_timeout = 3000;
  total_freezes = 0;
  total_thaws = 0;
  total_frozen_time = 0;
  oom_freezes = 0;
}

abbrev pub is_proc : ℕ → Proc → Bool
is_proc pid p = p.pid == pid && p.in_use

abbrev pub find_proc : ℕ → Freezer → Option ℕ
find_proc pid s = first_of nproc (λ i. is_proc pid (s.procs i))

abbrev pub is_record : ℕ → FrozenProc → Bool
is_record pid f = f.used && f.pid == pid

pub find_frozen_record : ℕ → Freezer → Option ℕ
find_frozen_record pid s = first_of max_frozen_procs (λ i. is_record pid (s.records i))

pub alloc_frozen_record : Freezer → Option ℕ
alloc_frozen_record s = first_of max_frozen_procs (λ i. not (s.records i).used)

abbrev pub up64 : ℕ → ℕ
up64 n = (n + 1) % 2 ^ 64

abbrev pub set_proc : ℕ → Proc → Freezer → Freezer
set_proc i p s = record s { procs = update s.procs i p }

-- The record of a process that freezes, its old one or a free one.
pub note_freeze : ℕ → ℕ → ℕ → Freezer → Freezer
note_freeze now pid reason s =
    let slot : Option ℕ = elim (find_frozen_record pid s) [
      | some i ↦ some i
      | none ↦ alloc_frozen_record s
    ] in
    elim slot [
      | none ↦ s
      | some i ↦ record s {
        records = update s.records i (record (s.records i) {
          used = true;
          pid = pid;
          freeze_state = freeze_state_frozen;
          freeze_reason = reason;
          freeze_time = now;
        });
        frozen_count = (s.frozen_count + 1) % 2 ^ 32;
      }
    ]

pub count_freeze : ℕ → Freezer → Freezer
count_freeze reason s = record s {
  total_freezes = up64 s.total_freezes;
  oom_freezes = if reason == freeze_reason_lowmem then up64 s.oom_freezes else s.oom_freezes;
}

abbrev pub mark_frozen : ℕ → Proc → Proc
mark_frozen reason p = record p { frozen = true; freeze_reason = reason }

pub freeze_process : ℕ → ℕ → ℕ → Freezer → Bool × Freezer
freeze_process now pid reason s = elim (find_proc pid s) [
  | none ↦ (false, s)
  | some i ↦ if (s.procs i).frozen then (true, s) else if pid == 1 then (false, s) else (
    true,
    count_freeze reason
        (note_freeze now pid reason (set_proc i (mark_frozen reason (s.procs i)) s)),
  )
]

abbrev pub since : ℕ → FrozenProc → ℕ
since now f = (now + 2 ^ 64 - f.freeze_time) % 2 ^ 64

-- The record of a process that thaws, if there is one.
pub note_thaw : ℕ → ℕ → Freezer → Freezer
note_thaw now pid s = elim (find_frozen_record pid s) [
  | none ↦ s
  | some i ↦
      let f = s.records i in
      record s {
        records = update s.records i (record f {
          thaw_time = now;
          frozen_duration = (f.frozen_duration + since now f) % 2 ^ 64;
          freeze_state = 0;
          used = false;
        });
        total_frozen_time = (s.total_frozen_time + since now f) % 2 ^ 64;
        frozen_count = (s.frozen_count + 2 ^ 32 - 1) % 2 ^ 32;
      }
]

abbrev pub mark_thawed : Proc → Proc
mark_thawed p = record p { frozen = false; freeze_reason = 0 }

pub thaw_process : ℕ → ℕ → Freezer → Bool × Freezer
thaw_process now pid s = elim (find_proc pid s) [
  | none ↦ (false, s)
  | some i ↦
      let t = note_thaw now pid (set_proc i (mark_thawed (s.procs i)) s) in
      (true, if (s.procs i).frozen then record t { total_thaws = up64 t.total_thaws } else s)
]

-- The loops over the process table, with `n` entries left from `i` on.
pub freeze_cgroup_from : ℕ → ℕ → ℕ → ℕ → ℕ × Freezer → ℕ × Freezer
freeze_cgroup_from now group zero i r = r
freeze_cgroup_from now group (suc n) i (done_so_far, s) =
    let p = s.procs i in
    let t = freeze_process now p.pid freeze_reason_cgroup s in
    let after = if t.0 then (done_so_far + 1, t.1) else (done_so_far, t.1) in
    freeze_cgroup_from now group n (i + 1)
      (if p.in_use && p.cgroup_id == group then after else (done_so_far, s))

pub freeze_cgroup : ℕ → ℕ → Freezer → ℕ × Freezer
freeze_cgroup now group s = freeze_cgroup_from now group nproc 0 (0, s)

pub thaw_cgroup_from : ℕ → ℕ → ℕ → ℕ → ℕ × Freezer → ℕ × Freezer
thaw_cgroup_from now group zero i r = r
thaw_cgroup_from now group (suc n) i (done_so_far, s) =
    let p = s.procs i in
    let t = thaw_process now p.pid s in
    let after = if t.0 then (done_so_far + 1, t.1) else (done_so_far, t.1) in
    thaw_cgroup_from now group n (i + 1)
      (if p.in_use && p.cgroup_id == group && p.frozen then after else (done_so_far, s))

pub thaw_cgroup : ℕ → ℕ → Freezer → ℕ × Freezer
thaw_cgroup now group s = thaw_cgroup_from now group nproc 0 (0, s)

-- Priorities from 0, critical, to 5, cached.
pub freeze_set_priority : ℕ → ℕ → Freezer → Bool × Freezer
freeze_set_priority pid prio s =
    let found : Bool × Freezer = elim (find_proc pid s) [
      | none ↦ (false, s)
      | some i ↦ (true, set_proc i (record (s.procs i) { freeze_prio = prio }) s)
    ] in
    if ltb 5 prio then (false, s) else found

pub auto_freeze_from : ℕ → ℕ → ℕ → ℕ → ℕ × Freezer → ℕ × Freezer
auto_freeze_from now prio zero i r = r
auto_freeze_from now prio (suc n) i (done_so_far, s) =
    let p = s.procs i in
    let t = freeze_process now p.pid freeze_reason_lowmem s in
    let after = if t.0 then (done_so_far + 1, t.1) else (done_so_far, t.1) in
    auto_freeze_from now prio n (i + 1)
      (if p.in_use && not p.frozen && leb prio p.freeze_prio then after else (done_so_far, s))

pub auto_freeze_background : ℕ → Freezer → ℕ × Freezer
auto_freeze_background now s =
    let frozen = auto_freeze_from now 4 nproc 0 (auto_freeze_from now 5 nproc 0 (0, s)) in
    if s.auto_freeze_enabled then frozen else (0, s)

pub is_frozen : ℕ → Freezer → Bool
is_frozen pid s = elim (find_proc pid s) [ none ↦ false | some i ↦ (s.procs i).frozen ]

pub freezer_set_auto : Bool → Freezer → Freezer
freezer_set_auto enabled s = record s { auto_freeze_enabled = enabled }

-- A timeout of 2 ^ 31 and more is a negative `int`.
pub freezer_set_timeout : ℕ → Freezer → Bool × Freezer
freezer_set_timeout timeout s =
    if ltb timeout (2 ^ 31) then (true, record s { freeze_timeout = timeout }) else (false, s)
