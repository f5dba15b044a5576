-- ===== src/Cgroups.antt =====
-- kernel/proc/cgroups.c: control groups, with their limits on processes, memory, disk and network.
--
-- `procs[0 .. proc_count)` of a group is the list `procs`. Every group function looks a group up by
-- its id, every check by a pid among the members: the first entry of the table that fits. Names are
-- lists of characters. An `int` is its 32-bit pattern, a `uint64` a number below 2 ^ 64; `ticks` is
-- the argument `now`. A result of 1 or 0 is `true` or `false`, a result of -1 is `none`.
pub mod Settings
pub mod Memory
pub mod Traffic
pub mod Tables
pub mod Create
pub mod Members
pub mod Preserve
pub mod System
mod Tests
use os2025_yyds.Common.{
  ℕ, ◌+◌, ◌-◌, ◌*◌, ◌/◌, ◌%◌, ◌^◌, Bool, true, false, not, ◌&&◌, ◌||◌, List, [], ◌∷◌, ◌++◌, Option,
  none, some, ltb, leb, ◌==◌, if◌then◌else◌, update, length, take, member, remove_first, first_of,
}

abbrev pub max_cgroups : ℕ
max_cgroups = 16

abbrev pub max_procs : ℕ
max_procs = 32

abbrev pub name_len : ℕ
name_len = 32

abbrev pub nproc : ℕ
nproc = 64

abbrev pub u64 : ℕ → ℕ
u64 n = n % 2 ^ 64

abbrev pub int_minus_one : ℕ
int_minus_one = 2 ^ 32 - 1

-- `a < b` and `a > 0` on `int`s.
abbrev pub int_lt : ℕ → ℕ → Bool
int_lt a b = ltb ((a + 2 ^ 31) % 2 ^ 32) ((b + 2 ^ 31) % 2 ^ 32)

pub record CpuController : Type 0 where
  pub enabled : Bool
  pub cpu_shares : ℕ
  pub cpu_quota : ℕ
  pub cpu_period : ℕ
  pub cpu_usage : ℕ

pub record MemoryController : Type 0 where
  pub enabled : Bool
  pub memory_limit : ℕ
  pub memory_usage : ℕ
  pub memory_max_usage : ℕ
  pub oom_kill_count : ℕ

-- The fields that a controller has once for each direction.
pub record Bucket : Type 0 where
  pub bps_limit : ℕ
  pub ops_limit : ℕ
  pub bytes : ℕ
  pub ops : ℕ
  pub last_time : ℕ
  pub tokens : ℕ

pub record IoController : Type 0 where
  pub enabled : Bool
  pub read_io : Bucket
  pub write_io : Bucket
  pub io_weight : ℕ
  pub throttled : Bool

pub record NetController : Type 0 where
  pub enabled : Bool
  pub tx : Bucket
  pub rx : Bucket
  pub net_priority : ℕ
  pub throttled : Bool

pub record PidsController : Type 0 where
  pub enabled : Bool
  pub pids_max : ℕ
  pub pids_current : ℕ

pub record Cgroup : Type 0 where
  pub used : Bool
  pub name : List ℕ
  pub id : ℕ
  pub parent_id : ℕ
  pub controllers : ℕ
  pub cpu : CpuController
  pub memory : MemoryController
  pub io : IoController
  pub net : NetController
  pub pids : PidsController
  pub procs : List ℕ
  pub created_time : ℕ
  pub io_throttle_count : ℕ
  pub net_throttle_count : ℕ

pub record Cgroups : Type 0 where
  pub groups : ℕ → Cgroup
  pub group_count : ℕ
  pub next_id : ℕ

abbrev pub zero_bucket : Bucket
zero_bucket = record { bps_limit = 0; ops_limit = 0; bytes = 0; ops = 0; last_time = 0; tokens = 0 }

abbrev pub zero_io : IoController
zero_io = record {
  enabled = false;
  read_io = zero_bucket;
  write_io = zero_bucket;
  io_weight = 0;
  throttled = false;
}

-- `memset` of a group to 0.
abbrev pub zero_group : Cgroup
zero_group = record {
  used = false;
  name = [];
  id = 0;
  parent_id = 0;
  controllers = 0;
  cpu = record { enabled = false; cpu_shares = 0; cpu_quota = 0; cpu_period = 0; cpu_usage = 0 };
  memory = record {
    enabled = false;
    memory_limit = 0;
    memory_usage = 0;
    memory_max_usage = 0;
    oom_kill_count = 0;
  };
  io = zero_io;
  net = record {
    enabled = false;
    tx = zero_bucket;
    rx = zero_bucket;
    net_priority = 0;
    throttled = false;
  };
  pids = record { enabled = false; pids_max = 0; pids_current = 0 };
  procs = [];
  created_time = 0;
  io_throttle_count = 0;
  net_throttle_count = 0;
}

-- CTRL_CPU | CTRL_MEMORY | CTRL_IO | CTRL_PIDS.
abbrev pub all_controllers : ℕ
all_controllers = 15

pub cgroups_init : Cgroups
cgroups_init =
    let root : Cgroup = record zero_group {
      used = true;
      name = b'/' ∷ [];
      id = 0;
      parent_id = int_minus_one;
      controllers = all_controllers;
      cpu = record (zero_group.cpu) {
        enabled = true;
        cpu_shares = 1024;
        cpu_quota = int_minus_one;
        cpu_period = 100000;
      };
      memory = record (zero_group.memory) { enabled = true };
      io = record zero_io { enabled = true };
      pids = record (zero_group.pids) { enabled = true; pids_max = nproc };
    } in
    record { groups = update (λ _. zero_group) 0 root; group_count = 1; next_id = 1 }

abbrev pub has_id : ℕ → Cgroup → Bool
has_id id g = g.used && g.id == id

abbrev pub find_group : ℕ → Cgroups → Option ℕ
find_group id s = first_of max_cgroups (λ i. has_id id (s.groups i))

abbrev pub has_proc : ℕ → Cgroup → Bool
has_proc pid g = g.used && member pid g.procs

abbrev pub find_proc : ℕ → Cgroups → Option ℕ
find_proc pid s = first_of max_cgroups (λ i. has_proc pid (s.groups i))

abbrev pub set_group : ℕ → Cgroup → Cgroups → Cgroups
set_group i g s = record s { groups = update s.groups i g }

-- The settings of a new group: those of its parent, or the defaults.
pub inherit : Option Cgroup → Cgroup → Cgroup
inherit (some parent) g = record g {
  controllers = parent.controllers;
  cpu = parent.cpu;
  memory = parent.memory;
  io = parent.io;
  pids = parent.pids;
}
inherit none g = record g {
  controllers = all_controllers;
  cpu = record (g.cpu) { enabled = true; cpu_shares = 1024 };
  memory = record (g.memory) { enabled = true };
  io = record (g.io) { enabled = true };
  pids = record (g.pids) { enabled = true; pids_max = nproc };
}

-- The new group in a slot, when the parent has been found or is not wanted.
pub create_in : ℕ → List ℕ → ℕ → Option Cgroup → Cgroups → Option ℕ × Cgroups
create_in now name parent_id parent s = elim (first_of max_cgroups (λ i. not (s.groups i).used)) [
  | none ↦ (none, s)
  | some slot ↦
      (let g : Cgroup = record zero_group {
        used = true;
        name = take name_len name;
        id = s.next_id;
        parent_id = parent_id;
      } in
        (
          some (s.next_id),
          record (set_group slot (record (inherit parent g) { created_time = now }) s) {
            next_id = (s.next_id + 1) % 2 ^ 32;
            group_count = (s.group_count + 1) % 2 ^ 32;
          },
        ))
]

pub cgroup_create : ℕ → List ℕ → ℕ → Cgroups → Option ℕ × Cgroups
cgroup_create now name parent_id s =
    let orphan = create_in now name parent_id none s in
    if ltb parent_id (2 ^ 31)
    then elim (find_group parent_id s) [
      | none ↦ (none, s)
      | some p ↦ create_in now name parent_id (some (s.groups p)) s
    ]
    else orphan

pub cgroup_delete : ℕ → Cgroups → Bool × Cgroups
cgroup_delete id s = elim (find_group id s) [
  | none ↦ (false, s)
  | some i ↦
      (let g = s.groups i in
        if ltb 0 (length g.procs) then (false, s) else (
          true,
          record (set_group i (record g { used = false }) s) {
            group_count = (s.group_count + 2 ^ 32 - 1) % 2 ^ 32;
          },
        ))
]

-- A process joins a group: what the code does with the group that it has found.
pub join : ℕ → Cgroup → Option Cgroup
join pid g =
    if g.pids.enabled && not (int_lt g.pids.pids_current g.pids.pids_max)
    then none
    else (if member pid g.procs
        then some g
        else (if leb max_procs (length g.procs)
            then none
            else some (record g {
              procs = g.procs ++ (pid ∷ []);
              pids = record (g.pids) { pids_current = (g.pids.pids_current + 1) % 2 ^ 32 };
            })))

pub leave : ℕ → Cgroup → Option Cgroup
leave pid g =
    if member pid g.procs
    then some (record g {
      procs = remove_first pid g.procs;
      pids = record (g.pids) { pids_current = (g.pids.pids_current + 2 ^ 32 - 1) % 2 ^ 32 };
    })
    else none

-- A change of the group with the id, that can fail.
pub change : ℕ → (Cgroup → Option Cgroup) → Cgroups → Bool × Cgroups
change id f s = elim (find_group id s) [
  | none ↦ (false, s)
  | some i ↦ elim (f (s.groups i)) [ none ↦ (false, s) | some g ↦ (true, set_group i g s) ]
]

pub cgroup_attach : ℕ → ℕ → Cgroups → Bool × Cgroups
cgroup_attach id pid s = change id (join pid) s

pub cgroup_detach : ℕ → ℕ → Cgroups → Bool × Cgroups
cgroup_detach id pid s = change id (leave pid) s
