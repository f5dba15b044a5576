-- ===== src/Cgroups/Memory.antt =====
-- kernel/proc/cgroups.c: `cgroup_check_memory` and `cgroup_update_memory`.
use os2025_yyds.Common.{
  ℕ, ◌+◌, ◌-◌, ◌%◌, ◌^◌, ◌≤◌, ◌<◌, ◌≡◌, Bool, true, ◌&&◌, none, some, arith, ltb, leb,
  if◌then◌else◌, ==_refl,
}
use os2025_yyds.Cgroups.{MemoryController, Cgroups, u64, int_lt, find_proc, set_group}

-- The charge of `size` bytes is within the limit of the group.
unfoldable pub allows : ℕ → MemoryController → Bool
allows size m =
    if m.enabled && ltb 0 m.memory_limit
    then leb (u64 (m.memory_usage + size)) m.memory_limit
    else true

unfoldable pub cgroup_check_memory : ℕ → ℕ → Cgroups → Bool
cgroup_check_memory pid size s = elim (find_proc pid s) [
  | none ↦ true
  | some i ↦ allows size (s.groups i).memory
]

-- An `int` as a `uint64`.
abbrev pub sign_extend : ℕ → ℕ
sign_extend n = if ltb n (2 ^ 31) then n else n + (2 ^ 64 - 2 ^ 32)

pub charge : ℕ → MemoryController → MemoryController
charge delta m =
    let usage = u64 (m.memory_usage + sign_extend delta) in
    if int_lt 0 delta
    then record m {
      memory_usage = usage;
      memory_max_usage = if ltb m.memory_max_usage usage then usage else m.memory_max_usage;
    }
    else (if leb (sign_extend ((2 ^ 32 - delta) % 2 ^ 32)) m.memory_usage
        then record m { memory_usage = usage }
        else record m { memory_usage = 0 })

unfoldable pub cgroup_update_memory : ℕ → ℕ → Cgroups → Cgroups
cgroup_update_memory pid delta s = elim (find_proc pid s) [
  | none ↦ s
  | some i ↦ set_group i (record (s.groups i) { memory = charge delta (s.groups i).memory }) s
]

-- A process whose first group limits memory: when `cgroup_check_memory` allows a charge of a
-- positive `int` number of bytes, which the sum with the usage does not carry past 2 ^ 64, then
-- `cgroup_update_memory` adds it, and the usage is at most the limit and the recorded maximum.
pub charge_within_limit :
    (pid size i : ℕ) (s : Cgroups)
    → find_proc pid s ≡ some i
    → (s.groups i).memory.enabled ≡ true
    → 0 < (s.groups i).memory.memory_limit
    → 0 < size
    → size < 2 ^ 31
    → (s.groups i).memory.memory_usage + size < 2 ^ 64
    → cgroup_check_memory pid size s ≡ true
    → let m = (s.groups i).memory in
      let m' = ((cgroup_update_memory pid size s).groups i).memory in
      (m'.memory_usage ≡ m.memory_usage + size)
      × (m'.memory_usage ≤ m.memory_limit)
      × (m'.memory_usage ≤ m'.memory_max_usage)
unfolding cgroup_check_memory cgroup_update_memory allows charge
charge_within_limit pid size i s found on limited some_size small fits ok =
    let allowed : allows size (s.groups i).memory ≡ true = rw (found, cgroup_check_memory) at ok in
    let same = ==_refl i in
    rw (found, cgroup_update_memory)
      (rw same
        (ground (arith, allowed, on), ground (arith, allowed, on), ground (arith, allowed, on)))
