-- ===== src/Cgroups/Settings.antt =====
-- kernel/proc/cgroups.c: the settings of a group.
use os2025_yyds.Common.{ℕ, Bool, Option, some, ◌==◌, if◌then◌else◌}
use os2025_yyds.Cgroups.{Cgroup, Cgroups, int_lt, change}

unfoldable pub with_cpu : ℕ → ℕ → ℕ → Cgroup → Option Cgroup
with_cpu shares quota period g = some (record g {
  cpu = record (g.cpu) {
    cpu_shares = if int_lt 0 shares then shares else g.cpu.cpu_shares;
    cpu_quota = if quota == 0 then g.cpu.cpu_quota else quota;
    cpu_period = if int_lt 0 period then period else g.cpu.cpu_period;
  };
})

unfoldable pub cgroup_set_cpu : ℕ → ℕ → ℕ → ℕ → Cgroups → Bool × Cgroups
cgroup_set_cpu id shares quota period s = change id (with_cpu shares quota period) s

unfoldable pub with_memory : ℕ → Cgroup → Option Cgroup
with_memory limit g = some (record g { memory = record (g.memory) { memory_limit = limit } })

unfoldable pub cgroup_set_memory : ℕ → ℕ → Cgroups → Bool × Cgroups
cgroup_set_memory id limit s = change id (with_memory limit) s

unfoldable pub with_pids : ℕ → Cgroup → Option Cgroup
with_pids max_pids g = some (record g { pids = record (g.pids) { pids_max = max_pids } })

unfoldable pub cgroup_set_pids : ℕ → ℕ → Cgroups → Bool × Cgroups
cgroup_set_pids id max_pids s = change id (with_pids max_pids) s
