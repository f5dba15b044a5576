-- ===== src/Cgroups/System.antt =====
-- kernel/proc/cgroups.c: the table of groups, through all operations.
use os2025_yyds.Common.{ℕ, refl, inl, inr, List, arith, ◌==◌, total, Bool-cases}
use os2025_yyds.Cgroups.{
  Cgroups, cgroups_init, cgroup_create, cgroup_delete, join, leave, cgroup_attach, cgroup_detach,
}
use os2025_yyds.Cgroups.Settings.{
  with_cpu, cgroup_set_cpu, with_memory, cgroup_set_memory, with_pids, cgroup_set_pids,
}
use os2025_yyds.Cgroups.Memory.{cgroup_update_memory}
use os2025_yyds.Cgroups.Traffic.{
  io_read_in, io_write_in, net_tx_in, net_rx_in, cgroup_check_io_read, cgroup_check_io_write,
  cgroup_check_net_tx, cgroup_check_net_rx, with_io_limit, cgroup_set_io_limit, with_io_iops,
  cgroup_set_io_iops, with_net_limit, cgroup_set_net_limit, with_net_pps, cgroup_set_net_pps,
}
use os2025_yyds.Cgroups.Members.{join-IsGroup, leave-IsGroup}
use os2025_yyds.Cgroups.Preserve.{
  IsCgroups, change-IsCgroups, kept, check_in-IsCgroups, update_memory-IsCgroups, create-IsCgroups,
  delete-IsCgroups, io_read_in-keeps, io_write_in-keeps, net_tx_in-keeps, net_rx_in-keeps,
}

-- One call of the component, with any arguments.
pub data Step : Cgroups → Cgroups → Type 0 where
  creates :
      {s : Cgroups} (now : ℕ) (name : List ℕ) (parent_id : ℕ)
      → Step s (cgroup_create now name parent_id s).1
  deletes : {s : Cgroups} (id : ℕ) → Step s (cgroup_delete id s).1
  attaches : {s : Cgroups} (id pid : ℕ) → Step s (cgroup_attach id pid s).1
  detaches : {s : Cgroups} (id pid : ℕ) → Step s (cgroup_detach id pid s).1
  sets_cpu :
      {s : Cgroups} (id shares quota period : ℕ)
      → Step s (cgroup_set_cpu id shares quota period s).1
  sets_memory : {s : Cgroups} (id limit : ℕ) → Step s (cgroup_set_memory id limit s).1
  sets_pids : {s : Cgroups} (id max_pids : ℕ) → Step s (cgroup_set_pids id max_pids s).1
  charges : {s : Cgroups} (pid delta : ℕ) → Step s (cgroup_update_memory pid delta s)
  sets_io_limit :
      {s : Cgroups} (id read_bps write_bps weight : ℕ)
      → Step s (cgroup_set_io_limit id read_bps write_bps weight s).1
  sets_io_iops :
      {s : Cgroups} (id read_iops write_iops : ℕ)
      → Step s (cgroup_set_io_iops id read_iops write_iops s).1
  sets_net_limit :
      {s : Cgroups} (id tx_bps rx_bps priority : ℕ)
      → Step s (cgroup_set_net_limit id tx_bps rx_bps priority s).1
  sets_net_pps :
      {s : Cgroups} (id tx_pps rx_pps : ℕ) → Step s (cgroup_set_net_pps id tx_pps rx_pps s).1
  reads_disk : {s : Cgroups} (now pid bytes : ℕ) → Step s (cgroup_check_io_read now pid bytes s).1
  writes_disk : {s : Cgroups} (now pid bytes : ℕ) → Step s (cgroup_check_io_write now pid bytes s).1
  sends : {s : Cgroups} (now pid bytes : ℕ) → Step s (cgroup_check_net_tx now pid bytes s).1
  receives : {s : Cgroups} (now pid bytes : ℕ) → Step s (cgroup_check_net_rx now pid bytes s).1

pub data Reach (s : Cgroups) : Cgroups → Type 0 where
  here : Reach s s
  next : {t u : Cgroups} → Reach s t → Step t u → Reach s u

Step-IsCgroups : {s t : Cgroups} → Step s t → IsCgroups s → IsCgroups t
unfolding cgroup_attach cgroup_detach cgroup_set_cpu cgroup_set_memory cgroup_set_pids
    cgroup_set_io_limit cgroup_set_io_iops cgroup_set_net_limit cgroup_set_net_pps
    cgroup_check_io_read cgroup_check_io_write cgroup_check_net_tx cgroup_check_net_rx with_cpu
    with_memory with_pids with_io_limit with_io_iops with_net_limit with_net_pps
Step-IsCgroups {s} (creates now name parent_id) v = create-IsCgroups now name parent_id s v
Step-IsCgroups {s} (deletes id) v = delete-IsCgroups id s v
Step-IsCgroups {s} (attaches id pid) v = change-IsCgroups id (join pid) s (join-IsGroup pid) v
Step-IsCgroups {s} (detaches id pid) v = change-IsCgroups id (leave pid) s (leave-IsGroup pid) v
Step-IsCgroups {s} (sets_cpu id shares quota period) v =
    change-IsCgroups id (with_cpu shares quota period) s (λ g g' e h. kept g g' _ e refl refl h) v
Step-IsCgroups {s} (sets_memory id limit) v =
    change-IsCgroups id (with_memory limit) s (λ g g' e h. kept g g' _ e refl refl h) v
Step-IsCgroups {s} (sets_pids id max_pids) v =
    change-IsCgroups id (with_pids max_pids) s (λ g g' e h. kept g g' _ e refl refl h) v
Step-IsCgroups {s} (charges pid delta) v = update_memory-IsCgroups pid delta s v
Step-IsCgroups {s} (sets_io_limit id r w weight) v =
    change-IsCgroups id (with_io_limit r w weight) s (λ g g' e h. kept g g' _ e refl refl h) v
Step-IsCgroups {s} (sets_io_iops id r w) v =
    change-IsCgroups id (with_io_iops r w) s (λ g g' e h. kept g g' _ e refl refl h) v
Step-IsCgroups {s} (sets_net_limit id t r priority) v =
    change-IsCgroups id (with_net_limit t r priority) s (λ g g' e h. kept g g' _ e refl refl h) v
Step-IsCgroups {s} (sets_net_pps id t r) v =
    change-IsCgroups id (with_net_pps t r) s (λ g g' e h. kept g g' _ e refl refl h) v
Step-IsCgroups {s} (reads_disk now pid bytes) v =
    check_in-IsCgroups pid (io_read_in now bytes) s (λ g. io_read_in-keeps now bytes g) v
Step-IsCgroups {s} (writes_disk now pid bytes) v =
    check_in-IsCgroups pid (io_write_in now bytes) s (λ g. io_write_in-keeps now bytes g) v
Step-IsCgroups {s} (sends now pid bytes) v =
    check_in-IsCgroups pid (net_tx_in now bytes) s (λ g. net_tx_in-keeps now bytes g) v
Step-IsCgroups {s} (receives now pid bytes) v =
    check_in-IsCgroups pid (net_rx_in now bytes) s (λ g. net_rx_in-keeps now bytes g) v

cgroups_init-IsCgroups : IsCgroups cgroups_init
unfolding cgroups_init total
cgroups_init-IsCgroups = record {
  members = λ i. elim (Bool-cases (0 == i)) [
    | inl e ↦ rw e (omega arith, λ p. omega arith)
    | inr e ↦ rw e (omega arith, λ p. omega arith)
  ];
  counted = refl;
}

-- Whatever calls are made after `cgroups_init`: the members of each group are distinct and at most
-- MAX_PROCS_PER_CGROUP, and `group_count` is the number of entries in use.
pub Reach-IsCgroups : (s : Cgroups) → Reach cgroups_init s → IsCgroups s
Reach-IsCgroups s here = cgroups_init-IsCgroups
Reach-IsCgroups s (next {t = t} r st) = Step-IsCgroups st (Reach-IsCgroups t r)
