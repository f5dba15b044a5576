-- ===== src/Cgroups/Tests.antt =====
-- kernel/proc/cgroups.c: runs of the model, and its theorems at concrete inputs.
use os2025_yyds.Common.{
  ◌+◌, ◌-◌, ◌*◌, ◌≤◌, ◌≡◌, refl, true, [], ◌∷◌, some, arith, update, first_from, member,
}
use os2025_yyds.Cgroups.{
  Cgroup, Cgroups, zero_bucket, zero_group, zero_io, cgroups_init, find_group, find_proc, join,
  change, cgroup_create, cgroup_attach, cgroup_detach,
}
use os2025_yyds.Cgroups.Members.{attach-detach}
use os2025_yyds.Cgroups.Preserve.{IsCgroups}
use os2025_yyds.Cgroups.System.{here, next, creates, attaches, Reach-IsCgroups}
use os2025_yyds.Cgroups.Traffic.Rate.{reads, bucket, granted, granted_bounded}

-- The group 1 with the process 7, which may read 50 bytes in a second.
abbrev slow : Cgroup
slow = record zero_group {
  used = true;
  id = 1;
  procs = 7 ∷ [];
  io = record zero_io {
    enabled = true;
    read_io = record zero_bucket { bps_limit = 50; last_time = 100 };
  };
  memory = record {
    enabled = true;
    memory_limit = 8192;
    memory_usage = 4096;
    memory_max_usage = 4096;
    oom_kill_count = 0;
  };
  pids = record { enabled = true; pids_max = 5; pids_current = 1 };
}

abbrev start : Cgroups
start = record { groups = update (λ _. zero_group) 2 slow; group_count = 1; next_id = 2 }

found : find_proc 7 start ≡ some 2
unfolding first_from member
found = refl

found_id : find_group 1 start ≡ some 2
unfolding first_from
found_id = refl

attach_adds : ((cgroup_attach 1 9 start).1.groups 2).procs ≡ 7 ∷ 9 ∷ []
unfolding first_from cgroup_attach change join member
attach_adds = refl

attached : (cgroup_attach 1 9 start).0 ≡ true
unfolding first_from cgroup_attach change join member
attached = refl

granted_bounded_example :
    let (sum, t) = granted reads 7 ((110, 3) ∷ (200, 40) ∷ []) start in
    let b' = bucket reads (t.groups 2) in
    (100 ≤ b'.last_time)
    × (b'.bps_limit ≡ 50)
    × ((sum + b'.tokens) * 100 ≤ 0 * 100 + (b'.last_time - 100) * 50)
granted_bounded_example =
    granted_bounded reads 7 2 ((110, 3) ∷ (200, 40) ∷ []) start found refl (omega arith)

attach-detach_example : cgroup_detach 1 9 (cgroup_attach 1 9 start).1 ≡ (true, start)
unfolding member
attach-detach_example = attach-detach 1 9 2 start found_id refl (omega arith) attached

-- A group is made below the root, and a process joins it.
abbrev grown : Cgroups
grown = (cgroup_attach 1 9 (cgroup_create 5 (b'a' ∷ []) 0 cgroups_init).1).1

Reach-IsCgroups_example : IsCgroups grown
Reach-IsCgroups_example =
    Reach-IsCgroups grown (next (next here (creates 5 (b'a' ∷ []) 0)) (attaches 1 9))
