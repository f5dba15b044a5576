-- ===== src/Cgroups/Create.antt =====
-- kernel/proc/cgroups.c: what a new group takes over from its parent.
use os2025_yyds.Common.{ℕ, ◌^◌, ◌<◌, ◌≡◌, refl, not, List, [], some, first_of, lt→ltb, ==_refl}
use os2025_yyds.Cgroups.{Cgroups, max_cgroups, find_group, inherit, create_in, cgroup_create}

-- A group that is created below a parent, in a free entry: it gets the next id and no members, but
-- starts with the number of processes and the memory usage of the parent.
create_copies_usage :
    (now : ℕ) (name : List ℕ) (parent_id p slot : ℕ) (s : Cgroups)
    → parent_id < 2 ^ 31
    → find_group parent_id s ≡ some p
    → first_of max_cgroups (λ i. not (s.groups i).used) ≡ some slot
    → let (id, t) = cgroup_create now name parent_id s in
      (id ≡ some (s.next_id))
      × ((t.groups slot).id ≡ s.next_id)
      × ((t.groups slot).procs ≡ [])
      × ((t.groups slot).pids.pids_current ≡ (s.groups p).pids.pids_current)
      × ((t.groups slot).memory.memory_usage ≡ (s.groups p).memory.memory_usage)
unfolding cgroup_create create_in inherit
create_copies_usage now name parent_id p slot s top found free =
    let low = lt→ltb parent_id (2 ^ 31) top in
    let same = ==_refl slot in
    rw (low, found, cgroup_create) (rw (free, create_in) (rw same (refl, refl, refl, refl, refl)))
