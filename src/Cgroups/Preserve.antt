-- ===== src/Cgroups/Preserve.antt =====
-- kernel/proc/cgroups.c: what each operation leaves of well-formed groups.
use os2025_yyds.Common.{
  ℕ, ◌^◌, ◌≤◌, ◌<◌, ◌≡◌, refl, sym, subst, inl, inr, Bool, true, false, not, ◌||◌, List, Option,
  none, some, arith, ltb, ◌==◌, if◌then◌else◌, update, total, total-update, total-bounded, length,
  count, take, first_of-cases, Bool-cases, Option-cases,
}
use mathlib.Core.Option.{some-injective}
use os2025_yyds.Cgroups.{
  Cgroup, Cgroups, max_cgroups, find_group, set_group, inherit, create_in, cgroup_create,
  cgroup_delete, change, has_id, has_proc, name_len, zero_group,
}
use os2025_yyds.Cgroups.Memory.{charge, cgroup_update_memory}
use os2025_yyds.Cgroups.Traffic.{io_read_in, io_write_in, net_tx_in, net_rx_in, check_in}
use os2025_yyds.Cgroups.Members.{IsGroup, change-cases}

-- All groups are well formed, and the number of groups is the number of entries in use.
pub record IsCgroups (s : Cgroups) : Type 0 where
  pub members : (i : ℕ) → IsGroup (s.groups i)
  pub counted : s.group_count ≡ total (λ g. if g.used then 1 else 0) max_cgroups s.groups

put-IsGroup :
    (i j : ℕ) (g : Cgroup) (s : Cgroups)
    → ((k : ℕ) → IsGroup (s.groups k))
    → IsGroup g
    → IsGroup (update s.groups i g j)
put-IsGroup i j g s all h = elim (Bool-cases (i == j)) [ inl e ↦ rw e h | inr e ↦ rw e (all j) ]

-- A group is put in place of one with the same `used`.
set_group-IsCgroups :
    (i : ℕ) (g : Cgroup) (s : Cgroups)
    → i < max_cgroups
    → g.used ≡ (s.groups i).used
    → IsGroup g
    → IsCgroups s
    → IsCgroups (set_group i g s)
set_group-IsCgroups i g s lt same h v = record {
  members = λ j. put-IsGroup i j g s v.members h;
  counted =
      let moved = total-update (λ x. if x.used then 1 else 0) max_cgroups s.groups i g lt in
      ground (arith, v.counted, moved, same);
}

pub change-IsCgroups :
    (id : ℕ) (f : Cgroup → Option Cgroup) (s : Cgroups)
    → ((g g' : Cgroup) → f g ≡ some g' → IsGroup g → (g'.used ≡ g.used) × IsGroup g')
    → IsCgroups s
    → IsCgroups (change id f s).1
change-IsCgroups id f s keeps v = elim (change-cases id f s) [
  | inl e ↦ rw e v
  | inr (i, g, _, first, e, is) ↦
      let k = keeps (s.groups i) g e (v.members i) in
      rw is (set_group-IsCgroups i g s first.below k.0 k.1 v)
]

-- A change that keeps `used` and the members, by the name of the function that makes it.
pub kept :
    (g g' x : Cgroup)
    → some x ≡ some g'
    → x.used ≡ g.used
    → x.procs ≡ g.procs
    → IsGroup g
    → (g'.used ≡ g.used) × IsGroup g'
kept g g' x e used procs h =
    subst (λ y. (y.used ≡ g.used) × IsGroup y) (some-injective _ _ e)
      (used, subst (λ l. (length l ≤ 32) × ((p : ℕ) → count p l ≤ 1)) (sym procs) h)

pub check_in-IsCgroups :
    (pid : ℕ) (f : Cgroup → Bool × Cgroup) (s : Cgroups)
    → ((g : Cgroup) → ((f g).1.used ≡ g.used) × ((f g).1.procs ≡ g.procs))
    → IsCgroups s
    → IsCgroups (check_in pid f s).1
unfolding check_in
check_in-IsCgroups pid f s keeps v =
    elim (first_of-cases max_cgroups (λ i. has_proc pid (s.groups i))) [
      | inl (out, _) ↦ rw (out, check_in) v
      | inr (i, found, first) ↦
          let k = keeps (s.groups i) in
          rw (found, check_in)
            (set_group-IsCgroups i (f (s.groups i)).1 s first.below k.0
              (subst (λ l. (length l ≤ 32) × ((p : ℕ) → count p l ≤ 1)) (sym k.1) (v.members i)) v)
    ]

pub update_memory-IsCgroups :
    (pid delta : ℕ) (s : Cgroups) → IsCgroups s → IsCgroups (cgroup_update_memory pid delta s)
unfolding cgroup_update_memory
update_memory-IsCgroups pid delta s v =
    elim (first_of-cases max_cgroups (λ i. has_proc pid (s.groups i))) [
      | inl (out, _) ↦ rw (out, cgroup_update_memory) v
      | inr (i, found, first) ↦
          rw (found, cgroup_update_memory)
            (set_group-IsCgroups i
              (record (s.groups i) { memory = charge delta (s.groups i).memory }) s first.below refl
              (v.members i) v)
    ]

inherit-used :
    (p : Option Cgroup) (g : Cgroup)
    → ((inherit p g).used ≡ g.used) × ((inherit p g).procs ≡ g.procs)
unfolding inherit
inherit-used none g = (refl, refl)
inherit-used (some p) g = (refl, refl)

some_groups : (f : ℕ → Cgroup) → total (λ x. if x.used then 1 else 0) max_cgroups f ≤ max_cgroups
some_groups f = total-bounded (λ x. if x.used then 1 else 0) max_cgroups f (λ k. ground arith)

create_in-IsCgroups :
    (now : ℕ) (name : List ℕ) (parent_id : ℕ) (parent : Option Cgroup) (s : Cgroups)
    → IsCgroups s
    → IsCgroups (create_in now name parent_id parent s).1
unfolding create_in
create_in-IsCgroups now name parent_id parent s v =
    elim (first_of-cases max_cgroups (λ i. not (s.groups i).used)) [
      | inl (out, _) ↦ rw (out, create_in) v
      | inr (i, found, first) ↦
          let fresh : Cgroup = record zero_group {
            used = true;
            name = take name_len name;
            id = s.next_id;
            parent_id = parent_id;
          } in
          let g : Cgroup = record (inherit parent fresh) { created_time = now } in
          let k = inherit-used parent fresh in
          rw (found, create_in)
            (record {
              members = λ j. put-IsGroup i j g s v.members (rw k.1 (omega arith, λ p. omega arith));
              counted =
                  let moved =
                    total-update (λ x. if x.used then 1 else 0) max_cgroups s.groups i g
                      first.below in
                  let few = some_groups (update s.groups i g) in
                  ground (arith, v.counted, moved, first.hit, k.0, few);
            })
    ]

pub create-IsCgroups :
    (now : ℕ) (name : List ℕ) (parent_id : ℕ) (s : Cgroups)
    → IsCgroups s
    → IsCgroups (cgroup_create now name parent_id s).1
unfolding cgroup_create
create-IsCgroups now name parent_id s v = elim (Bool-cases (ltb parent_id (2 ^ 31))) [
  | inr e ↦ rw e (create_in-IsCgroups now name parent_id none s v)
  | inl e ↦ elim (Option-cases (find_group parent_id s)) [
    | inl out ↦ rw (e, out, cgroup_create) v
    | inr (p, found) ↦
        rw (e, found, cgroup_create)
          (create_in-IsCgroups now name parent_id (some (s.groups p)) s v)
  ]
]

pub delete-IsCgroups : (id : ℕ) (s : Cgroups) → IsCgroups s → IsCgroups (cgroup_delete id s).1
unfolding cgroup_delete
delete-IsCgroups id s v = elim (first_of-cases max_cgroups (λ i. has_id id (s.groups i))) [
  | inl (out, _) ↦ rw (out, cgroup_delete) v
  | inr (i, found, first) ↦ elim (Bool-cases (ltb 0 (length (s.groups i).procs))) [
    | inl e ↦ rw (found, e, cgroup_delete) v
    | inr e ↦
        let g : Cgroup = record (s.groups i) { used = false } in
        rw (found, e, cgroup_delete)
          (record {
            members = λ j. put-IsGroup i j g s v.members (v.members i);
            counted =
                let moved =
                  total-update (λ x. if x.used then 1 else 0) max_cgroups s.groups i g
                    first.below in
                let few = some_groups s.groups in ground (arith, v.counted, moved, few, first.hit);
          })
  ]
]

pub io_read_in-keeps :
    (now bytes : ℕ) (g : Cgroup)
    → ((io_read_in now bytes g).1.used ≡ g.used) × ((io_read_in now bytes g).1.procs ≡ g.procs)
unfolding io_read_in
io_read_in-keeps now bytes g = elim (Bool-cases (not g.io.enabled || g.io.read_io.bps_limit == 0)) [
  | inl e ↦ rw e (refl, refl)
  | inr e ↦ rw e (refl, refl)
]

pub io_write_in-keeps :
    (now bytes : ℕ) (g : Cgroup)
    → ((io_write_in now bytes g).1.used ≡ g.used) × ((io_write_in now bytes g).1.procs ≡ g.procs)
unfolding io_write_in
io_write_in-keeps now bytes g =
    elim (Bool-cases (not g.io.enabled || g.io.write_io.bps_limit == 0)) [
      | inl e ↦ rw e (refl, refl)
      | inr e ↦ rw e (refl, refl)
    ]

pub net_tx_in-keeps :
    (now bytes : ℕ) (g : Cgroup)
    → ((net_tx_in now bytes g).1.used ≡ g.used) × ((net_tx_in now bytes g).1.procs ≡ g.procs)
unfolding net_tx_in
net_tx_in-keeps now bytes g = elim (Bool-cases (not g.net.enabled || g.net.tx.bps_limit == 0)) [
  | inl e ↦ rw e (refl, refl)
  | inr e ↦ rw e (refl, refl)
]

pub net_rx_in-keeps :
    (now bytes : ℕ) (g : Cgroup)
    → ((net_rx_in now bytes g).1.used ≡ g.used) × ((net_rx_in now bytes g).1.procs ≡ g.procs)
unfolding net_rx_in
net_rx_in-keeps now bytes g = elim (Bool-cases (not g.net.enabled || g.net.rx.bps_limit == 0)) [
  | inl e ↦ rw e (refl, refl)
  | inr e ↦ rw e (refl, refl)
]
