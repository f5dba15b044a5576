-- ===== src/Cgroups/Members.antt =====
-- kernel/proc/cgroups.c: the members of groups and the number of groups, through all operations.
use os2025_yyds.Common.{
  ℕ, ◌+◌, ◌-◌, ◌%◌, ◌^◌, ◌≤◌, ◌<◌, ◌≡◌, refl, sym, ap, subst, ◌∙◌, ◌⊎◌, inl, inr, Bool, true, false,
  not, ◌&&◌, [], ◌∷◌, ◌++◌, Option, none, some, arith, leb, update, length, length-append, count,
  count-append, member, member-count, remove_first-append, member-append, count-remove_first,
  length-remove_first, first_of-cases, IsFirst, fun_ext, Bool-cases, Option-cases, ℕ_discrete,
  ==_refl, ne→==,
}
use mathlib.Core.Option.{some-injective}
use os2025_yyds.Cgroups.{
  Cgroup, Cgroups, max_cgroups, max_procs, int_lt, find_group, set_group, join, leave, change,
  cgroup_attach, cgroup_detach, has_id,
}
use os2025_yyds.Cgroups.Tables.{find_group-set_group}

-- The members of a group are distinct and fit its array.
abbrev pub IsGroup : Cgroup → Type 0
IsGroup g = (length g.procs ≤ max_procs) × ((p : ℕ) → count p g.procs ≤ 1)

pub join-IsGroup :
    (pid : ℕ) (g g' : Cgroup) → join pid g ≡ some g' → IsGroup g → (g'.used ≡ g.used) × IsGroup g'
unfolding join
join-IsGroup pid g g' e (fits, apart) =
    elim (Bool-cases (g.pids.enabled && not (int_lt g.pids.pids_current g.pids.pids_max))) [
      | inl full ↦ absurd (not_some (rw full at e))
      | inr room ↦ elim (Bool-cases (member pid g.procs)) [
        | inl is ↦
            subst (λ x. (x.used ≡ g.used) × IsGroup x) (some-injective _ _ (rw (room, is) at e))
              (refl, (fits, apart))
        | inr new ↦ elim (Bool-cases (leb max_procs (length g.procs))) [
          | inl many ↦ absurd (not_some (rw (room, new, many) at e))
          | inr few ↦
              subst (λ x. (x.used ≡ g.used) × IsGroup x)
                (some-injective _ _ (rw (room, new, few) at e))
                (
                  refl,
                  (
                    ground (arith, few, length-append g.procs (pid ∷ [])),
                    λ p. ground (
                      arith,
                      apart p,
                      count-append p g.procs (pid ∷ []),
                      member-count pid g.procs,
                      new,
                    ),
                  ),
                )
        ]
      ]
    ]
  where
    not_some : none ≡ some g' → ⊥
    not_some h = cc

pub leave-IsGroup :
    (pid : ℕ) (g g' : Cgroup) → leave pid g ≡ some g' → IsGroup g → (g'.used ≡ g.used) × IsGroup g'
unfolding leave
leave-IsGroup pid g g' e (fits, apart) = elim (Bool-cases (member pid g.procs)) [
  | inl is ↦
      subst (λ x. (x.used ≡ g.used) × IsGroup x) (some-injective _ _ (rw is at e))
        (
          refl,
          (
            omega (arith, length-remove_first pid g.procs),
            λ p. omega (arith, apart p, count-remove_first pid p g.procs),
          ),
        )
  | inr out ↦ absurd (not_some (rw out at e))
]
  where
    not_some : none ≡ some g' → ⊥
    not_some h = cc

-- A process that joins a group and leaves it again.
join-leave :
    (pid : ℕ) (g g' : Cgroup)
    → join pid g ≡ some g'
    → member pid g.procs ≡ false
    → g.pids.pids_current < 2 ^ 32
    → leave pid g' ≡ some g
unfolding join leave
join-leave pid g g' e new small =
    elim (Bool-cases (g.pids.enabled && not (int_lt g.pids.pids_current g.pids.pids_max))) [
      | inl full ↦ absurd (not_some (rw full at e))
      | inr room ↦ elim (Bool-cases (leb max_procs (length g.procs))) [
        | inl many ↦ absurd (not_some (rw (room, new, many) at e))
        | inr few ↦
            subst (λ x. leave pid x ≡ some g) (some-injective _ _ (rw (room, new, few) at e))
              (let is : member pid (g.procs ++ (pid ∷ [])) ≡ true =
                  ground (arith, new, member-append pid g.procs pid) in
                rw (is, remove_first-append pid g.procs new, wraps) refl)
      ]
    ]
  where
    not_some : none ≡ some g' → ⊥
    not_some h = cc

    wraps : ((g.pids.pids_current + 1) % 2 ^ 32 + 2 ^ 32 - 1) % 2 ^ 32 ≡ g.pids.pids_current
    wraps = omega (arith, small)

pub change-cases :
    (id : ℕ) (f : Cgroup → Option Cgroup) (s : Cgroups)
    → (change id f s ≡ (false, s))
      ⊎ ((i : ℕ) × (g : Cgroup) × (find_group id s ≡ some i)
          × IsFirst (λ j. has_id id (s.groups j)) 0 max_cgroups i
          × (f (s.groups i) ≡ some g)
          × (change id f s ≡ (true, set_group i g s)))
unfolding change
change-cases id f s = elim (first_of-cases max_cgroups (λ j. has_id id (s.groups j))) [
  | inl (out, _) ↦ inl (rw (out, change) refl)
  | inr (i, found, first) ↦ elim (Option-cases (f (s.groups i))) [
    | inl no_change ↦ inl (rw (found, no_change, change) refl)
    | inr (g, e) ↦ inr (i, g, found, first, e, rw (found, e, change) refl)
  ]
]

change-found :
    (id i : ℕ) (f : Cgroup → Option Cgroup) (s : Cgroups) (g : Cgroup)
    → find_group id s ≡ some i
    → f (s.groups i) ≡ some g
    → change id f s ≡ (true, set_group i g s)
unfolding change
change-found id i f s g found e = rw (found, e, change) refl

join-has_id : (pid id : ℕ) (g g' : Cgroup) → join pid g ≡ some g' → has_id id g' ≡ has_id id g
unfolding join
join-has_id pid id g g' e = ground (arith, e)

set_group-back : (i : ℕ) (g : Cgroup) (s : Cgroups) → set_group i (s.groups i) (set_group i g s) ≡ s
set_group-back i g s =
    ap (λ f. record s { groups = f })
      (fun_ext λ j. elim (ℕ_discrete i j) [
        | yes same ↦
            subst (λ k. update (update s.groups i g) i (s.groups i) k ≡ s.groups k) same
              (rw (==_refl i) refl)
        | no apart ↦ rw (ne→== i j apart) refl
      ])

-- A process that `cgroup_attach` adds to a group, of which it was no member, and that
-- `cgroup_detach` takes out next, leaves all groups as they were.
pub attach-detach :
    (id pid i : ℕ) (s : Cgroups)
    → find_group id s ≡ some i
    → member pid (s.groups i).procs ≡ false
    → (s.groups i).pids.pids_current < 2 ^ 32
    → (cgroup_attach id pid s).0 ≡ true
    → cgroup_detach id pid (cgroup_attach id pid s).1 ≡ (true, s)
unfolding cgroup_attach cgroup_detach
attach-detach id pid i s found new small ok = elim (change-cases id (join pid) s) [
  | inl e ↦ absurd (false_true (ap (λ (r : Bool × Cgroups). r.0) e))
  | inr (j, g, found', _, joined, e) ↦
      let same : j ≡ i = some-injective _ _ (sym found' ∙ found) in
      let back : leave pid g ≡ some (s.groups j) =
        join-leave pid (s.groups j) g joined (rw same new) (rw same small) in
      let t = set_group j g s in
      let there : find_group id t ≡ some j =
        find_group-set_group id j g s (join-has_id pid id (s.groups j) g joined) ∙ found' in
      let left : leave pid (t.groups j) ≡ some (s.groups j) = rw (==_refl j) back in
      rw e (
        change-found id j (leave pid) t (s.groups j) there left
        ∙ ap (λ (u : Cgroups). (true, u)) (set_group-back j g s))
]
  where
    false_true : (change id (join pid) s).0 ≡ false → ⊥
    false_true h = cc
