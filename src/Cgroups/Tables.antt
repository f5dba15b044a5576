-- ===== src/Cgroups/Tables.antt =====
-- kernel/proc/cgroups.c: what a change of one group leaves of the lookups.
use os2025_yyds.Common.{
  ℕ, ◌≡◌, refl, ap, subst, fun_ext, ◌∙◌, Bool, true, ◌==◌, update, first_of, ℕ_discrete, ==_refl,
  ne→==,
}
use os2025_yyds.Cgroups.{
  Cgroup, Cgroups, max_cgroups, has_id, has_proc, find_proc, find_group, set_group,
}

-- A group that keeps a test leaves it as it is for the whole table.
update-test :
    (test : Cgroup → Bool) (f : ℕ → Cgroup) (i : ℕ) (g : Cgroup)
    → test g ≡ test (f i)
    → ◌≡◌ {A = ℕ → Bool} (λ j. test (update f i g j)) (λ j. test (f j))
update-test test f i g h = fun_ext λ j. elim (ℕ_discrete i j) [
  | yes same ↦ rw (subst (λ k. (i == k) ≡ true) same (==_refl i)) (h ∙ ap (λ k. test (f k)) same)
  | no apart ↦ rw (ne→== i j apart) refl
]

pub find_proc-set_group :
    (pid i : ℕ) (g : Cgroup) (s : Cgroups)
    → has_proc pid g ≡ has_proc pid (s.groups i)
    → find_proc pid (set_group i g s) ≡ find_proc pid s
find_proc-set_group pid i g s h =
    ap (first_of max_cgroups) (update-test (has_proc pid) s.groups i g h)

pub find_group-set_group :
    (id i : ℕ) (g : Cgroup) (s : Cgroups)
    → has_id id g ≡ has_id id (s.groups i)
    → find_group id (set_group i g s) ≡ find_group id s
find_group-set_group id i g s h = ap (first_of max_cgroups) (update-test (has_id id) s.groups i g h)

pub set_group-same : (i : ℕ) (g : Cgroup) (s : Cgroups) → (set_group i g s).groups i ≡ g
set_group-same i g s = rw (==_refl i) refl
