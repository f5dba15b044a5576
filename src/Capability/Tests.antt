-- ===== src/Capability/Tests.antt =====
-- kernel/proc/capability.c: runs of the model, and its theorems at concrete inputs.
use os2025_yyds.Common.{ℕ, ◌≡◌, refl, true, false, ◌||◌, leb, ◌==◌, update}
use os2025_yyds.Capability.{
  Proc, Caps, capability_init, find_from, has_cap, may_set, assign, cap_set, cap_get, cap_raise,
  cap_drop, field, cap_fork_init, cap_exec_init,
}
use os2025_yyds.Capability.Change.{
  NoGain, sets, raises, execs, Reach, here, next, Step-NoGain, HasLost, HasLost-forever,
  unprivileged_changes_nothing,
}

-- Root as the process 0 with the pid 1, and a user as the process 1 with the pid 2, who has given the
-- capability 4 up and may have 5; no other entry is in use.
abbrev root : Proc
root = record {
  pid = 1;
  uid = 0;
  live = true;
  effective = λ _. false;
  permitted = λ _. true;
  inheritable = λ _. false;
  bounding = λ _. true;
}

abbrev user : Proc
user = record {
  pid = 2;
  uid = 1000;
  live = true;
  effective = λ i. i == 5;
  permitted = λ i. i == 5 || i == 6;
  inheritable = λ _. true;
  bounding = λ i. leb 5 i;
}

abbrev unused : Proc
unused = record root { live = false; pid = 0 }

abbrev table : ℕ → Proc
table = update (update (λ _. unused) 0 root) 1 user

abbrev start : Caps
start = capability_init table

user_raises : ((cap_raise 0 0 2 6 start).1.procs 1).effective 6 ≡ true
unfolding cap_raise cap_get find_from field cap_set may_set assign capability_init
user_raises = refl

Step-NoGain_example : NoGain 6 user ((cap_raise 0 0 2 6 start).1.procs 1)
unfolding capability_init
Step-NoGain_example = Step-NoGain 6 1 (raises {s = start} 0 0 2 6)

-- Root sets all sets of the user, who then runs another program.
abbrev filled : Caps
filled = (cap_set 0 0 2 1 (λ _. true) start).1

abbrev raised : Caps
raised = (cap_raise 0 0 2 4 filled).1

abbrev ended : Caps
ended = record raised { procs = update raised.procs 1 (cap_exec_init (raised.procs 1)) }

attempts : Reach start ended
attempts = next (next (next here (sets 0 0 2 1 (λ _. true))) (raises 0 0 2 4)) (execs 1)

HasLost-forever_example :
    HasLost 4 (ended.procs 1) × HasLost 4 (cap_fork_init unused (ended.procs 1))
unfolding capability_init
HasLost-forever_example = HasLost-forever 4 1 unused attempts refl

unprivileged_changes_nothing_example :
    let set = cap_set 0 1 1 3 (λ _. false) start in
    let raise = cap_raise 0 1 1 6 start in
    let drop = cap_drop 0 1 1 6 start in
    ((set.0 ≡ false) × (set.1.procs ≡ start.procs))
    × ((raise.0 ≡ false) × (raise.1.procs ≡ start.procs))
    × ((drop.0 ≡ false) × (drop.1.procs ≡ start.procs))
unfolding capability_init has_cap find_from
unprivileged_changes_nothing_example =
    unprivileged_changes_nothing 0 1 1 3 6 (λ _. false) start (refl, refl)
