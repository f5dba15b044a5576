-- ===== src/Ability/System.antt =====
-- kernel/proc/ability.c: the manager under the system calls of kernel/sys_ability.c, in any order.
use os2025_yyds.Common.{ℕ, ◌+◌, ◌^◌, ◌<◌, List}
use os2025_yyds.Ability.{
  Manager, ability_init, ability_register, ability_start, ability_start_want, ability_stop,
  ability_destroy, ability_back,
}
use os2025_yyds.Ability.Preserve.{
  IsManager, init-IsManager, register-IsManager, start-IsManager, want-IsManager, stop-IsManager,
  destroy-IsManager, back-IsManager,
}

-- Fewer than 2 ^ 31 registrations are made: `next_id` is an `int`.
pub data Step (s : Manager) : Manager → Type 0 where
  registered :
      (now pid : ℕ) (bundle name : List ℕ) (kind : ℕ)
      → s.next_id + 1 < 2 ^ 31
      → Step s (ability_register now pid bundle name kind s).1
  started : (now id : ℕ) → Step s (ability_start now id s).1
  wanted : (now : ℕ) (bundle name : List ℕ) → Step s (ability_start_want now bundle name s).1
  stopped : (id : ℕ) → Step s (ability_stop id s).1
  destroyed : (id : ℕ) → Step s (ability_destroy id s).1
  went_back : Step s (ability_back s).1

pub data Reach : Manager → Type 0 where
  boot : Reach ability_init
  next : (s t : Manager) → Reach s → Step s t → Reach t

Step-IsManager : (s t : Manager) → IsManager s → Step s t → IsManager t
Step-IsManager s t v (registered now pid bundle name kind few) =
    register-IsManager now pid bundle name kind s few v
Step-IsManager s t v (started now id) = start-IsManager now id s v
Step-IsManager s t v (wanted now bundle name) = want-IsManager now bundle name s v
Step-IsManager s t v (stopped id) = stop-IsManager id s v
Step-IsManager s t v (destroyed id) = destroy-IsManager id s v
Step-IsManager s t v went_back = back-IsManager s v

-- In every state that the calls reach from `ability_init`, the ids of the abilities are distinct and
-- below `next_id`, `ability_count` is their number, and the stack holds at most 16 ids, distinct,
-- each of them a page that is registered, active and visible.
pub Reach-IsManager : (s : Manager) → Reach s → IsManager s
Reach-IsManager s boot = init-IsManager
Reach-IsManager s (next r t reach step) = Step-IsManager r t (Reach-IsManager r reach) step
