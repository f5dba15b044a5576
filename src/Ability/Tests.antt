-- ===== src/Ability/Tests.antt =====
-- The statements about kernel/proc/ability.c at concrete tables.
use os2025_yyds.Common.{[], ◌∷◌, arith, first_from}
use os2025_yyds.Ability.{
  Manager, ability_init, no_ability, ability_register, ability_start, register_at,
}
use os2025_yyds.Ability.Preserve.{IsManager}
use os2025_yyds.Ability.System.{Step, Reach, Reach-IsManager}

-- Two pages are registered, and the first one is started.
abbrev one_page : Manager
one_page = (ability_register 5 1 (1 ∷ []) (2 ∷ []) 1 ability_init).1

abbrev two_pages : Manager
two_pages = (ability_register 6 1 (1 ∷ []) (3 ∷ []) 1 one_page).1

abbrev home_page : Manager
home_page = (ability_start 7 1 two_pages).1

home_page-Reach : Reach home_page
unfolding ability_register ability_init register_at first_from no_ability
home_page-Reach =
    Reach.next two_pages home_page
      (Reach.next one_page two_pages
        (Reach.next ability_init one_page Reach.boot
          (Step.registered 5 1 (1 ∷ []) (2 ∷ []) 1 (omega arith)))
        (Step.registered 6 1 (1 ∷ []) (3 ∷ []) 1 (omega arith)))
      (Step.started 7 1)

Reach-IsManager_example : IsManager home_page
Reach-IsManager_example = Reach-IsManager home_page home_page-Reach
