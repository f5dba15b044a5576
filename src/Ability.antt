-- ===== src/Ability.antt =====
-- kernel/proc/ability.c: abilities, the stack of foreground pages, and the calls that change them.
--
-- `fg_stack` is the list of the ids `abilities[0]` .. `abilities[top - 1]`. Names are lists of bytes
-- without the final NUL, shorter than their arrays, as `fetchstr` hands them over. The argument `now`
-- is `ticks`, `pid` the caller's. A call that returns -1 gives `none` or `false`, and the id or
-- state that a call returns is under `some`. Ids and counters wrap as the code's `int` does.
pub mod Table
pub mod Stack
pub mod Preserve
pub mod System
pub mod Start
pub mod Navigate
mod Tests
use os2025_yyds.Common.{
  ℕ, zero, suc, ◌+◌, ◌-◌, ◌%◌, ◌^◌, Bool, true, false, not, ◌&&◌, ◌||◌, List, [], ◌∷◌, ◌++◌, Option,
  none, some, ltb, leb, ◌==◌, if◌then◌else◌, update, length, remove_first, first_of,
}

abbrev pub max_abilities : ℕ
max_abilities = 32

abbrev pub max_stack : ℕ
max_stack = 16

abbrev pub ability_page : ℕ
ability_page = 1

abbrev pub ability_initial : ℕ
ability_initial = 0

abbrev pub ability_inactive : ℕ
ability_inactive = 1

abbrev pub ability_active : ℕ
ability_active = 2

abbrev pub ability_background : ℕ
ability_background = 3

pub record AbilityInfo : Type 0 where
  pub used : Bool
  pub id : ℕ
  pub name : List ℕ
  pub bundle : List ℕ
  pub kind : ℕ
  pub state : ℕ
  pub owner_pid : ℕ
  pub created_time : ℕ
  pub start_time : ℕ
  pub visible : Bool
  pub permission : ℕ

pub record Manager : Type 0 where
  pub abilities : ℕ → AbilityInfo
  pub ability_count : ℕ
  pub next_id : ℕ
  pub fg_stack : List ℕ
  pub total_starts : ℕ
  pub total_stops : ℕ
  pub lifecycle_events : ℕ

pub no_ability : AbilityInfo
no_ability = record {
  used = false;
  id = 0;
  name = [];
  bundle = [];
  kind = 0;
  state = 0;
  owner_pid = 0;
  created_time = 0;
  start_time = 0;
  visible = false;
  permission = 0;
}

pub ability_init : Manager
ability_init = record {
  abilities = λ i. no_ability;
  ability_count = 0;
  next_id = 1;
  fg_stack = [];
  total_starts = 0;
  total_stops = 0;
  lifecycle_events = 0;
}

-- `strncmp` of two strings that are shorter than their arrays.
pub same_name : List ℕ → List ℕ → Bool
same_name [] [] = true
same_name [] (y ∷ ys) = false
same_name (x ∷ xs) [] = false
same_name (x ∷ xs) (y ∷ ys) = let later = same_name xs ys in x == y && later

abbrev pub is_named : List ℕ → List ℕ → AbilityInfo → Bool
is_named bundle name a = a.used && same_name a.bundle bundle && same_name a.name name

abbrev pub has_id : ℕ → AbilityInfo → Bool
has_id id a = a.used && a.id == id

abbrev pub find_id : ℕ → Manager → Option ℕ
find_id id s = first_of max_abilities (λ i. has_id id (s.abilities i))

abbrev pub tick : ℕ → ℕ
tick n = (n + 1) % 2 ^ 64

abbrev pub set_ability : ℕ → AbilityInfo → Manager → Manager
set_ability i a s = record s { abilities = update s.abilities i a }

-- The entry that `ability_register` fills.
pub new_ability : ℕ → ℕ → List ℕ → List ℕ → ℕ → Manager → AbilityInfo → AbilityInfo
new_ability now pid bundle name kind s a = record a {
  used = true;
  id = s.next_id;
  name = name;
  bundle = bundle;
  kind = kind;
  state = ability_initial;
  owner_pid = pid;
  created_time = now;
  visible = false;
  permission = 0;
}

pub register_at : ℕ → AbilityInfo → Manager → Manager
register_at i a s = record (set_ability i a s) {
  next_id = (s.next_id + 1) % 2 ^ 32;
  ability_count = (s.ability_count + 1) % 2 ^ 32;
  lifecycle_events = tick s.lifecycle_events;
}

pub ability_register : ℕ → ℕ → List ℕ → List ℕ → ℕ → Manager → Option ℕ × Manager
ability_register now pid bundle name kind s =
    elim (first_of max_abilities (λ i. is_named bundle name (s.abilities i))) [
      | some i ↦ (some (s.abilities i).id, s)
      | none ↦ elim (first_of max_abilities (λ i. not (s.abilities i).used)) [
        | none ↦ (none, s)
        | some i ↦ (
          some s.next_id,
          register_at i (new_ability now pid bundle name kind s (s.abilities i)) s,
        )
      ]
    ]

-- An ability that is not active starts.
pub start_at : ℕ → ℕ → ℕ → Manager → Manager
start_at now id i s =
    let a = s.abilities i in
    record (set_ability i
      (record a { state = ability_active; start_time = now; visible = a.kind == ability_page }) s) {
        fg_stack =
            if a.kind == ability_page && ltb (length s.fg_stack) max_stack
            then s.fg_stack ++ (id ∷ [])
            else s.fg_stack;
        total_starts = tick s.total_starts;
        lifecycle_events = tick s.lifecycle_events;
      }

pub ability_start : ℕ → ℕ → Manager → Bool × Manager
ability_start now id s = elim (find_id id s) [
  | none ↦ (false, s)
  | some i ↦ (true, if (s.abilities i).state == ability_active then s else start_at now id i s)
]

pub stop_at : ℕ → ℕ → Manager → Manager
stop_at id i s =
    record (set_ability i (record (s.abilities i) { state = ability_inactive; visible = false })
      s) {
        fg_stack = remove_first id s.fg_stack;
        total_stops = tick s.total_stops;
        lifecycle_events = tick s.lifecycle_events;
      }

pub ability_stop : ℕ → Manager → Bool × Manager
ability_stop id s = elim (find_id id s) [ none ↦ (false, s) | some i ↦ (true, stop_at id i s) ]

pub destroy_at : ℕ → ℕ → Manager → Manager
destroy_at id i s = record (set_ability i (record (s.abilities i) { used = false }) s) {
  ability_count = (s.ability_count + 2 ^ 32 - 1) % 2 ^ 32;
  lifecycle_events = tick s.lifecycle_events;
  fg_stack = remove_first id s.fg_stack;
}

pub ability_destroy : ℕ → Manager → Bool × Manager
ability_destroy id s = elim (find_id id s) [
  | none ↦ (false, s)
  | some i ↦ (true, destroy_at id i s)
]

pub ability_start_want : ℕ → List ℕ → List ℕ → Manager → Bool × Manager
ability_start_want now bundle name s =
    elim (first_of max_abilities (λ i. is_named bundle name (s.abilities i))) [
      | none ↦ (false, s)
      | some i ↦ ability_start now (s.abilities i).id s
    ]

-- `abilities[top - 1]` of the stack, and the stack without it.
pub top_of : List ℕ → Option ℕ
top_of [] = none
top_of (x ∷ []) = some x
top_of (x ∷ y ∷ l) = top_of (y ∷ l)

pub pop : List ℕ → List ℕ
pop [] = []
pop (x ∷ []) = []
pop (x ∷ y ∷ l) = x ∷ pop (y ∷ l)

-- The loops of `ability_back` that look for an ability and set its state.
pub set_shown : ℕ → Bool → Option ℕ → Manager → Manager
set_shown state visible none s = s
set_shown state visible (some id) s = elim (find_id id s) [
  | none ↦ s
  | some i ↦ set_ability i (record (s.abilities i) { state = state; visible = visible }) s
]

pub ability_back : Manager → Bool × Manager
ability_back s =
    let rest = pop s.fg_stack in
    let hidden =
      set_shown ability_background false (top_of s.fg_stack) (record s { fg_stack = rest }) in
    let shown = set_shown ability_active true (top_of rest) hidden in
    if leb (length s.fg_stack) 1
    then (false, s)
    else (true, record shown { lifecycle_events = tick shown.lifecycle_events })

pub ability_get_foreground : Manager → Option ℕ
ability_get_foreground s = top_of s.fg_stack

-- Whether the change of a state is a lifecycle event.
pub is_event : ℕ → ℕ → Bool
is_event old new =
    old == ability_initial && new == ability_inactive
    || new == ability_active
    || new == ability_background
    || new == ability_inactive

pub ability_set_state : ℕ → ℕ → Manager → Bool × Manager
ability_set_state id new s = elim (find_id id s) [
  | none ↦ (false, s)
  | some i ↦
      let a = s.abilities i in
      (
        true,
        record (set_ability i (record a { state = new }) s) {
          lifecycle_events =
              if is_event a.state new then tick s.lifecycle_events else s.lifecycle_events;
        },
      )
]

pub ability_get_state : ℕ → Manager → Option ℕ
ability_get_state id s = elim (find_id id s) [ none ↦ none | some i ↦ some (s.abilities i).state ]
