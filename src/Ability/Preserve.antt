-- ===== src/Ability/Preserve.antt =====
-- kernel/proc/ability.c: each call keeps the table and the stack well-formed.
use os2025_yyds.Common.{
  ℕ, ◌+◌, ◌-◌, ◌%◌, ◌^◌, ◌≤◌, ◌<◌, ◌≡◌, refl, sym, ap, subst, ◌∙◌, ◌≢◌, inl, inr, true, false, not,
  ◌&&◌, List, Option, none, some, arith, ltb, leb, ◌==◌, update, length, count, remove_first,
  count-remove_first, length-remove_first, first_of-cases, total-eq_zero, total-bounded, Bool-cases,
  ==_refl, ℕ_discrete,
}
use os2025_yyds.Ability.{
  AbilityInfo, Manager, max_abilities, max_stack, ability_page, ability_active, ability_background,
  ability_init, no_ability, is_named, has_id, new_ability, register_at, ability_register, start_at,
  ability_start, ability_start_want, stop_at, ability_stop, destroy_at, ability_destroy, set_shown,
  ability_back, top_of, pop,
}
use os2025_yyds.Ability.Table.{
  is_used, IsTable, update-IsTable, Found, find_id-cases, register-IsTable, destroy-IsTable,
}
use os2025_yyds.Ability.Stack.{
  IsStack, leave-IsStack, push-IsStack, stay-IsStack, show-IsStack, length-pop, count-pop,
  top_of-cases,
}

-- The ids of the abilities are distinct and were given before, `ability_count` is their number, and
-- the stack holds distinct ids of pages that are active and visible.
pub record IsManager (s : Manager) : Type 0 where
  pub table : IsTable s.abilities s.next_id s.ability_count
  pub stack : IsStack s.abilities s.fg_stack

IsTable-few : (f : ℕ → AbilityInfo) (n c : ℕ) → IsTable f n c → c ≤ max_abilities
IsTable-few f n c v =
    omega (arith, v.counted, total-bounded is_used max_abilities f (λ k. ground arith))

-- An ability that is not active is not on the stack.
pub quiet_off :
    (s : Manager) (id i : ℕ)
    → IsManager s
    → Found id i s
    → (s.abilities i).state ≢ ability_active
    → count id s.fg_stack ≡ 0
quiet_off s id i v at quiet = elim (ℕ_discrete (count id s.fg_stack) 0) [
  | yes e ↦ e
  | no on ↦
      let (j, shown) = v.stack.pages id on in
      let same =
        v.table.distinct i j at.low shown.low at.used shown.used (at.same_id ∙ sym shown.same_id) in
      absurd (quiet (ap (λ k. (s.abilities k).state) same ∙ shown.active))
]

start_at-IsManager :
    (now id i : ℕ) (s : Manager)
    → IsManager s
    → Found id i s
    → (s.abilities i).state ≢ ability_active
    → IsManager (start_at now id i s)
unfolding start_at
start_at-IsManager now id i s v at quiet =
    elim (Bool-cases ((s.abilities i).kind == ability_page && ltb (length s.fg_stack) max_stack)) [
      | inr e ↦ record {
        table = update-IsTable _ _ _ i _ at.low refl refl v.table;
        stack = rw e (stay-IsStack s.abilities s.fg_stack i _ (inl quiet) v.stack);
      }
      | inl e ↦ record {
        table = update-IsTable _ _ _ i _ at.low refl refl v.table;
        stack = rw e (
            push-IsStack s.abilities s.fg_stack i id _
              (record {
                low = at.low;
                used = rw (==_refl i) at.used;
                same_id = rw (==_refl i) at.same_id;
                page = rw (==_refl i) (ground (arith, e));
                active = rw (==_refl i) refl;
                seen = rw (==_refl i) (ground (arith, e));
              })
              quiet (ground (arith, e)) (quiet_off s id i v at quiet) v.stack);
      }
    ]

pub start-IsManager :
    (now id : ℕ) (s : Manager) → IsManager s → IsManager (ability_start now id s).1
unfolding ability_start
start-IsManager now id s v = elim (find_id-cases id s) [
  | inl (e, _) ↦ rw (e, ability_start) v
  | inr (i, e, at) ↦ elim (Bool-cases ((s.abilities i).state == ability_active)) [
    | inl on ↦ rw (e, ability_start, on) v
    | inr off ↦
        rw (e, ability_start, off) (start_at-IsManager now id i s v at (ground (arith, off)))
  ]
]

-- What leaves the stack with an ability.
removed :
    (s : Manager) (id i : ℕ) (a : AbilityInfo)
    → IsManager s
    → Found id i s
    → IsStack (update s.abilities i a) (remove_first id s.fg_stack)
removed s id i a v at =
    leave-IsStack s.abilities s.fg_stack (remove_first id s.fg_stack) i id a at.same_id
      (omega (arith, length-remove_first id s.fg_stack))
      (λ c. omega (arith, count-remove_first id c s.fg_stack))
      (ground (arith, count-remove_first id id s.fg_stack, v.stack.once id)) v.stack

pub stop-IsManager : (id : ℕ) (s : Manager) → IsManager s → IsManager (ability_stop id s).1
unfolding ability_stop stop_at
stop-IsManager id s v = elim (find_id-cases id s) [
  | inl (e, _) ↦ rw (e, ability_stop) v
  | inr (i, e, at) ↦
      rw (e, ability_stop)
        (record {
          table = update-IsTable _ _ _ i _ at.low refl refl v.table;
          stack = removed s id i _ v at;
        })
]

count_down : (c : ℕ) → c ≢ 0 → c ≤ max_abilities → (c + 2 ^ 32 - 1) % 2 ^ 32 ≡ c - 1
count_down c ne few = omega arith

pub destroy-IsManager : (id : ℕ) (s : Manager) → IsManager s → IsManager (ability_destroy id s).1
unfolding ability_destroy destroy_at
destroy-IsManager id s v = elim (find_id-cases id s) [
  | inl (e, _) ↦ rw (e, ability_destroy) v
  | inr (i, e, at) ↦
      let (some_left, t) =
        destroy-IsTable s.abilities s.next_id s.ability_count i
          (record (s.abilities i) { used = false }) at.low at.used refl v.table in
      rw (e, ability_destroy)
        (record {
          table =
              subst (IsTable _ s.next_id)
                (sym (count_down s.ability_count some_left (IsTable-few _ _ _ v.table))) t;
          stack = removed s id i _ v at;
        })
]

count_up : (c : ℕ) → c ≤ max_abilities → (c + 1) % 2 ^ 32 ≡ c + 1
count_up c few = omega arith

register_at-IsManager :
    (i : ℕ) (a : AbilityInfo) (s : Manager)
    → i < max_abilities
    → (s.abilities i).used ≡ false
    → a.used ≡ true
    → a.id ≡ s.next_id
    → s.next_id + 1 < 2 ^ 31
    → IsManager s
    → IsManager (register_at i a s)
unfolding register_at
register_at-IsManager i a s low free used id few v = record {
  table =
      subst (λ n. IsTable (update s.abilities i a) n ((s.ability_count + 1) % 2 ^ 32)) (sym next)
        (subst (IsTable (update s.abilities i a) (s.next_id + 1))
          (sym (count_up s.ability_count (IsTable-few _ _ _ v.table)))
          (register-IsTable s.abilities s.next_id s.ability_count i a low free used id v.table));
  stack = stay-IsStack s.abilities s.fg_stack i a (inr free) v.stack;
}
  where
    next : (s.next_id + 1) % 2 ^ 32 ≡ s.next_id + 1
    next = omega (arith, few)

pub register-IsManager :
    (now pid : ℕ) (bundle name : List ℕ) (kind : ℕ) (s : Manager)
    → s.next_id + 1 < 2 ^ 31
    → IsManager s
    → IsManager (ability_register now pid bundle name kind s).1
unfolding ability_register new_ability
register-IsManager now pid bundle name kind s few v =
    elim (first_of-cases max_abilities (λ i. is_named bundle name (s.abilities i))) [
      | inr (i, e, _) ↦ rw (e, ability_register) v
      | inl (e, _) ↦ elim (first_of-cases max_abilities (λ i. not (s.abilities i).used)) [
        | inl (f, _) ↦ rw (e, ability_register, f) v
        | inr (i, f, free) ↦
            rw (e, ability_register, f)
              (register_at-IsManager i (new_ability now pid bundle name kind s (s.abilities i)) s
                free.below (ground (arith, free.hit)) refl refl few v)
      ]
    ]

-- The page on top goes to the background.
pub hide-IsManager :
    (t : ℕ) (s : Manager)
    → top_of s.fg_stack ≡ some t
    → count t s.fg_stack ≢ 0
    → IsManager s
    → IsManager
        (set_shown ability_background false (some t) (record s { fg_stack = pop s.fg_stack }))
unfolding set_shown
hide-IsManager t s e on v = elim (find_id-cases t s) [
  | inl (f, missing) ↦
      let (j, shown) = v.stack.pages t on in
      absurd (gone (s.abilities j) shown.used shown.same_id (missing j shown.low))
  | inr (i, f, at) ↦
      rw (f, set_shown)
        (record {
          table = update-IsTable _ _ _ i _ at.low refl refl v.table;
          stack =
              leave-IsStack s.abilities s.fg_stack (pop s.fg_stack) i t _ at.same_id
                (omega (arith, length-pop s.fg_stack))
                (λ c. omega (arith, count-pop s.fg_stack t c e))
                (ground (arith, count-pop s.fg_stack t t e, v.stack.once t, ==_refl t)) v.stack;
        })
]
  where
    gone : (a : AbilityInfo) → a.used ≡ true → a.id ≡ t → has_id t a ≡ false → ⊥
    gone a used id h = ground (arith, used, id, h)

show-IsManager :
    (r : Option ℕ) (s : Manager) → IsManager s → IsManager (set_shown ability_active true r s)
unfolding set_shown
show-IsManager none s v = v
show-IsManager (some t) s v = elim (find_id-cases t s) [
  | inl (f, _) ↦ rw (f, set_shown) v
  | inr (i, f, at) ↦
      rw (f, set_shown)
        (record {
          table = update-IsTable _ _ _ i _ at.low refl refl v.table;
          stack = show-IsStack s.abilities s.fg_stack i v.stack;
        })
]

pub back-IsManager : (s : Manager) → IsManager s → IsManager (ability_back s).1
unfolding ability_back
back-IsManager s v = elim (Bool-cases (leb (length s.fg_stack) 1)) [
  | inl e ↦ rw e v
  | inr e ↦ elim (top_of-cases s.fg_stack) [
    | inl empty ↦ absurd (ground (arith, e, ap length empty))
    | inr (t, top, on) ↦
        let hidden =
          set_shown ability_background false (some t) (record s { fg_stack = pop s.fg_stack }) in
        let w = show-IsManager (top_of (pop s.fg_stack)) hidden (hide-IsManager t s top on v) in
        rw (e, top) (record { table = w.table; stack = w.stack })
  ]
]

pub want-IsManager :
    (now : ℕ) (bundle name : List ℕ) (s : Manager)
    → IsManager s
    → IsManager (ability_start_want now bundle name s).1
unfolding ability_start_want
want-IsManager now bundle name s v =
    elim (first_of-cases max_abilities (λ i. is_named bundle name (s.abilities i))) [
      | inl (e, _) ↦ rw (e, ability_start_want) v
      | inr (i, e, _) ↦ rw (e, ability_start_want) (start-IsManager now (s.abilities i).id s v)
    ]

pub init-IsManager : IsManager ability_init
unfolding ability_init no_ability
init-IsManager = record {
  table = record {
    older = λ i low used. cc;
    distinct = λ i j li lj used _ _. cc;
    counted = total-eq_zero is_used max_abilities _ (λ k lt. refl);
  };
  stack = record {
    small = omega arith;
    once = λ id. omega arith;
    pages = λ id on. absurd (on refl);
  };
}
