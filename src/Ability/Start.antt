-- ===== src/Ability/Start.antt =====
-- kernel/proc/ability.c: what the start of a page changes.
use os2025_yyds.Common.{
  ℕ, ◌<◌, ◌≡◌, refl, sym, ap, subst, ◌∙◌, ◌≢◌, inl, inr, Bool, true, false, [], ◌∷◌, ◌++◌, some,
  arith, length, count, ==_refl, ne→==,
}
use os2025_yyds.Ability.{
  AbilityInfo, Manager, max_stack, ability_page, ability_active, has_id, find_id, start_at,
  ability_start, ability_get_foreground, top_of,
}
use os2025_yyds.Ability.Table.{IsTable, Found, find_id-cases}
use os2025_yyds.Ability.Preserve.{IsManager, quiet_off, start-IsManager}

pub find_id-Found :
    (id i : ℕ) (s : Manager)
    → IsTable s.abilities s.next_id s.ability_count
    → Found id i s
    → find_id id s ≡ some i
find_id-Found id i s v at = elim (find_id-cases id s) [
  | inl (e, missing) ↦ absurd (gone (s.abilities i) at.used at.same_id (missing i at.low))
  | inr (j, e, there) ↦
      e
      ∙ ap some
          (v.distinct j i there.low at.low there.used at.used (there.same_id ∙ sym at.same_id))
]
  where
    gone : (a : AbilityInfo) → a.used ≡ true → a.id ≡ id → has_id id a ≡ false → ⊥
    gone a used same h = ground (arith, used, same, h)

pub start-quiet :
    (now id i : ℕ) (s : Manager)
    → find_id id s ≡ some i
    → (s.abilities i).state ≢ ability_active
    → ability_start now id s ≡ (true, start_at now id i s)
unfolding ability_start
start-quiet now id i s e quiet =
    rw (e, ability_start, ne→== (s.abilities i).state ability_active quiet) refl

abbrev started_page : ℕ → AbilityInfo → AbilityInfo
started_page now a = record a { state = ability_active; start_time = now; visible = true }

pub start_at-entry :
    (now id i : ℕ) (s : Manager)
    → (s.abilities i).kind ≡ ability_page
    → (start_at now id i s).abilities i ≡ started_page now (s.abilities i)
unfolding start_at
start_at-entry now id i s page = rw (==_refl i, page) refl

start_at-full :
    (now id i : ℕ) (s : Manager)
    → length s.fg_stack ≡ max_stack
    → (start_at now id i s).fg_stack ≡ s.fg_stack
unfolding start_at
start_at-full now id i s full = ground (arith, full)

pub start_at-room :
    (now id i : ℕ) (s : Manager)
    → (s.abilities i).kind ≡ ability_page
    → length s.fg_stack < max_stack
    → (start_at now id i s).fg_stack ≡ s.fg_stack ++ (id ∷ [])
unfolding start_at
start_at-room now id i s page room = ground (arith, page, room)

pub start_at-Found :
    (now id i : ℕ) (s : Manager)
    → (s.abilities i).kind ≡ ability_page
    → Found id i s
    → Found id i (start_at now id i s)
start_at-Found now id i s page at = record {
  low = at.low;
  used = ap (λ a. a.used) (start_at-entry now id i s page) ∙ at.used;
  same_id = ap (λ a. a.id) (start_at-entry now id i s page) ∙ at.same_id;
}

start-active :
    (now id i : ℕ) (s : Manager)
    → IsManager s
    → Found id i s
    → (s.abilities i).state ≡ ability_active
    → ability_start now id s ≡ (true, s)
unfolding ability_start
start-active now id i s v at on = rw (find_id-Found id i s v.table at, ability_start, on) refl

-- A page that is started while 16 are on the stack is active and visible, is not on the stack, does
-- not become the foreground, and starting it again changes nothing.
full_stack_start :
    (now later id i : ℕ) (s : Manager)
    → IsManager s
    → Found id i s
    → (s.abilities i).state ≢ ability_active
    → (s.abilities i).kind ≡ ability_page
    → length s.fg_stack ≡ max_stack
    → let t = (ability_start now id s).1 in
      ((ability_start now id s).0 ≡ true)
      × ((t.abilities i).state ≡ ability_active)
      × ((t.abilities i).visible ≡ true)
      × (count id t.fg_stack ≡ 0)
      × (ability_get_foreground t ≡ ability_get_foreground s)
      × (ability_start later id t ≡ (true, t))
unfolding ability_get_foreground
full_stack_start now later id i s v at quiet page full =
    let e = start-quiet now id i s (find_id-Found id i s v.table at) quiet in
    let t = start_at now id i s in
    let entry = start_at-entry now id i s page in
    let stack = start_at-full now id i s full in
    let w : IsManager t =
      subst (λ (r : Bool × Manager). IsManager r.1) e (start-IsManager now id s v) in
    rw e (
      refl,
      ap (λ a. a.state) entry,
      ap (λ a. a.visible) entry,
      ap (count id) stack ∙ quiet_off s id i v at quiet,
      ap top_of stack,
      start-active later id i t w (start_at-Found now id i s page at) (ap (λ a. a.state) entry),
    )
