-- ===== src/Ability/Navigate.antt =====
-- kernel/proc/ability.c: what starting a page and going back shows.
use os2025_yyds.Common.{
  ℕ, ◌+◌, ◌%◌, ◌^◌, ◌<◌, ◌≡◌, refl, ap, subst, ◌∙◌, ◌≢◌, inl, inr, Bool, true, false, List, [], ◌∷◌,
  ◌++◌, some, arith, leb, update, length, length-append, count, count-append, fun_ext, ==_refl,
  ne→==, ℕ_discrete,
}
use os2025_yyds.Ability.{
  AbilityInfo, Manager, max_stack, ability_page, ability_active, ability_background, find_id,
  set_ability, start_at, ability_start, set_shown, ability_back, ability_get_foreground, top_of,
  pop,
}
use os2025_yyds.Ability.Table.{Found}
use os2025_yyds.Ability.Stack.{Shown, top_of-cases, top_of-push}
use os2025_yyds.Ability.Preserve.{IsManager, hide-IsManager, start-IsManager}
use os2025_yyds.Ability.Start.{find_id-Found, start-quiet, start_at-room, start_at-Found}

hide_at :
    (t i : ℕ) (s : Manager)
    → find_id t s ≡ some i
    → set_shown ability_background false (some t) s
      ≡ set_ability i (record (s.abilities i) { state = ability_background; visible = false }) s
unfolding set_shown
hide_at t i s e = rw (e, set_shown) refl

shown_same :
    (a : AbilityInfo)
    → a.state ≡ ability_active
    → a.visible ≡ true
    → record a { state = ability_active; visible = true } ≡ a
shown_same a active seen =
    subst (λ n. record a { state = n; visible = true } ≡ a) active
      (subst (λ b. record a { state = a.state; visible = b } ≡ a) seen refl)

-- The page on top is shown already.
show_top :
    (s : Manager) (q j : ℕ)
    → IsManager s
    → Shown s.abilities q j
    → set_shown ability_active true (some q) s ≡ s
unfolding set_shown
show_top s q j v shown =
    rw
      (
        find_id-Found q j s v.table
            (record { low = shown.low; used = shown.used; same_id = shown.same_id }),
        set_shown,
      )
      (ap (λ f. record s { abilities = f })
        (fun_ext λ k. elim (ℕ_discrete j k) [
          | no apart ↦ rw (ne→== j k apart) refl
          | yes same ↦
              subst
                (λ l.
                  update s.abilities j
                    (record (s.abilities j) { state = ability_active; visible = true }) l
                  ≡ s.abilities l)
                same (rw (==_refl j) (shown_same (s.abilities j) shown.active shown.seen))
        ]))

-- The state when the page on top is hidden.
abbrev hidden : ℕ → List ℕ → Manager → Manager
hidden i l t =
    set_ability i (record (t.abilities i) { state = ability_background; visible = false })
      (record t { fg_stack = l })

abbrev ticked : Manager → Manager
ticked s = record s { lifecycle_events = (s.lifecycle_events + 1) % 2 ^ 64 }

hide_pushed :
    (t : Manager) (l : List ℕ) (id i : ℕ)
    → t.fg_stack ≡ l ++ (id ∷ [])
    → find_id id t ≡ some i
    → set_shown ability_background false
        (top_of t.fg_stack)
        (record t { fg_stack = pop t.fg_stack })
      ≡ hidden i l t
hide_pushed t l id i stack found =
    rw (stack, (top_of-push l id).0, (top_of-push l id).1)
      (hide_at id i (record t { fg_stack = l }) found)

back-pushed :
    (t : Manager) (l : List ℕ) (id i q : ℕ)
    → t.fg_stack ≡ l ++ (id ∷ [])
    → find_id id t ≡ some i
    → top_of l ≡ some q
    → l ≢ []
    → set_shown ability_active true (some q) (hidden i l t) ≡ hidden i l t
    → ability_back t ≡ (true, ticked (hidden i l t))
unfolding ability_back
back-pushed t l id i q stack found top ne same =
    rw (hide_pushed t l id i stack found, stack, (top_of-push l id).1, top, same, long l ne) refl
  where
    long : (m : List ℕ) → m ≢ [] → leb (length (m ++ (id ∷ []))) 1 ≡ false
    long [] h = absurd (h refl)
    long (x ∷ xs) h = ground (arith, length-append xs (id ∷ []))

hidden-IsManager :
    (t : Manager) (l : List ℕ) (id i : ℕ)
    → t.fg_stack ≡ l ++ (id ∷ [])
    → find_id id t ≡ some i
    → IsManager t
    → IsManager (hidden i l t)
hidden-IsManager t l id i stack found w =
    subst IsManager (hide_pushed t l id i stack found) (rw (top) (hide-IsManager id t top on w))
  where
    top : top_of t.fg_stack ≡ some id
    top = ap top_of stack ∙ (top_of-push l id).0

    on : count id t.fg_stack ≢ 0
    on = rw stack (ground (arith, count-append id l (id ∷ []), ==_refl id))

start_at-other :
    (now id i j : ℕ) (s : Manager) → i ≢ j → (start_at now id i s).abilities j ≡ s.abilities j
unfolding start_at
start_at-other now id i j s apart = rw (ne→== i j apart) refl

-- A page that is not active starts over a page that is on the stack, with room for it, and the user
-- goes back: the call succeeds, the stack and the foreground are what they were, the page is in the
-- background and not visible, and no other ability has changed.
start-back :
    (now id i : ℕ) (s : Manager)
    → IsManager s
    → Found id i s
    → (s.abilities i).state ≢ ability_active
    → (s.abilities i).kind ≡ ability_page
    → length s.fg_stack < max_stack
    → s.fg_stack ≢ []
    → let r = ability_back (ability_start now id s).1 in
      (r.0 ≡ true)
      × (r.1.fg_stack ≡ s.fg_stack)
      × (ability_get_foreground r.1 ≡ ability_get_foreground s)
      × ((r.1.abilities i).state ≡ ability_background)
      × ((r.1.abilities i).visible ≡ false)
      × ((j : ℕ) → i ≢ j → r.1.abilities j ≡ s.abilities j)
unfolding ability_get_foreground
start-back now id i s v at quiet page room some_page = elim (top_of-cases s.fg_stack) [
  | inl empty ↦ absurd (some_page empty)
  | inr (q, top, on) ↦
      let e = start-quiet now id i s (find_id-Found id i s v.table at) quiet in
      let t = start_at now id i s in
      let w : IsManager t =
        subst (λ (r : Bool × Manager). IsManager r.1) e (start-IsManager now id s v) in
      let found = find_id-Found id i t w.table (start_at-Found now id i s page at) in
      let stack = start_at-room now id i s page room in
      let u = hidden i s.fg_stack t in
      let x : IsManager u = hidden-IsManager t s.fg_stack id i stack found w in
      let (j, shown) = x.stack.pages q on in
      rw (e, back-pushed t s.fg_stack id i q stack found top some_page (show_top u q j x shown))
        (
          refl,
          refl,
          refl,
          rw (==_refl i) refl,
          rw (==_refl i) refl,
          λ k apart. rw (ne→== i k apart) (start_at-other now id i k s apart),
        )
]
