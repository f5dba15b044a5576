-- ===== src/Ability/Stack.antt =====
-- kernel/proc/ability.c: the pages on the foreground stack.
use os2025_yyds.Common.{
  ℕ, ◌+◌, ◌-◌, ◌≤◌, ◌<◌, ◌≡◌, refl, sym, ap, subst, ◌∙◌, ◌≢◌, ◌⊎◌, inl, inr, true, false, List, [],
  ◌∷◌, ◌++◌, some, arith, ◌==◌, if◌then◌else◌, update, length, length-append, count, count-append,
  ==_refl, ne→==, ℕ_discrete,
}
use mathlib.Core.Option.{some-injective}
use os2025_yyds.Ability.{
  AbilityInfo, max_abilities, max_stack, ability_page, ability_active, top_of, pop,
}

-- The entry `i` is a page with this id that is active and visible.
pub record Shown (f : ℕ → AbilityInfo) (id i : ℕ) : Type 0 where
  pub low : i < max_abilities
  pub used : (f i).used ≡ true
  pub same_id : (f i).id ≡ id
  pub page : (f i).kind ≡ ability_page
  pub active : (f i).state ≡ ability_active
  pub seen : (f i).visible ≡ true

pub record IsStack (f : ℕ → AbilityInfo) (l : List ℕ) : Type 0 where
  pub small : length l ≤ max_stack
  pub once : (id : ℕ) → count id l ≤ 1
  pub pages : (id : ℕ) → count id l ≢ 0 → (i : ℕ) × Shown f id i

pub update-Shown :
    (f : ℕ → AbilityInfo) (j : ℕ) (a : AbilityInfo) (id i : ℕ)
    → j ≢ i
    → Shown f id i
    → Shown (update f j a) id i
update-Shown f j a id i apart v = record {
  low = v.low;
  used = rw (ne→== j i apart) v.used;
  same_id = rw (ne→== j i apart) v.same_id;
  page = rw (ne→== j i apart) v.page;
  active = rw (ne→== j i apart) v.active;
  seen = rw (ne→== j i apart) v.seen;
}

-- One entry changes that is not of a page on the stack, or goes off the stack.
pub leave-IsStack :
    (f : ℕ → AbilityInfo) (l m : List ℕ) (j id : ℕ) (a : AbilityInfo)
    → (f j).id ≡ id
    → length m ≤ length l
    → ((c : ℕ) → count c m ≤ count c l)
    → count id m ≡ 0
    → IsStack f l
    → IsStack (update f j a) m
leave-IsStack f l m j id a same_id fewer less gone v = record {
  small = omega (arith, v.small, fewer);
  once = λ c. omega (arith, v.once c, less c);
  pages = λ c on.
      let (i, shown) = v.pages c (λ e. on (omega (arith, e, less c))) in
      (
        i,
        update-Shown f j a c i
            (λ same. on (
              subst (λ k. count k m ≡ 0) (sym same_id ∙ ap (λ k. (f k).id) same ∙ shown.same_id)
                gone))
            shown,
      );
}

-- A page that was not active is shown on top.
pub push-IsStack :
    (f : ℕ → AbilityInfo) (l : List ℕ) (j id : ℕ) (a : AbilityInfo)
    → Shown (update f j a) id j
    → (f j).state ≢ ability_active
    → length l < max_stack
    → count id l ≡ 0
    → IsStack f l
    → IsStack (update f j a) (l ++ (id ∷ []))
push-IsStack f l j id a shown quiet room new v = record {
  small = omega (arith, length-append l (id ∷ []), room);
  once = λ c. elim (ℕ_discrete id c) [
    | yes same ↦
        subst (λ k. count k (l ++ (id ∷ [])) ≤ 1) same
          (ground (arith, new, count-append id l (id ∷ []), ==_refl id))
    | no apart ↦ ground (arith, v.once c, count-append c l (id ∷ []), ne→== id c apart)
  ];
  pages = λ c on. elim (ℕ_discrete id c) [
    | yes same ↦ (j, subst (λ k. Shown (update f j a) k j) same shown)
    | no apart ↦
        let (i, old) =
          v.pages c (ground (arith, on, count-append c l (id ∷ []), ne→== id c apart)) in
        (i, update-Shown f j a c i (λ same. quiet (ap (λ k. (f k).state) same ∙ old.active)) old)
  ];
}

pub stay-IsStack :
    (f : ℕ → AbilityInfo) (l : List ℕ) (j : ℕ) (a : AbilityInfo)
    → (f j).state ≢ ability_active ⊎ ((f j).used ≡ false)
    → IsStack f l
    → IsStack (update f j a) l
stay-IsStack f l j a quiet v = record {
  small = v.small;
  once = v.once;
  pages = λ c on.
      let (i, old) = v.pages c on in
      (
        i,
        update-Shown f j a c i
            (λ same. elim quiet [
              | inl s ↦ s (ap (λ k. (f k).state) same ∙ old.active)
              | inr u ↦ absurd (true_false (sym old.used ∙ sym (ap (λ k. (f k).used) same) ∙ u))
            ])
            old,
      );
}
  where
    true_false : true ≡ false → ⊥
    true_false e = cc

-- The entry of a page is made active and visible, as those on the stack are.
pub show-IsStack :
    (f : ℕ → AbilityInfo) (l : List ℕ) (j : ℕ)
    → IsStack f l
    → IsStack (update f j (record (f j) { state = ability_active; visible = true })) l
show-IsStack f l j v = record {
  small = v.small;
  once = v.once;
  pages = λ c on. let (i, old) = v.pages c on in (i, shown c i old);
}
  where
    shown :
        (c i : ℕ)
        → Shown f c i
        → Shown (update f j (record (f j) { state = ability_active; visible = true })) c i
    shown c i old = elim (ℕ_discrete j i) [
      | no apart ↦ update-Shown f j _ c i apart old
      | yes same ↦
          subst
            (λ k. Shown (update f j (record (f j) { state = ability_active; visible = true })) c k)
            same
            (record {
              low = subst (λ k. k < max_abilities) (sym same) old.low;
              used = rw (==_refl j) (subst (λ k. (f k).used ≡ true) (sym same) old.used);
              same_id = rw (==_refl j) (subst (λ k. (f k).id ≡ c) (sym same) old.same_id);
              page = rw (==_refl j) (subst (λ k. (f k).kind ≡ ability_page) (sym same) old.page);
              active = rw (==_refl j) refl;
              seen = rw (==_refl j) refl;
            })
    ]

pub length-pop : (l : List ℕ) → length (pop l) ≡ length l - 1
unfolding pop
length-pop [] = refl
length-pop (x ∷ []) = refl
length-pop (x ∷ y ∷ l) = omega (arith, length-pop (y ∷ l))

pub count-pop :
    (l : List ℕ) (t c : ℕ)
    → top_of l ≡ some t
    → count c (pop l) + (if t == c then 1 else 0) ≡ count c l
unfolding pop top_of
count-pop [] t c e = cc
count-pop (x ∷ []) t c e = rw (some-injective _ _ e) (omega arith)
count-pop (x ∷ y ∷ l) t c e = omega (arith, count-pop (y ∷ l) t c e)

pub top_of-cases : (l : List ℕ) → (l ≡ []) ⊎ ((t : ℕ) × (top_of l ≡ some t) × (count t l ≢ 0))
unfolding top_of
top_of-cases [] = inl refl
top_of-cases (x ∷ []) = inr (x, refl, ground (arith, ==_refl x))
top_of-cases (x ∷ y ∷ l) = elim (top_of-cases (y ∷ l)) [
  | inl e ↦ cc
  | inr (t, e, on) ↦ inr (t, e, ground (arith, on))
]

pub top_of-push :
    (l : List ℕ) (x : ℕ) → (top_of (l ++ (x ∷ [])) ≡ some x) × (pop (l ++ (x ∷ [])) ≡ l)
unfolding top_of pop
top_of-push [] x = (refl, refl)
top_of-push (y ∷ []) x = (refl, refl)
top_of-push (y ∷ z ∷ l) x = let (e, f) = top_of-push (z ∷ l) x in (e, ap (λ m. y ∷ m) f)
