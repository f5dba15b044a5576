-- ===== src/Ability/Table.antt =====
-- kernel/proc/ability.c: the table of abilities, whose ids are distinct and whose number is known.
use os2025_yyds.Common.{
  ℕ, ◌+◌, ◌-◌, ◌<◌, ◌≡◌, refl, sym, ap, subst, ◌∙◌, ◌≢◌, ◌⊎◌, inl, inr, true, false, none, some,
  arith, if◌then◌else◌, update, total, total-update, first_of-cases, ==_refl, ne→==, ℕ_discrete,
}
use os2025_yyds.Ability.{AbilityInfo, Manager, max_abilities, has_id, find_id}

abbrev pub is_used : AbilityInfo → ℕ
is_used a = if a.used then 1 else 0

pub record IsTable (f : ℕ → AbilityInfo) (next_id number : ℕ) : Type 0 where
  pub older : (i : ℕ) → i < max_abilities → (f i).used ≡ true → (f i).id < next_id
  pub distinct :
      (i j : ℕ)
      → i < max_abilities
      → j < max_abilities
      → (f i).used ≡ true
      → (f j).used ≡ true
      → (f i).id ≡ (f j).id
      → i ≡ j
  pub counted : total is_used max_abilities f ≡ number

-- The entry of an ability changes, but not its id.
pub update-IsTable :
    (f : ℕ → AbilityInfo) (next_id number i : ℕ) (a : AbilityInfo)
    → i < max_abilities
    → a.used ≡ (f i).used
    → a.id ≡ (f i).id
    → IsTable f next_id number
    → IsTable (update f i a) next_id number
update-IsTable f next_id number i a lt used id v = record {
  older = λ j low on.
      let (u, d) = at j in subst (λ k. k < next_id) (sym d) (v.older j low (sym u ∙ on));
  distinct = λ j k lj lk oj ok same.
      let (uj, dj) = at j in
      let (uk, dk) = at k in v.distinct j k lj lk (sym uj ∙ oj) (sym uk ∙ ok) (sym dj ∙ same ∙ dk);
  counted = omega (
    arith,
    total-update is_used max_abilities f i a lt,
    v.counted,
    ap {B = ℕ} (λ b. if b then 1 else 0) used,
  );
}
  where
    at : (j : ℕ) → ((update f i a j).used ≡ (f j).used) × ((update f i a j).id ≡ (f j).id)
    at j = elim (ℕ_discrete i j) [
      | yes same ↦
          subst (λ k. ((update f i a k).used ≡ (f k).used) × ((update f i a k).id ≡ (f k).id)) same
            (rw (==_refl i) (used, id))
      | no apart ↦ rw (ne→== i j apart) (refl, refl)
    ]

-- What `find_id` finds.
pub record Found (id i : ℕ) (s : Manager) : Type 0 where
  pub low : i < max_abilities
  pub used : (s.abilities i).used ≡ true
  pub same_id : (s.abilities i).id ≡ id

pub find_id-cases :
    (id : ℕ) (s : Manager)
    → ((find_id id s ≡ none) × ((j : ℕ) → j < max_abilities → has_id id (s.abilities j) ≡ false))
      ⊎ ((i : ℕ) × (find_id id s ≡ some i) × Found id i s)
find_id-cases id s = elim (first_of-cases max_abilities (λ i. has_id id (s.abilities i))) [
  | inl missing ↦ inl missing
  | inr (i, e, first) ↦ inr (
    i,
    e,
    record {
      low = first.below;
      used = ground (arith, first.hit);
      same_id = ground (arith, first.hit);
    },
  )
]

-- A new ability in a free entry.
pub register-IsTable :
    (f : ℕ → AbilityInfo) (next_id number i : ℕ) (a : AbilityInfo)
    → i < max_abilities
    → (f i).used ≡ false
    → a.used ≡ true
    → a.id ≡ next_id
    → IsTable f next_id number
    → IsTable (update f i a) (next_id + 1) (number + 1)
register-IsTable f next_id number i a lt free used id v = record {
  older = λ j low on. elim (at j) [
    | inl (same, d) ↦ omega (arith, d)
    | inr (apart, e) ↦
        omega (arith, ap (λ x. x.id) e, v.older j low (sym (ap (λ x. x.used) e) ∙ on))
  ];
  distinct = λ j k lj lk oj ok same. elim (at j) [
    | inl (ij, dj) ↦ elim (at k) [
      | inl (ik, dk) ↦ sym ij ∙ ik
      | inr (ik, ek) ↦ absurd (
          omega (arith, dj, same, ap (λ x. x.id) ek, v.older k lk (sym (ap (λ x. x.used) ek) ∙ ok)))
    ]
    | inr (ij, ej) ↦ elim (at k) [
      | inl (ik, dk) ↦ absurd (
          omega (arith, dk, same, ap (λ x. x.id) ej, v.older j lj (sym (ap (λ x. x.used) ej) ∙ oj)))
      | inr (ik, ek) ↦
          v.distinct j k lj lk (sym (ap (λ x. x.used) ej) ∙ oj) (sym (ap (λ x. x.used) ek) ∙ ok)
            (sym (ap (λ x. x.id) ej) ∙ same ∙ ap (λ x. x.id) ek)
    ]
  ];
  counted = ground (arith, total-update is_used max_abilities f i a lt, v.counted, free, used);
}
  where
    at : (j : ℕ) → ((i ≡ j) × ((update f i a j).id ≡ next_id)) ⊎ ((i ≢ j) × (update f i a j ≡ f j))
    at j = elim (ℕ_discrete i j) [
      | yes same ↦ inl (same, subst (λ k. (update f i a k).id ≡ next_id) same (rw (==_refl i) id))
      | no apart ↦ inr (apart, rw (ne→== i j apart) refl)
    ]

-- An ability is destroyed.
pub destroy-IsTable :
    (f : ℕ → AbilityInfo) (next_id number i : ℕ) (a : AbilityInfo)
    → i < max_abilities
    → (f i).used ≡ true
    → a.used ≡ false
    → IsTable f next_id number
    → (number ≢ 0) × IsTable (update f i a) next_id (number - 1)
destroy-IsTable f next_id number i a lt on gone v = (
  ground (arith, total-update is_used max_abilities f i a lt, v.counted, on, gone),
  record {
    older = λ j low used.
        let e = at j used in
        omega (arith, ap (λ x. x.id) e, v.older j low (sym (ap (λ x. x.used) e) ∙ used));
    distinct = λ j k lj lk oj ok same.
        let ej = at j oj in
        let ek = at k ok in
        v.distinct j k lj lk (sym (ap (λ x. x.used) ej) ∙ oj) (sym (ap (λ x. x.used) ek) ∙ ok)
          (sym (ap (λ x. x.id) ej) ∙ same ∙ ap (λ x. x.id) ek);
    counted = ground (arith, total-update is_used max_abilities f i a lt, v.counted, on, gone);
  },
)
  where
    at : (j : ℕ) → (update f i a j).used ≡ true → update f i a j ≡ f j
    at j used = elim (ℕ_discrete i j) [
      | yes same ↦ absurd (clash (subst (λ k. (update f i a k).used ≡ true) (sym same) used))
      | no apart ↦ rw (ne→== i j apart) refl
    ]
      where
        clash : (update f i a i).used ≡ true → ⊥
        clash h = ground (arith, gone, ==_refl i, h)
