-- ===== src/Vma/Map.antt =====
-- kernel/mm/vma.c: areas stay disjoint, and what `vma_find` finds after `vma_map`.
use os2025_yyds.Common.{
  if◌then◌else◌, ℕ, ◌+◌, ◌%◌, ◌^◌, ◌≤◌, ◌<◌, ◌≡◌, ◌≢◌, refl, sym, ◌∙◌, ap, subst, fun_ext, ◌⊎◌, inl,
  inr, Bool, true, false, not, ◌&&◌, Option, none, some, arith, ltb, leb, update, first_of,
  first_of-cases, ==_refl, ne→==, ℕ_discrete, dec_lt, done, panic,
}
use mathlib.Core.Option.{some-injective}
use os2025_yyds.Vma.Refs.{names, dup_file-adds}
use os2025_yyds.Vma.{
  VmArea, Space, nvma, through_int, end_of, contains, view, vma_find, filedup, dup_file, overlaps,
  new_area, vma_map,
}

-- No two areas overlap, and none wraps.
pub record IsSpace (vma : ℕ → VmArea) : Type 0 where
  pub whole : (i : ℕ) → i < nvma → (vma i).used ≡ true → (vma i).addr + (vma i).len < 2 ^ 64
  pub apart :
      (i j : ℕ)
      → i < nvma
      → j < nvma
      → i ≢ j
      → (vma i).used ≡ true
      → (vma j).used ≡ true
      → ((vma i).addr + (vma i).len ≤ (vma j).addr) ⊎ ((vma j).addr + (vma j).len ≤ (vma i).addr)

-- The areas after a new one.
pub record Mapped (addr len : ℕ) (v : VmArea) (vma vma' : ℕ → VmArea) : Type 0 where
  pub space : IsSpace vma'
  pub inside : (a : ℕ) → addr ≤ a → a < addr + len → vma_find a vma' ≡ some (view v)
  pub outside : (a : ℕ) → a < addr ⊎ (addr + len ≤ a) → vma_find a vma' ≡ vma_find a vma

new_area-len :
    (addr len prot flags : ℕ) (file : Option ℕ) (offset : ℕ)
    → len < 2 ^ 31
    → (new_area addr len prot flags file offset).len ≡ len
unfolding new_area through_int
new_area-len addr len prot flags file offset lt = ground (arith, lt)

-- An area contains what lies between its ends.
contains_iff :
    (a : ℕ) (v : VmArea)
    → v.addr + v.len < 2 ^ 64
    → contains a v ≡ true
    → (v.used ≡ true) × (v.addr ≤ a) × (a < v.addr + v.len)
contains_iff a v lt e =
    split v.used (ground (arith, e)) (ground (arith, e, lt)) (ground (arith, e, lt))
  where
    split :
        (b : Bool)
        → b ≡ true
        → v.addr ≤ a
        → a < v.addr + v.len
        → (b ≡ true) × (v.addr ≤ a) × (a < v.addr + v.len)
    split b on lo hi = (on, lo, hi)

find-none :
    (a : ℕ) (vma : ℕ → VmArea)
    → first_of nvma (λ i. contains a (vma i)) ≡ none
    → vma_find a vma ≡ none
unfolding vma_find
find-none a vma e = rw (vma_find, e) refl

find-some :
    (a : ℕ) (vma : ℕ → VmArea) (i : ℕ)
    → first_of nvma (λ i. contains a (vma i)) ≡ some i
    → vma_find a vma ≡ some (view (vma i))
unfolding vma_find
find-some a vma i e = rw (vma_find, e) refl

-- A file without references cannot be duplicated, and any other gets one more.
dup-cases :
    (file : Option ℕ) (refs : ℕ → ℕ)
    → ((f : ℕ) → file ≡ some f → refs f + 1 < 2 ^ 31)
    → ((dup_file file refs ≡ panic) × ((f : ℕ) × (file ≡ some f) × (refs f ≡ 0)))
      ⊎ ((r : ℕ → ℕ) × (dup_file file refs ≡ done r)
          × ((k : ℕ) → r k ≡ refs k + (if names k file then 1 else 0)))
unfolding filedup
dup-cases none refs small = inr (refs, refl, λ k. omega arith)
dup-cases (some f) refs small = elim (ℕ_discrete (refs f) 0) [
  | yes e ↦ inl (rw (filedup, e) refl, (f, refl, e))
  | no some_left ↦ inr (
      dup_file-adds (some f) refs
        (λ g it. (omega (arith, some_left, ap refs (some-injective f g it)), small g it)))
]

module _ (addr len slot : ℕ) (v : VmArea) (vma : ℕ → VmArea) (m : IsSpace vma) (low : slot < nvma)
    (free : (vma slot).used ≡ false) (on : v.used ≡ true) (at : v.addr ≡ addr) (long : v.len ≡ len)
    (fits : addr + len < 2 ^ 64)
    (clear : (i : ℕ) → i < nvma → overlaps addr len (vma i) ≡ false) where
  abbrev after : ℕ → VmArea
  after = update vma slot v

  after_here : after slot ≡ v
  after_here = rw (==_refl slot) refl

  after_other : (i : ℕ) → slot ≢ i → after i ≡ vma i
  after_other i ne = rw (ne→== slot i ne) refl

  disjoint :
      (i : ℕ)
      → i < nvma
      → (vma i).used ≡ true
      → ((vma i).addr + (vma i).len ≤ addr) ⊎ (addr + len ≤ (vma i).addr)
  disjoint i lt used = elim (dec_lt addr ((vma i).addr + (vma i).len)) [
    | no below ↦ inl (omega (arith, below))
    | yes under ↦ elim (dec_lt (vma i).addr (addr + len)) [
      | no above ↦ inr (omega (arith, above))
      | yes over ↦ absurd (clash (sym (both (vma i).used used under over) ∙ clear i lt))
    ]
  ]
    where
      clash : true ≡ false → ⊥
      clash p = cc

      both :
          (b : Bool)
          → b ≡ true
          → addr < (vma i).addr + (vma i).len
          → (vma i).addr < addr + len
          → (b && ltb addr (end_of (vma i)) && ltb (vma i).addr ((addr + len) % 2 ^ 64)) ≡ true
      both b e under over = ground (arith, e, under, over, fits, m.whole i lt used)

  after-IsSpace : IsSpace after
  after-IsSpace = record {
    whole = λ i lt used. elim (ℕ_discrete slot i) [
      | yes it ↦
          subst (λ k. (after k).addr + (after k).len < 2 ^ 64) it (rw (after_here, at, long) fits)
      | no other ↦
          subst (λ w. w.addr + w.len < 2 ^ 64) (sym (after_other i other))
            (m.whole i lt (ap (λ (w : VmArea). w.used) (sym (after_other i other)) ∙ used))
    ];
    apart = λ i j li lj ne ui uj. elim (ℕ_discrete slot i) [
      | yes it ↦
          let other : slot ≢ j = λ e. ne (sym it ∙ e) in
          flip (after i) (after j) (
            subst2 v (after i) (vma j) (after j) (sym after_here ∙ ap after it)
              (sym (after_other j other))
              (old_new j lj (ap (λ (w : VmArea). w.used) (sym (after_other j other)) ∙ uj)))
      | no first ↦ elim (ℕ_discrete slot j) [
        | yes it ↦
            subst2 v (after j) (vma i) (after i) (sym after_here ∙ ap after it)
              (sym (after_other i first))
              (old_new i li (ap (λ (w : VmArea). w.used) (sym (after_other i first)) ∙ ui))
        | no second ↦
            subst2 (vma j) (after j) (vma i) (after i) (sym (after_other j second))
              (sym (after_other i first))
              (m.apart i j li lj ne (ap (λ (w : VmArea). w.used) (sym (after_other i first)) ∙ ui)
                (ap (λ (w : VmArea). w.used) (sym (after_other j second)) ∙ uj))
      ]
    ];
  }
    where
      Apart : VmArea → VmArea → Type 0
      Apart a b = (a.addr + a.len ≤ b.addr) ⊎ (b.addr + b.len ≤ a.addr)

      flip : (a b : VmArea) → Apart b a → Apart a b
      flip a b (inl h) = inr h
      flip a b (inr h) = inl h

      subst2 : (b b' a a' : VmArea) → b ≡ b' → a ≡ a' → Apart a b → Apart a' b'
      subst2 b b' a a' p q h = subst (λ x. Apart a' x) p (subst (λ x. Apart x b) q h)

      old_new : (i : ℕ) → i < nvma → (vma i).used ≡ true → Apart (vma i) v
      old_new i lt used = elim (disjoint i lt used) [
        | inl h ↦ inl (omega (arith, h, at))
        | inr h ↦ inr (omega (arith, h, at, long))
      ]

  found_slot : (a : ℕ) → addr ≤ a → a < addr + len → contains a v ≡ true
  found_slot a lo hi = both v.used on
    where
      both : (b : Bool) → b ≡ true → (b && leb v.addr a && ltb a (end_of v)) ≡ true
      both b e = ground (arith, e, lo, hi, at, long, fits)

  missed_slot : (a : ℕ) → a < addr ⊎ (addr + len ≤ a) → contains a v ≡ false
  missed_slot a (inl h) = ground (arith, h, at)
  missed_slot a (inr h) = ground (arith, h, at, long, fits)

  after-Mapped : Mapped addr len v vma after
  after-Mapped = record {
    space = after-IsSpace;
    inside = λ a lo hi. elim (first_of-cases nvma (λ i. contains a (after i))) [
      | inl (_, never) ↦
          absurd
            (clash (sym (found_slot a lo hi) ∙ ap (contains a) (sym after_here) ∙ never slot low))
      | inr (i, e, f) ↦ elim (ℕ_discrete slot i) [
        | yes it ↦
            find-some a after i e
            ∙ ap (λ (w : VmArea). some (view w)) (ap after (sym it) ∙ after_here)
        | no other ↦
            let hit : contains a (vma i) ≡ true =
              ap (contains a) (sym (after_other i other)) ∙ f.hit in
            let used : (vma i).used ≡ true =
              first (vma i).used (leb (vma i).addr a) (ltb a (end_of (vma i))) hit in
            let (_, from, to) = contains_iff a (vma i) (m.whole i f.below used) hit in
            absurd (elim (disjoint i f.below used) [
              | inl h ↦ omega (arith, h, lo, to)
              | inr h ↦ omega (arith, h, hi, from)
            ])
      ]
    ];
    outside = λ a out.
        let same : (λ (i : ℕ). contains a (after i)) ≡ (λ (i : ℕ). contains a (vma i)) =
          fun_ext (λ i. elim (ℕ_discrete slot i) [
            | yes it ↦
                subst (λ k. contains a (after k) ≡ contains a (vma k)) it
                  (ap (contains a) after_here ∙ missed_slot a out ∙ sym (off a (vma slot) free))
            | no other ↦ ap (contains a) (after_other i other)
          ]) in
        let again : first_of nvma (λ i. contains a (after i))
            ≡ first_of nvma (λ i. contains a (vma i)) =
          ap (λ (f : ℕ → Bool). first_of nvma f) same in
        elim (first_of-cases nvma (λ i. contains a (vma i))) [
          | inl (e, _) ↦ find-none a after (again ∙ e) ∙ sym (find-none a vma e)
          | inr (i, e, f) ↦
              let other : slot ≢ i = λ it.
                clash (
                  sym f.hit
                  ∙ ap (λ (k : ℕ). contains a (vma k)) (sym it)
                  ∙ off a (vma slot) free) in
              find-some a after i (again ∙ e)
              ∙ ap (λ (w : VmArea). some (view w)) (after_other i other)
              ∙ sym (find-some a vma i e)
        ];
  }
    where
      clash : true ≡ false → ⊥
      clash p = cc

      first : (a b c : Bool) → (a && b && c) ≡ true → a ≡ true
      first true b c e = refl
      first false b c e = cc

      off : (a : ℕ) (w : VmArea) → w.used ≡ false → contains a w ≡ false
      off a w e = rw e refl

-- For areas of a process that neither overlap nor wrap, and a new one of less than 2 ^ 31 bytes that
-- does not wrap, `vma_map` fails and changes nothing when no entry is free or an area overlaps the new
-- one. Otherwise it succeeds: the areas still do not overlap, `vma_find` of an address in the new area
-- finds the new area, and of any other address what it found before; the file, which has less than
-- 2 ^ 31 - 1 references, has one more, and no other file. It panics only for a file without
-- references.
pub vma_map-Mapped :
    (addr len prot flags : ℕ) (file : Option ℕ) (offset : ℕ) (s : Space)
    → len < 2 ^ 31
    → addr + len < 2 ^ 64
    → IsSpace s.vma
    → ((f : ℕ) → file ≡ some f → s.refs f + 1 < 2 ^ 31)
    → ((vma_map addr len prot flags file offset s ≡ done (false, s))
        × (((i : ℕ) → i < nvma → (s.vma i).used ≡ true)
            ⊎ ((i : ℕ) × (i < nvma) × (overlaps addr len (s.vma i) ≡ true))))
      ⊎ ((vma_map addr len prot flags file offset s ≡ panic)
          × ((f : ℕ) × (file ≡ some f) × (s.refs f ≡ 0)))
      ⊎ ((t : Space) × (vma_map addr len prot flags file offset s ≡ done (true, t))
          × Mapped addr len (new_area addr len prot flags file offset) s.vma t.vma
          × ((k : ℕ) → t.refs k ≡ s.refs k + (if names k file then 1 else 0)))
unfolding vma_map new_area
vma_map-Mapped addr len prot flags file offset s short fits m small =
    elim (first_of-cases nvma (λ i. not (s.vma i).used)) [
      | inl (e, all) ↦ inl (rw (vma_map, e) refl, inl (λ i lt. is_true (s.vma i).used (all i lt)))
      | inr (slot, e, f) ↦ elim (first_of-cases nvma (λ i. overlaps addr len (s.vma i))) [
        | inr (i, g, over) ↦ inl (rw (vma_map, e, g) refl, inr (i, over.below, over.hit))
        | inl (g, clear) ↦ elim (dup-cases file s.refs small) [
          | inl (h, none_left) ↦ inr (inl (rw (vma_map, e, g, h) refl, none_left))
          | inr (refs, h, adds) ↦ inr (
              inr (
                record {
                  vma = update s.vma slot (new_area addr len prot flags file offset);
                  refs = refs;
                  total_mapped = (s.total_mapped + len) % 2 ^ 64;
                },
                rw (vma_map, e, g, h) refl,
                after-Mapped addr len slot (new_area addr len prot flags file offset) s.vma m
                    f.below (is_false (s.vma slot).used f.hit) refl refl
                    (new_area-len addr len prot flags file offset short) fits clear,
                adds,
              ))
        ]
      ]
    ]
  where
    is_true : (b : Bool) → not b ≡ false → b ≡ true
    is_true true e = refl
    is_true false e = cc

    is_false : (b : Bool) → not b ≡ true → b ≡ false
    is_false false e = refl
    is_false true e = cc
