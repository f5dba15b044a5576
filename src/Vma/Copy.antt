-- ===== src/Vma/Copy.antt =====
-- kernel/mm/vma.c: what `vma_copy` takes at a fork, `vma_free_all` gives back.
use os2025_yyds.Common.{
  ℕ, zero, suc, ◌+◌, ◌≤◌, ◌<◌, ◌≡◌, refl, sym, ◌∙◌, ap, subst, inl, inr, true, false, some, arith,
  if◌then◌else◌, update, Bool-cases, ◌^◌, ==_refl, ℕ_discrete, Outcome, done, ◌>>=◌,
}
use os2025_yyds.Vma.{VmArea, nvma, vma_copy, free_from, vma_free_all}
use os2025_yyds.Vma.Refs.{names, close_file-takes}
use os2025_yyds.Vma.Held.{
  if_false, if_true, if_false, holds, holds-used, holds-unused, held, held-same, other_area,
  this_area, held_le, copy_from-adds,
}

free_from-takes :
    (n i : ℕ) (vma : ℕ → VmArea) (refs : ℕ → ℕ)
    → ((k : ℕ) → held k n i vma ≤ refs k)
    → ((k : ℕ) → refs k < 2 ^ 31)
    → (vma' : ℕ → VmArea) × (r : ℕ → ℕ) × (free_from n i vma refs ≡ done (vma', r))
      × ((k : ℕ) → r k + held k n i vma ≡ refs k)
      × ((j : ℕ) → i ≤ j → j < i + n → (vma' j).used ≡ false)
      × ((j : ℕ) → j < i → vma' j ≡ vma j)
unfolding free_from held
free_from-takes zero i vma refs enough small =
    (vma, refs, refl, λ k. omega arith, λ j lo hi. absurd (omega (arith, lo, hi)), λ j _. refl)
free_from-takes (suc n) i vma refs enough small = elim (Bool-cases (vma i).used) [
  | inr off ↦
      let none_here : (k : ℕ) → holds k (vma i) ≡ 0 = λ k. holds-unused k (vma i) off in
      let (d, r, e, takes, inside, before) =
        free_from-takes n (i + 1) vma refs (λ k. omega (arith, enough k, none_here k)) small in
      (
        d,
        r,
        if_false (vma i).used _ _ off ∙ e,
        λ k. omega (arith, takes k, none_here k),
        λ j lo hi. elim (ℕ_discrete i j) [
          | yes it ↦
              ap (λ (v : VmArea). v.used) (before j (omega (arith, it)))
              ∙ subst (λ l. (vma l).used ≡ false) it off
          | no later ↦ inside j (omega (arith, lo, later)) (omega (arith, hi))
        ],
        λ j lt. before j (omega (arith, lt)),
      )
  | inl on ↦
      let w : VmArea = record (vma i) { used = false } in
      let here : (k : ℕ) → holds k (vma i) ≡ (if names k (vma i).vfile then 1 else 0) =
        λ k. holds-used k (vma i) on in
      let same : (k : ℕ) → held k n (i + 1) (update vma i w) ≡ held k n (i + 1) vma = λ k.
        held-same k n (i + 1) (update vma i w) vma
          (λ j lo _. ap (holds k) (other_area i w vma j (λ x. omega (arith, x, lo)))) in
      let (r1, e1, one) = close_file-takes (vma i).vfile refs (λ f it.
        let named : ◌≡◌ {A = ℕ} (if names f (vma i).vfile then 1 else 0) 1 =
          rw (it, ==_refl f) refl in
        (omega (arith, enough f, here f, named), small f)) in
      let (d, r, e, takes, inside, before) =
        free_from-takes n (i + 1) (update vma i w) r1
          (λ k. omega (arith, same k, one k, here k, enough k))
          (λ k. omega (arith, one k, small k)) in
      (
        d,
        r,
        if_true (vma i).used _ _ on
            ∙ ap (λ (o : Outcome (ℕ → ℕ)). o >>= (λ r. free_from n (i + 1) (update vma i w) r)) e1
            ∙ e,
        λ k. omega (arith, takes k, same k, one k, here k),
        λ j lo hi. elim (ℕ_discrete i j) [
          | yes it ↦
              ap (λ (v : VmArea). v.used)
                (before j (omega (arith, it))
                  ∙ subst (λ l. update vma i w l ≡ w) it (this_area i w vma))
          | no later ↦ inside j (omega (arith, lo, later)) (omega (arith, hi))
        ],
        λ j lt. before j (omega (arith, lt)) ∙ other_area i w vma j (λ x. omega (arith, x, lt)),
      )
]

-- When each file of a parent's areas has a reference, no file has more than 2 ^ 31 - 17 of them, and
-- the child has no area, `vma_copy` does not panic: the child gets the areas of the parent, and each
-- file one reference more for each of them. `vma_free_all` of the child then does not panic either,
-- leaves it without an area, and each file with the references that it had before the copy.
pub vma_copy-free_all :
    (src dst : ℕ → VmArea) (refs : ℕ → ℕ)
    → ((i f : ℕ) → i < nvma → (src i).used ≡ true → (src i).vfile ≡ some f → 1 ≤ refs f)
    → ((k : ℕ) → refs k + nvma < 2 ^ 31)
    → ((i : ℕ) → i < nvma → (dst i).used ≡ false)
    → (child : ℕ → VmArea) × (r : ℕ → ℕ) × (vma_copy src dst refs ≡ done (child, r))
      × ((i : ℕ)
          → i < nvma
          → ((src i).used ≡ true → child i ≡ src i) × ((child i).used ≡ (src i).used))
      × ((k : ℕ) → r k ≡ refs k + held k nvma 0 src)
      × ((after : ℕ → VmArea) × (q : ℕ → ℕ) × (vma_free_all child r ≡ done (after, q))
          × ((k : ℕ) → q k ≡ refs k)
          × ((i : ℕ) → i < nvma → (after i).used ≡ false))
unfolding vma_copy vma_free_all
vma_copy-free_all src dst refs opened small empty =
    let (child, r, e, adds, inside, _) =
      copy_from-adds src nvma 0 dst refs (λ j f _ hi. opened j f (omega (arith, hi))) small in
    let got : (i : ℕ) → i < nvma → child i ≡ (if (src i).used then src i else dst i) =
      λ i lt. inside i (omega arith) (omega (arith, lt)) in
    let same : (k : ℕ) → held k nvma 0 child ≡ held k nvma 0 src = λ k.
      held-same k nvma 0 child src
        (λ j _ hi. alike k j (omega (arith, hi)) child (got j (omega (arith, hi)))) in
    let (after, q, g, takes, cleared, _) =
      free_from-takes nvma 0 child r (λ k. omega (arith, same k, adds k))
        (λ k. omega (arith, adds k, small k, held_le k nvma 0 src)) in
    (
      child,
      r,
      e,
      λ i lt. (
        λ on. got i lt ∙ if_true (src i).used _ _ on,
        elim (Bool-cases (src i).used) [
          | inl on ↦ ap (λ (v : VmArea). v.used) (got i lt ∙ if_true (src i).used _ _ on)
          | inr off ↦
              ap (λ (v : VmArea). v.used) (got i lt ∙ if_false (src i).used _ _ off)
              ∙ empty i lt
              ∙ sym off
        ],
      ),
      adds,
      (
        after,
        q,
        g,
        λ k. omega (arith, takes k, same k, adds k),
        λ i lt. cleared i (omega arith) (omega (arith, lt)),
      ),
    )
  where
    alike :
        (k j : ℕ)
        → j < nvma
        → (child : ℕ → VmArea) → child j ≡ (if (src j).used then src j else dst j)
        → holds k (child j) ≡ holds k (src j)
    alike k j lt child it = elim (Bool-cases (src j).used) [
      | inl on ↦ ap (holds k) (it ∙ if_true (src j).used _ _ on)
      | inr off ↦
          ap (holds k) (it ∙ if_false (src j).used _ _ off)
          ∙ holds-unused k (dst j) (empty j lt)
          ∙ sym (holds-unused k (src j) off)
    ]
