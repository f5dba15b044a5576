-- ===== src/Vma/Held.antt =====
-- kernel/mm/vma.c: the references that the areas of a process hold, and `vma_copy`.
use os2025_yyds.Common.{
  ℕ, zero, suc, ◌+◌, ◌≤◌, ◌<◌, ◌≡◌, ◌≢◌, refl, sym, ◌∙◌, ap, subst, inl, inr, Bool, true, false,
  ◌&&◌, some, arith, if◌then◌else◌, update, Bool-cases, ◌^◌, ==_refl, ne→==, ℕ_discrete, Outcome,
  done, ◌>>=◌,
}
use os2025_yyds.Vma.{VmArea, copy_from}
use os2025_yyds.Vma.Refs.{names, dup_file-adds}

pub if_true {ℓ} : {A : Type ℓ} (b : Bool) (x y : A) → b ≡ true → (if b then x else y) ≡ x
if_true true x y e = refl
if_true false x y e = cc

pub if_false {ℓ} : {A : Type ℓ} (b : Bool) (x y : A) → b ≡ false → (if b then x else y) ≡ y
if_false false x y e = refl
if_false true x y e = cc

-- 1 when the area has a reference to the file `k`.
abbrev pub holds : ℕ → VmArea → ℕ
holds k v = if v.used && names k v.vfile then 1 else 0

pub holds-used :
    (k : ℕ) (v : VmArea) → v.used ≡ true → holds k v ≡ (if names k v.vfile then 1 else 0)
holds-used k v e = ap (λ (b : Bool). if b && names k v.vfile then 1 else 0) e

pub holds-unused : (k : ℕ) (v : VmArea) → v.used ≡ false → holds k v ≡ 0
holds-unused k v e = ap (λ (b : Bool). if b && names k v.vfile then 1 else 0) e

unfoldable pub held : ℕ → ℕ → ℕ → (ℕ → VmArea) → ℕ
held k zero i vma = 0
held k (suc n) i vma = holds k (vma i) + held k n (i + 1) vma

pub held-same :
    (k n i : ℕ) (a b : ℕ → VmArea)
    → ((j : ℕ) → i ≤ j → j < i + n → holds k (a j) ≡ holds k (b j))
    → held k n i a ≡ held k n i b
unfolding held
held-same k zero i a b same = refl
held-same k (suc n) i a b same = omega (
  arith,
  same i (omega arith) (omega arith),
  held-same k n (i + 1) a b (λ j lo hi. same j (omega (arith, lo)) (omega (arith, hi))),
)

pub other_area : (i : ℕ) (v : VmArea) (vma : ℕ → VmArea) (j : ℕ) → i ≢ j → update vma i v j ≡ vma j
other_area i v vma j ne = rw (ne→== i j ne) refl

pub this_area : (i : ℕ) (v : VmArea) (vma : ℕ → VmArea) → update vma i v i ≡ v
this_area i v vma = rw (==_refl i) refl

pub bit_le : (b : Bool) → (if b then 1 else 0) ≤ 1
bit_le b = ground arith

pub held_le : (k n i : ℕ) (vma : ℕ → VmArea) → held k n i vma ≤ n
unfolding held
held_le k zero i vma = omega arith
held_le k (suc n) i vma =
    omega (arith, bit_le ((vma i).used && names k (vma i).vfile), held_le k n (i + 1) vma)

pub copy_from-adds :
    (src : ℕ → VmArea) (n i : ℕ) (dst : ℕ → VmArea) (refs : ℕ → ℕ)
    → ((j f : ℕ) → i ≤ j → j < i + n → (src j).used ≡ true → (src j).vfile ≡ some f → 1 ≤ refs f)
    → ((k : ℕ) → refs k + n < 2 ^ 31)
    → (dst' : ℕ → VmArea) × (r : ℕ → ℕ) × (copy_from src n i dst refs ≡ done (dst', r))
      × ((k : ℕ) → r k ≡ refs k + held k n i src)
      × ((j : ℕ) → i ≤ j → j < i + n → dst' j ≡ (if (src j).used then src j else dst j))
      × ((j : ℕ) → j < i → dst' j ≡ dst j)
unfolding copy_from held
copy_from-adds src zero i dst refs opened small =
    (dst, refs, refl, λ k. omega arith, λ j lo hi. absurd (omega (arith, lo, hi)), λ j _. refl)
copy_from-adds src (suc n) i dst refs opened small = elim (Bool-cases (src i).used) [
  | inr off ↦
      let (d, r, e, adds, inside, before) =
        copy_from-adds src n (i + 1) dst refs
          (λ j f lo hi. opened j f (omega (arith, lo)) (omega (arith, hi)))
          (λ k. omega (arith, small k)) in
      (
        d,
        r,
        if_false (src i).used _ _ off ∙ e,
        λ k. let h : holds k (src i) ≡ 0 = holds-unused k (src i) off in omega (arith, adds k, h),
        λ j lo hi. elim (ℕ_discrete i j) [
          | yes it ↦
              before j (omega (arith, it))
              ∙ sym (
                  subst (λ l. (if (src l).used then src l else dst l) ≡ dst l) it
                    (if_false (src i).used _ _ off))
          | no later ↦ inside j (omega (arith, lo, later)) (omega (arith, hi))
        ],
        λ j lt. before j (omega (arith, lt)),
      )
  | inl on ↦
      let (r1, e1, one) =
        dup_file-adds (src i).vfile refs
          (λ f it. (opened i f (omega arith) (omega arith) on it, omega (arith, small f))) in
      let (d, r, e, adds, inside, before) =
        copy_from-adds src n (i + 1) (update dst i (src i)) r1
          (λ j f lo hi used it.
            omega (arith, opened j f (omega (arith, lo)) (omega (arith, hi)) used it, one f))
          (λ k. omega (arith, small k, one k, bit_le (names k (src i).vfile))) in
      (
        d,
        r,
        if_true (src i).used _ _ on
            ∙ ap
                (λ (o : Outcome (ℕ → ℕ)).
                  o >>= (λ r. copy_from src n (i + 1) (update dst i (src i)) r))
                e1
            ∙ e,
        λ k.
            let h : holds k (src i) ≡ (if names k (src i).vfile then 1 else 0) =
              holds-used k (src i) on in
            omega (arith, adds k, one k, h),
        λ j lo hi. elim (ℕ_discrete i j) [
          | yes it ↦
              before j (omega (arith, it))
              ∙ subst (λ l. update dst i (src i) l ≡ (if (src l).used then src l else dst l)) it
                  (this_area i (src i) dst ∙ sym (if_true (src i).used _ _ on))
          | no later ↦
              inside j (omega (arith, lo, later)) (omega (arith, hi))
              ∙ ap (λ (v : VmArea). if (src j).used then src j else v)
                  (other_area i (src i) dst j later)
        ],
        λ j lt.
            before j (omega (arith, lt)) ∙ other_area i (src i) dst j (λ x. omega (arith, x, lt)),
      )
]
