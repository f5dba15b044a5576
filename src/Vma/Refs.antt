-- ===== src/Vma/Refs.antt =====
-- kernel/filesystem/file.c: what a new reference to a file and the end of one change.
use os2025_yyds.Common.{
  ℕ, ◌+◌, ◌-◌, ◌≤◌, ◌<◌, ◌≡◌, refl, subst, Bool, false, Option, none, some, arith, ◌==◌,
  if◌then◌else◌, update, ◌%◌, ◌^◌, ==_refl, ne→==, ℕ_discrete, done,
}
use os2025_yyds.Vma.{filedup, fileclose, is_closed, dup_file, close_file}

abbrev pub names : ℕ → Option ℕ → Bool
names k none = false
names k (some f) = f == k

pub dup_file-adds :
    (file : Option ℕ) (refs : ℕ → ℕ)
    → ((f : ℕ) → file ≡ some f → (1 ≤ refs f) × (refs f + 1 < 2 ^ 31))
    → (r : ℕ → ℕ) × (dup_file file refs ≡ done r)
      × ((k : ℕ) → r k ≡ refs k + (if names k file then 1 else 0))
unfolding filedup
dup_file-adds none refs opened = (refs, refl, λ k. omega arith)
dup_file-adds (some f) refs opened =
    let (one, small) = opened f refl in
    let full : is_closed (refs f) ≡ false = ground (arith, one, small) in
    let up : (refs f + 1) % 2 ^ 32 ≡ refs f + 1 = omega (arith, small) in
    (
      update refs f ((refs f + 1) % 2 ^ 32),
      rw full refl,
      λ k. elim (ℕ_discrete f k) [
        | yes it ↦
            subst
              (λ l. update refs f ((refs f + 1) % 2 ^ 32) l ≡ refs l + (if f == l then 1 else 0)) it
              (rw (==_refl f) up)
        | no other ↦ rw (ne→== f k other) (omega arith)
      ],
    )

pub close_file-takes :
    (file : Option ℕ) (refs : ℕ → ℕ)
    → ((f : ℕ) → file ≡ some f → (1 ≤ refs f) × (refs f < 2 ^ 31))
    → (r : ℕ → ℕ) × (close_file file refs ≡ done r)
      × ((k : ℕ) → r k + (if names k file then 1 else 0) ≡ refs k)
unfolding fileclose
close_file-takes none refs opened = (refs, refl, λ k. omega arith)
close_file-takes (some f) refs opened =
    let (one, small) = opened f refl in
    let full : is_closed (refs f) ≡ false = ground (arith, one, small) in
    (
      update refs f (refs f - 1),
      rw full refl,
      λ k. elim (ℕ_discrete f k) [
        | yes it ↦
            subst (λ l. update refs f (refs f - 1) l + (if f == l then 1 else 0) ≡ refs l) it
              (rw (==_refl f) (omega (arith, one)))
        | no other ↦ rw (ne→== f k other) (omega arith)
      ],
    )
