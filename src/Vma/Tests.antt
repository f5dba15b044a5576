-- ===== src/Vma/Tests.antt =====
-- kernel/mm/vma.c: runs of the model, and its theorems at concrete inputs.
use os2025_yyds.Common.{
  if◌then◌else◌, ℕ, ◌+◌, ◌^◌, ◌<◌, ◌≡◌, refl, sym, ◌∙◌, ap, ◌⊎◌, inl, inr, true, false, none, some,
  arith, ◌==◌, update, first_from, Bool-cases, ==_iff, done, panic,
}
use os2025_yyds.Vma.{
  VmArea, Space, nvma, view, vma_find, overlaps, new_area, through_int, vma_map, vma_copy,
  vma_free_all,
}
use os2025_yyds.Vma.Map.{IsSpace, Mapped, vma_map-Mapped}
use os2025_yyds.Vma.Refs.{names}
use os2025_yyds.Vma.Held.{held}
use os2025_yyds.Vma.Copy.{vma_copy-free_all}

abbrev no_area : VmArea
no_area = record { used = false; addr = 0; len = 0; prot = 0; flags = 0; vfile = none; offset = 0 }

-- An area of the file 3.
abbrev text : VmArea
text = record {
  used = true;
  addr = 4096;
  len = 8192;
  prot = 1;
  flags = 2;
  vfile = some 3;
  offset = 0;
}

abbrev one_area : ℕ → VmArea
one_area = update (λ _. no_area) 0 text

abbrev start : Space
start = record { vma = one_area; refs = λ f. 1; total_mapped = 8192 }

-- One address in the area, and one behind it.
finds : (vma_find 5000 one_area ≡ some (view text)) × (vma_find 12288 one_area ≡ none)
unfolding vma_find first_from
finds = (refl, refl)

-- A length of 2 ^ 32 is stored as 0, and no address is found in the new area.
loses : vma_find 20000 (update one_area 1 (new_area 16384 (2 ^ 32) 1 2 none 0)) ≡ none
unfolding vma_find first_from new_area through_int
loses = refl

only_first : (i : ℕ) → (one_area i).used ≡ true → 0 ≡ i
only_first i used = elim (Bool-cases (0 == i)) [
  | inl e ↦ (==_iff 0 i).0 e
  | inr e ↦ absurd (clash (sym (off i e) ∙ used))
]
  where
    clash : false ≡ true → ⊥
    clash e = cc

    off : (i : ℕ) → (0 == i) ≡ false → (one_area i).used ≡ false
    off i e = rw e refl

one_area-at : (i : ℕ) → (one_area i).used ≡ true → one_area i ≡ text
one_area-at i used = ap one_area (sym (only_first i used))

one_area-IsSpace : IsSpace one_area
one_area-IsSpace = record {
  whole = λ i lt used. rw (one_area-at i used) (omega arith);
  apart = λ i j li lj ne ui uj. absurd (ne (sym (only_first i ui) ∙ only_first j uj));
}

vma_map-Mapped_example :
    ((vma_map 12288 4096 1 2 (some 3) 0 start ≡ done (false, start))
      × (((i : ℕ) → i < nvma → (one_area i).used ≡ true)
          ⊎ ((i : ℕ) × (i < nvma) × (overlaps 12288 4096 (one_area i) ≡ true))))
    ⊎ ((vma_map 12288 4096 1 2 (some 3) 0 start ≡ panic)
        × ((f : ℕ) × (some 3 ≡ some f) × (start.refs f ≡ 0)))
    ⊎ ((t : Space) × (vma_map 12288 4096 1 2 (some 3) 0 start ≡ done (true, t))
        × Mapped 12288 4096 (new_area 12288 4096 1 2 (some 3) 0) one_area t.vma
        × ((k : ℕ) → t.refs k ≡ start.refs k + (if names k (some 3) then 1 else 0)))
vma_map-Mapped_example =
    vma_map-Mapped 12288 4096 1 2 (some 3) 0 start (omega arith) (omega arith) one_area-IsSpace
      (λ f _. omega arith)

vma_copy-free_all_example :
    (child : ℕ → VmArea) × (r : ℕ → ℕ) × (vma_copy one_area (λ _. no_area) (λ f. 1)
      ≡ done (child, r))
    × ((i : ℕ)
        → i < nvma
        → ((one_area i).used ≡ true → child i ≡ one_area i) × ((child i).used ≡ (one_area i).used))
    × ((k : ℕ) → r k ≡ 1 + held k nvma 0 one_area)
    × ((after : ℕ → VmArea) × (q : ℕ → ℕ) × (vma_free_all child r ≡ done (after, q))
        × ((k : ℕ) → q k ≡ 1)
        × ((i : ℕ) → i < nvma → (after i).used ≡ false))
vma_copy-free_all_example =
    vma_copy-free_all one_area (λ _. no_area) (λ f. 1) (λ i f _ _ _. omega arith) (λ k. omega arith)
      (λ i _. refl)
