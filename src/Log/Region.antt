-- ===== src/Log/Region.antt =====
-- kernel/filesystem/log.c: the blocks of the log on the disk, and the headers that are well formed.
use os2025_yyds.Common.{
  ℕ, ◌+◌, ◌≡◌, Bool, true, false, not, ◌&&◌, List, [], ◌∷◌, arith, ltb, leb, if◌then◌else◌, update,
  length, count, refl, fun_ext, Option, none, some, inl, inr, Bool-cases,
}

-- The blocks outside the log: those that `install_trans` may write.
abbrev pub is_home : ℕ → ℕ → ℕ → Bool
is_home start size b = not (leb start b && ltb b (start + size))

-- What a disk holds outside the log.
abbrev pub home_part {ℓ} : {A : Type ℓ} → ℕ → ℕ → (ℕ → A) → ℕ → Option A
home_part start size d b = if is_home start size b then some (d b) else none

pub home_part_ext {ℓ} :
    {A : Type ℓ} (start size : ℕ) (d e : ℕ → A)
    → ((b : ℕ) → is_home start size b ≡ true → d b ≡ e b)
    → home_part start size d ≡ home_part start size e
home_part_ext start size d e h = fun_ext λ b. elim (Bool-cases (is_home start size b)) [
  | inl at ↦ rw (at, h b at) refl
  | inr out ↦ rw out refl
]

-- Every block of a header is at home.
abbrev pub AllHome : ℕ → ℕ → List ℕ → Type 0
AllHome start size [] = Unit {0}
AllHome start size (b ∷ bs) = (is_home start size b ≡ true) × AllHome start size bs

-- No block stands twice in a header.
abbrev pub Distinct : List ℕ → Type 0
Distinct [] = Unit {0}
Distinct (b ∷ bs) = (count b bs ≡ 0) × Distinct bs

pub AllHome-count :
    (start size : ℕ) (bs : List ℕ) (b : ℕ)
    → AllHome start size bs
    → is_home start size b ≡ false
    → count b bs ≡ 0
AllHome-count start size [] b h out = refl
AllHome-count start size (x ∷ bs) b h out = ground (arith, AllHome-count start size bs b h.1 out)

module _ {B : Type 0} (start : ℕ) where
  -- The log blocks from `tail` on hold what `new` gives for the blocks of a header.
  abbrev pub Slots : (ℕ → B) → ℕ → List ℕ → (ℕ → B) → Type 0
  Slots d tail [] new = Unit {0}
  Slots d tail (b ∷ bs) new = (d (start + tail + 1) ≡ new b) × Slots d (tail + 1) bs new

  -- A write outside these log blocks leaves them alone.
  pub Slots-update :
      (d : ℕ → B) (tail : ℕ) (bs : List ℕ) (new : ℕ → B) (b : ℕ) (v : B)
      → (leb (start + tail + 1) b && ltb b (start + tail + 1 + length bs)) ≡ false
      → Slots d tail bs new
      → Slots (update d b v) tail bs new
  Slots-update d tail [] new b v out h = tt
  Slots-update d tail (x ∷ bs) new b v out h =
      (ground arith, Slots-update d (tail + 1) bs new b v (ground arith) h.1)
