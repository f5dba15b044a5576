-- ===== src/Log/Install.antt =====
-- kernel/filesystem/log.c: what `install_trans` leaves on the disk, at its end and at any crash.
use os2025_yyds.Common.{
  ℕ, ◌+◌, ◌<◌, ◌≡◌, refl, subst, ◌≢◌, List, [], ◌∷◌, arith, ◌==◌, if◌then◌else◌, update, length,
  count, All,
}
use os2025_yyds.Log.{Log, install_one, install_from}
use os2025_yyds.Log.Region.{AllHome, Slots, Slots-update}

module _ {B : Type 0} where
  -- `P` holds of the disk, and `R` of each state that it had before: what a crash may have left.
  abbrev pub AtAllTimes {κ μ} : ((ℕ → B) → Type κ) → ((ℕ → B) → Type μ) → Log B → Type (κ ⊔ μ)
  AtAllTimes P R s = P s.disk × All R s.past

  -- `s'` is `s` with the blocks of a header replaced by what `new` gives.
  pub record Installed (bs : List ℕ) (new : ℕ → B) (s s' : Log B) : Type 0 where
    pub same_start : s'.start ≡ s.start
    pub same_lh : s'.lh ≡ s.lh
    pub same_size : s'.size ≡ s.size
    pub same_outstanding : s'.outstanding ≡ s.outstanding
    pub on_disk : (b : ℕ) → s'.disk b ≡ (if count b bs == 0 then s.disk b else new b)
    pub in_view : (b : ℕ) → s'.view b ≡ (if count b bs == 0 then s.view b else new b)

  pub install_from-Installed :
      (size : ℕ) (bs : List ℕ) (tail : ℕ) (new : ℕ → B) (s : Log B)
      → AllHome s.start size bs
      → tail + length bs < size
      → Slots s.start s.view tail bs new
      → Installed bs new s (install_from bs tail s)
  unfolding install_from install_one
  install_from-Installed size [] tail new s home fits slots = record {
    same_start = refl;
    same_lh = refl;
    same_size = refl;
    same_outstanding = refl;
    on_disk = λ b. refl;
    in_view = λ b. refl;
  }
  install_from-Installed size (x ∷ bs) tail new s home fits slots =
      let s1 = install_one (s.start + tail + 1) x s in
      let rest =
        install_from-Installed size bs (tail + 1) new s1 home.1 (omega arith)
          (Slots-update s.start s.view (tail + 1) bs new x _ (ground arith) slots.1) in
      record {
        same_start = rest.same_start;
        same_lh = rest.same_lh;
        same_size = rest.same_size;
        same_outstanding = rest.same_outstanding;
        on_disk = λ b. ground (arith, rest.on_disk b);
        in_view = λ b. ground (arith, rest.in_view b);
      }

  written : (s : Log B) (l x : ℕ) (v : B) → s.view l ≡ v → v ≡ update s.view x (s.view l) x
  written s l x v e = ground arith

  -- A property `P` of disks that survives the single writes holds at the end, and what it implies
  -- holds at every crash point.
  pub install_from-AtAllTimes {κ μ} :
      (P : (ℕ → B) → Type κ) (R : (ℕ → B) → Type μ) (size : ℕ) (bs : List ℕ) (tail : ℕ)
      (new : ℕ → B) (s : Log B)
      → AllHome s.start size bs
      → tail + length bs < size
      → Slots s.start s.view tail bs new
      → ((d : ℕ → B) (b : ℕ) → count b bs ≢ 0 → P d → P (update d b (new b)))
      → ((d : ℕ → B) → P d → R d)
      → AtAllTimes P R s
      → AtAllTimes P R (install_from bs tail s)
  unfolding install_from install_one
  install_from-AtAllTimes P R size [] tail new s home fits slots keep imp h = h
  install_from-AtAllTimes P R size (x ∷ bs) tail new s home fits slots keep imp h =
      install_from-AtAllTimes P R size bs (tail + 1) new (install_one (s.start + tail + 1) x s)
        home.1 (omega arith)
        (Slots-update s.start s.view (tail + 1) bs new x _ (ground arith) slots.1)
        (λ d b ne p. keep d b (omega arith) p) imp
        (
          subst (λ v. P (update s.disk x v)) (written s (s.start + tail + 1) x (new x) slots.0)
              (keep s.disk x (ground arith) h.0),
          (imp s.disk h.0, h.1),
        )
