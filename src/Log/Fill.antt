-- ===== src/Log/Fill.antt =====
-- kernel/filesystem/log.c: what `write_log` leaves on the disk, at its end and at any crash.
use os2025_yyds.Common.{
  ℕ, ◌+◌, ◌<◌, ◌≡◌, refl, ◌∙◌, true, false, ◌&&◌, List, [], ◌∷◌, arith, ltb, leb, update, length,
}
use os2025_yyds.Log.{Log, write_one, write_from}
use os2025_yyds.Log.Region.{is_home, AllHome, Slots}
use os2025_yyds.Log.Install.{AtAllTimes}

module _ {B : Type 0} where
  Slots-new :
      (start size : ℕ) (d : ℕ → B) (tail : ℕ) (bs : List ℕ) (f g : ℕ → B)
      → AllHome start size bs
      → ((b : ℕ) → is_home start size b ≡ true → f b ≡ g b)
      → Slots start d tail bs f
      → Slots start d tail bs g
  Slots-new start size d tail [] f g home same h = tt
  Slots-new start size d tail (b ∷ bs) f g home same h =
      (h.0 ∙ same b home.0, Slots-new start size d (tail + 1) bs f g home.1 same h.1)

  -- `s'` is `s` with the log blocks from `tail` on filled from the blocks of a header.
  pub record Filled (tail : ℕ) (bs : List ℕ) (s s' : Log B) : Type 0 where
    pub same_start : s'.start ≡ s.start
    pub same_lh : s'.lh ≡ s.lh
    pub same_size : s'.size ≡ s.size
    pub same_outstanding : s'.outstanding ≡ s.outstanding
    pub disk_slots : Slots s.start s'.disk tail bs s.view
    pub view_slots : Slots s.start s'.view tail bs s.view
    pub else_disk :
        (b : ℕ)
        → (leb (s.start + tail + 1) b && ltb b (s.start + tail + 1 + length bs)) ≡ false
        → s'.disk b ≡ s.disk b
    pub else_view :
        (b : ℕ)
        → (leb (s.start + tail + 1) b && ltb b (s.start + tail + 1 + length bs)) ≡ false
        → s'.view b ≡ s.view b

  pub write_from-Filled :
      (size : ℕ) (bs : List ℕ) (tail : ℕ) (s : Log B)
      → AllHome s.start size bs
      → tail + length bs < size
      → Filled tail bs s (write_from bs tail s)
  unfolding write_from write_one
  write_from-Filled size [] tail s home fits = record {
    same_start = refl;
    same_lh = refl;
    same_size = refl;
    same_outstanding = refl;
    disk_slots = tt;
    view_slots = tt;
    else_disk = λ b out. refl;
    else_view = λ b out. refl;
  }
  write_from-Filled size (x ∷ bs) tail s home fits =
      let l = s.start + tail + 1 in
      let s1 = write_one l x s in
      let out = write_from bs (tail + 1) s1 in
      let rest = write_from-Filled size bs (tail + 1) s1 home.1 (omega arith) in
      let same : (b : ℕ) → is_home s.start size b ≡ true → s1.view b ≡ s.view b =
        λ b h. ground arith in
      record {
        same_start = rest.same_start;
        same_lh = rest.same_lh;
        same_size = rest.same_size;
        same_outstanding = rest.same_outstanding;
        disk_slots = (
          ground (arith, rest.else_disk l),
          Slots-new s.start size out.disk (tail + 1) bs s1.view s.view home.1 same rest.disk_slots,
        );
        view_slots = (
          ground (arith, rest.else_view l),
          Slots-new s.start size out.view (tail + 1) bs s1.view s.view home.1 same rest.view_slots,
        );
        else_disk = λ b out. ground (arith, rest.else_disk b);
        else_view = λ b out. ground (arith, rest.else_view b);
      }

  -- A property `P` of disks that no write to a log block breaks holds at the end, and what it
  -- implies holds at every crash point.
  pub write_from-AtAllTimes {κ μ} :
      (P : (ℕ → B) → Type κ) (R : (ℕ → B) → Type μ) (size : ℕ) (bs : List ℕ) (tail : ℕ) (s : Log B)
      → tail + length bs < size
      → ((d : ℕ → B) (b : ℕ) (v : B) → s.start < b → b < s.start + size → P d → P (update d b v))
      → ((d : ℕ → B) → P d → R d)
      → AtAllTimes P R s
      → AtAllTimes P R (write_from bs tail s)
  unfolding write_from write_one
  write_from-AtAllTimes P R size [] tail s fits keep imp h = h
  write_from-AtAllTimes P R size (x ∷ bs) tail s fits keep imp h =
      write_from-AtAllTimes P R size bs (tail + 1) (write_one (s.start + tail + 1) x s)
        (omega arith) keep imp
        (keep s.disk _ _ (omega arith) (omega arith) h.0, (imp s.disk h.0, h.1))
