-- ===== src/Bio/System.antt =====
-- kernel/filesystem/bio.c: the buffer cache under all its operations, in any order.
use os2025_yyds.Common.{ℕ, ◌≡◌, refl, sym, ap, subst, ◌∙◌, inl, inr, done, done-injective}
use os2025_yyds.Bio.{Bcache, binit, bget, fill, bwrite, brelse, bpin, bunpin, modify}
use os2025_yyds.Bio.Invariant.{IsBcache, set_buf-IsBcache}
use os2025_yyds.Bio.Get.{bget-Got, binit-IsBcache}
use os2025_yyds.Bio.Read.{fill-IsBcache}

module _ {B : Type 0} where
  pub data Step (s : Bcache B) : Bcache B → Type 0 where
    got : (now dev blockno b : ℕ) (t : Bcache B) → bget now dev blockno s ≡ done (b, t) → Step s t
    filled : (b : ℕ) → Step s (fill b s)
    modified : (b : ℕ) (v : B) → Step s (modify b v s)
    wrote : (b : ℕ) → Step s (bwrite b s)
    released : (now b : ℕ) → Step s (brelse now b s)
    pinned : (b : ℕ) → Step s (bpin b s)
    unpinned : (b : ℕ) → Step s (bunpin b s)

  pub data Reach (zeroes : B) (disk : ℕ → ℕ → B) : Bcache B → Type 0 where
    boot : Reach zeroes disk (binit zeroes disk)
    next : (s t : Bcache B) → Reach zeroes disk s → Step s t → Reach zeroes disk t

  bget-IsBcache :
      (now dev blockno b : ℕ) (s t : Bcache B)
      → IsBcache s
      → bget now dev blockno s ≡ done (b, t)
      → IsBcache t
  bget-IsBcache now dev blockno b s t v e = elim (bget-Got now dev blockno s v) [
    | inl (f, _) ↦ cc
    | inr (c, u, f, g) ↦ subst IsBcache (ap (λ r. r.1) (done-injective (sym f ∙ e))) g.valid_state
  ]

  bwrite-IsBcache : (b : ℕ) (s : Bcache B) → IsBcache s → IsBcache (bwrite b s)
  unfolding bwrite
  bwrite-IsBcache b s v = record { placed = v.placed; hashed = v.hashed; unique = v.unique }

  Step-IsBcache : (s t : Bcache B) → IsBcache s → Step s t → IsBcache t
  unfolding brelse bpin bunpin
  Step-IsBcache s t v (got now dev blockno b u e) = bget-IsBcache now dev blockno b s u v e
  Step-IsBcache s t v (filled b) = fill-IsBcache b s v
  Step-IsBcache s t v (modified b w) = set_buf-IsBcache s b _ refl refl v
  Step-IsBcache s t v (wrote b) = bwrite-IsBcache b s v
  Step-IsBcache s t v (released now b) = set_buf-IsBcache s b _ refl refl v
  Step-IsBcache s t v (pinned b) = set_buf-IsBcache s b _ refl refl v
  Step-IsBcache s t v (unpinned b) = set_buf-IsBcache s b _ refl refl v

  -- In every state that the operations reach from `binit`, each buffer is on one bucket, once, which
  -- is the bucket of its block, and no two buffers have the same block of a device other than 0.
  pub Reach-IsBcache :
      (zeroes : B) (disk : ℕ → ℕ → B) (s : Bcache B) → Reach zeroes disk s → IsBcache s
  Reach-IsBcache zeroes disk s boot = binit-IsBcache zeroes disk
  Reach-IsBcache zeroes disk s (next r t reach step) =
      Step-IsBcache r t (Reach-IsBcache zeroes disk r reach) step
