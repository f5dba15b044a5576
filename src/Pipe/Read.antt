-- ===== src/Pipe/Read.antt =====
-- kernel/proc/pipe.c: `piperead`, for every outcome of the call.
use os2025_yyds.Common.{
  ℕ, zero, suc, ◌+◌, ◌%◌, ◌^◌, ◌≡◌, refl, sym, subst, ◌∙◌, ◌⊎◌, inl, inr, Bool, true, false, ◌&&◌,
  List, [], ◌∷◌, ◌++◌, Option, none, some, arith, length, Bool-cases, Option-cases,
}
use mathlib.Core.List.{append_assoc, append-nil}
use os2025_yyds.Pipe.{
  Pipe, Ending, returns, fails, sleeps, first, advance, is_empty, copy_loop, piperead,
}
use os2025_yyds.Pipe.Ring.{IsPipe, advance-IsPipe}

module _ {M : Type 0} (copyout : ℕ → ℕ → M → Option M) where
  -- The bytes are stored in the caller's memory from round `i` on, and `m` becomes `m'`.
  abbrev pub Delivered : ℕ → ℕ → List ℕ → M → M → Type 0
  Delivered addr i [] m m' = m ≡ m'
  Delivered addr i (b ∷ bs) m m' =
      (m1 : M) × (copyout ((addr + i) % 2 ^ 64) b m ≡ some m1) × Delivered addr (i + 1) bs m1 m'

  -- Why the loop stops in round `k` of `last`, and which byte is lost then: the byte that the ring
  -- has given and `copyout` refuses.
  abbrev pub ReadStops : ℕ → ℕ → ℕ → M → Pipe → List ℕ → Type 0
  ReadStops addr last k m t lost =
      ((lost ≡ []) × ((k ≡ last) ⊎ (is_empty t ≡ true)))
      ⊎ ((x : ℕ) × (lost ≡ x ∷ []) × (copyout ((addr + k) % 2 ^ 64) x m ≡ none))

  -- What the loop from round `i` with `n` rounds left does to `m` and `s`: it ends in round `k`, with
  -- `m'` and `t`.
  pub record Copied (addr n i : ℕ) (m : M) (s : Pipe) (k : ℕ) (m' : M) (t : Pipe) : Type 0 where
    pub bytes : List ℕ
    pub lost : List ℕ
    pub number : k ≡ i + length bytes
    pub delivered : Delivered addr i bytes m m'
    pub taken : t.taken ≡ s.taken ++ (bytes ++ lost)
    pub written : t.written ≡ s.written
    pub ends_open : (t.readopen ≡ s.readopen) × (t.writeopen ≡ s.writeopen)
    pub asleep : (t.readers_asleep ≡ s.readers_asleep) × (t.writers_asleep ≡ s.writers_asleep)
    pub valid : IsPipe t
    pub stops : ReadStops addr (i + n) k m' t lost

  stopped :
      (addr n i : ℕ) (m : M) (s : Pipe)
      → IsPipe s
      → (i ≡ i + n) ⊎ (is_empty s ≡ true)
      → Copied addr n i m s i m s
  stopped addr n i m s v why = record {
    bytes = [];
    lost = [];
    number = omega arith;
    delivered = refl;
    taken = sym (append-nil s.taken);
    written = refl;
    ends_open = (refl, refl);
    asleep = (refl, refl);
    valid = v;
    stops = inl (refl, why);
  }

  refused :
      (addr n i : ℕ) (m : M) (s : Pipe)
      → IsPipe s
      → is_empty s ≡ false
      → copyout ((addr + i) % 2 ^ 64) (first s) m ≡ none
      → Copied addr n i m s i m (advance s)
  unfolding advance
  refused addr n i m s v some_left e = record {
    bytes = [];
    lost = first s ∷ [];
    number = omega arith;
    delivered = refl;
    taken = refl;
    written = refl;
    ends_open = (refl, refl);
    asleep = (refl, refl);
    valid = advance-IsPipe s v some_left;
    stops = inr (first s, refl, e);
  }

  one_more :
      (addr n i k : ℕ) (m m1 m' : M) (s t : Pipe)
      → copyout ((addr + i) % 2 ^ 64) (first s) m ≡ some m1
      → Copied addr n (i + 1) m1 (advance s) k m' t
      → Copied addr (suc n) i m s k m' t
  unfolding advance
  one_more addr n i k m m1 m' s t e c = record {
    bytes = first s ∷ c.bytes;
    lost = c.lost;
    number = omega (arith, c.number);
    delivered = (m1, e, c.delivered);
    taken = c.taken ∙ append_assoc s.taken (first s ∷ []) (c.bytes ++ c.lost);
    written = c.written;
    ends_open = c.ends_open;
    asleep = c.asleep;
    valid = c.valid;
    stops = subst (λ last. ReadStops addr last k m' t c.lost) (omega arith) c.stops;
  }

  copy_loop-Copied :
      (addr n i : ℕ) (m : M) (s : Pipe)
      → IsPipe s
      → let (k, m', t) = copy_loop copyout addr n i m s in Copied addr n i m s k m' t
  unfolding copy_loop
  copy_loop-Copied addr zero i m s v = stopped addr 0 i m s v (inl (omega arith))
  copy_loop-Copied addr (suc n) i m s v = elim (Bool-cases (is_empty s)) [
    | inl empty ↦ rw empty (stopped addr (suc n) i m s v (inr empty))
    | inr left ↦ elim (Option-cases (copyout ((addr + i) % 2 ^ 64) (first s) m)) [
      | inl e ↦ rw (left, e) (refused addr (suc n) i m s v left e)
      | inr (m1, e) ↦
          rw (left, e)
            (one_more addr n i _ m m1 _ s _ e
              (copy_loop-Copied addr n (i + 1) m1 (advance s) (advance-IsPipe s v left)))
    ]
  ]

  -- What a read of up to `n` bytes does to `m` and `s`: it ends with `e`, in `m'` and `t`.
  abbrev pub ReadEnds : Bool → ℕ → ℕ → M → Pipe → Ending → M → Pipe → Type 0
  ReadEnds killed addr n m s (returns k) m' t =
      ((is_empty s && s.writeopen) ≡ false)
      × (t.writers_asleep ≡ false)
      × (u : Pipe) × Copied addr n 0 m s k m' u
      × (t ≡ record u { writers_asleep = false })
  ReadEnds killed addr n m s fails m' t =
      ((is_empty s && s.writeopen) ≡ true) × (killed ≡ true) × (m' ≡ m) × (t ≡ s)
  ReadEnds killed addr n m s (sleeps j) m' t =
      ((is_empty s && s.writeopen) ≡ true)
      × (killed ≡ false)
      × (m' ≡ m)
      × (t ≡ record s { readers_asleep = true })

  -- On a pipe that is well formed `piperead` waits or fails, changing no byte, only where the ring
  -- is empty and a writer is left. Otherwise it stores the bytes that it takes, in their order, in
  -- the caller's memory, and returns their number, when all rounds are done, the ring is empty, or
  -- `copyout` refuses a byte, which is then lost; no writer sleeps then.
  pub piperead-ReadEnds :
      (killed : Bool) (addr n : ℕ) (m : M) (s : Pipe)
      → IsPipe s
      → let (e, m', t) = piperead copyout killed addr n m s in ReadEnds killed addr n m s e m' t
  unfolding piperead
  piperead-ReadEnds killed addr n m s v = elim (Bool-cases (is_empty s && s.writeopen)) [
    | inl waits ↦ elim (Bool-cases killed) [
      | inl e ↦ rw (waits, e) (waits, refl, refl, refl)
      | inr e ↦ rw (waits, e) (waits, refl, refl, refl)
    ]
    | inr goes ↦ rw goes (goes, refl, _, copy_loop-Copied addr n 0 m s v, refl)
  ]
