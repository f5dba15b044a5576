-- ===== src/Pipe/Write.antt =====
-- kernel/proc/pipe.c: `pipewrite`, for every outcome of the call.
use os2025_yyds.Common.{
  ℕ, zero, suc, ◌+◌, ◌%◌, ◌^◌, ◌≡◌, refl, sym, subst, ◌∙◌, ◌⊎◌, inl, inr, Bool, true, false, not,
  ◌||◌, List, [], ◌∷◌, ◌++◌, Option, none, some, arith, if◌then◌else◌, length, Bool-cases,
  Option-cases,
}
use mathlib.Core.List.{append_assoc, append-nil}
use os2025_yyds.Pipe.{Pipe, Ending, returns, fails, sleeps, put, is_full, wake_readers, pipewrite}
use os2025_yyds.Pipe.Ring.{IsPipe, put-IsPipe}

-- The bytes `bs` stand in the caller's memory from round `i` on.
abbrev pub Fetched : (ℕ → Option ℕ) → ℕ → ℕ → List ℕ → Type 0
Fetched copyin addr i [] = Unit
Fetched copyin addr i (b ∷ bs) =
    (copyin ((addr + i) % 2 ^ 64) ≡ some b) × Fetched copyin addr (i + 1) bs

-- Why a write stops in round `k` of `last`.
abbrev pub WriteStops : (ℕ → Option ℕ) → Bool → ℕ → ℕ → ℕ → Pipe → Ending → Type 0
WriteStops copyin killed addr last k t (returns j) =
    (j ≡ k) × ((j ≡ last) ⊎ (copyin ((addr + j) % 2 ^ 64) ≡ none)) × (t.readers_asleep ≡ false)
WriteStops copyin killed addr last k t fails =
    (is_full t ≡ true) × ((not t.readopen || killed) ≡ true)
WriteStops copyin killed addr last k t (sleeps j) =
    (j ≡ k)
    × (is_full t ≡ true)
    × ((not t.readopen || killed) ≡ false)
    × (t.writers_asleep ≡ true)
    × (t.readers_asleep ≡ false)

-- What a write from round `i` with `n` rounds left does to the pipe `s`: it ends with `e` in `t`.
pub record Wrote (copyin : ℕ → Option ℕ) (killed : Bool) (addr n i : ℕ) (s : Pipe) (e : Ending)
    (t : Pipe) : Type 0 where
  pub bytes : List ℕ
  pub fetched : Fetched copyin addr i bytes
  pub written : t.written ≡ s.written ++ bytes
  pub taken : t.taken ≡ s.taken
  pub ends_open : (t.readopen ≡ s.readopen) × (t.writeopen ≡ s.writeopen)
  pub valid : IsPipe t
  pub stops : WriteStops copyin killed addr (i + n) (i + length bytes) t e

waking : (s : Pipe) → IsPipe s → IsPipe (wake_readers s)
waking s v = record {
  read_word = v.read_word;
  write_word = v.write_word;
  fits = v.fits;
  whole = v.whole;
}

module _ (copyin : ℕ → Option ℕ) (killed : Bool) (addr : ℕ) where
  abbrev Ends : ℕ → ℕ → Pipe → Ending × Pipe → Type 0
  Ends n i s r = Wrote copyin killed addr n i s r.0 r.1

  returned :
      (n i : ℕ) (s : Pipe)
      → IsPipe s
      → (i ≡ i + n) ⊎ (copyin ((addr + i) % 2 ^ 64) ≡ none)
      → Wrote copyin killed addr n i s (returns i) (wake_readers s)
  returned n i s v why = record {
    bytes = [];
    fetched = tt;
    written = sym (append-nil s.written);
    taken = refl;
    ends_open = (refl, refl);
    valid = waking s v;
    stops = (omega arith, why, refl);
  }

  full_ring :
      (n i : ℕ) (s : Pipe)
      → IsPipe s
      → is_full s ≡ true
      → Ends n i s (
          if not s.readopen || killed
          then (fails, s)
          else (sleeps i, record (wake_readers s) { writers_asleep = true }))
  full_ring n i s v full = elim (Bool-cases (not s.readopen || killed)) [
    | inl e ↦ rw e (record {
      bytes = [];
      fetched = tt;
      written = sym (append-nil s.written);
      taken = refl;
      ends_open = (refl, refl);
      valid = v;
      stops = (full, e);
    })
    | inr e ↦ rw e (record {
      bytes = [];
      fetched = tt;
      written = sym (append-nil s.written);
      taken = refl;
      ends_open = (refl, refl);
      valid = record {
        read_word = v.read_word;
        write_word = v.write_word;
        fits = v.fits;
        whole = v.whole;
      };
      stops = (omega arith, full, e, refl, refl);
    })
  ]

  -- A round that puts a byte, and then the other rounds.
  one_more :
      (n i : ℕ) (s : Pipe) (ch : ℕ) (r : Ending × Pipe)
      → copyin ((addr + i) % 2 ^ 64) ≡ some ch
      → Ends n (i + 1) (put ch s) r
      → Ends (suc n) i s r
  unfolding put
  one_more n i s ch r e w = record {
    bytes = ch ∷ w.bytes;
    fetched = (e, w.fetched);
    written = w.written ∙ append_assoc s.written (ch ∷ []) w.bytes;
    taken = w.taken;
    ends_open = w.ends_open;
    valid = w.valid;
    stops =
        subst (λ last. WriteStops copyin killed addr last (i + length (ch ∷ w.bytes)) r.1 r.0)
          (omega arith)
          (subst (λ k. WriteStops copyin killed addr (i + 1 + n) k r.1 r.0) (omega arith) w.stops);
  }

  -- On a pipe that is well formed `pipewrite` appends bytes of the caller's memory, in their order,
  -- takes none and keeps the pipe well formed; it returns the number of rounds that put a byte, when
  -- all rounds are done or `copyin` fails, and then no reader sleeps; it fails only where the ring is
  -- full and the read end is closed or the process killed; it sleeps only where the ring is full, the
  -- read end open and the process not killed, and then no reader sleeps.
  pub pipewrite-Wrote :
      (n i : ℕ) (s : Pipe)
      → IsPipe s
      → let (e, t) = pipewrite copyin killed addr n i s in Wrote copyin killed addr n i s e t
  unfolding pipewrite
  pipewrite-Wrote zero i s v = returned 0 i s v (inl (omega arith))
  pipewrite-Wrote (suc n) i s v = elim (Bool-cases (is_full s)) [
    | inl full ↦ rw full (full_ring (suc n) i s v full)
    | inr room ↦ elim (Option-cases (copyin ((addr + i) % 2 ^ 64))) [
      | inl e ↦ rw (room, e) (returned (suc n) i s v (inr e))
      | inr (ch, e) ↦
          rw (room, e)
            (one_more n i s ch (pipewrite copyin killed addr n (i + 1) (put ch s)) e
              (pipewrite-Wrote n (i + 1) (put ch s) (put-IsPipe s ch v room)))
    ]
  ]
