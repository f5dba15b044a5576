-- ===== src/Pipe/Ring.antt =====
-- kernel/proc/pipe.c: the ring as a queue of bytes.
use os2025_yyds.Common.{
  ℕ, zero, suc, ◌+◌, ◌-◌, ◌%◌, ◌^◌, ◌≤◌, ◌<◌, ◌≡◌, refl, sym, ap, ◌∙◌, false, List, [], ◌∷◌, ◌++◌,
  arith, update,
}
use mathlib.Core.List.{append_assoc}
use os2025_yyds.Pipe.{Pipe, pipesize, put, advance, first, is_full, is_empty}

-- The bytes of the ring from the counter `r` on.
unfoldable pub bytes_from : (ℕ → ℕ) → ℕ → ℕ → List ℕ
bytes_from d r zero = []
bytes_from d r (suc n) = d (r % pipesize) ∷ bytes_from d (r + 1) n

-- How many bytes wait, and which.
abbrev pub used : Pipe → ℕ
used s = (s.nwrite + 2 ^ 32 - s.nread) % 2 ^ 32

abbrev pub queue : Pipe → List ℕ
queue s = bytes_from s.data_at s.nread (used s)

-- A pipe whose counters are words and whose ring holds what was written and not yet taken.
pub record IsPipe (s : Pipe) : Type 0 where
  pub read_word : s.nread < 2 ^ 32
  pub write_word : s.nwrite < 2 ^ 32
  pub fits : used s ≤ pipesize
  pub whole : s.written ≡ s.taken ++ queue s

bytes_from-same :
    (d : ℕ → ℕ) (n r r' : ℕ) → r % pipesize ≡ r' % pipesize → bytes_from d r n ≡ bytes_from d r' n
unfolding bytes_from
bytes_from-same d zero r r' h = refl
bytes_from-same d (suc n) r r' h =
    rw h (ap (λ t. d (r' % pipesize) ∷ t) (bytes_from-same d n (r + 1) (r' + 1) (omega arith)))

bytes_from-last :
    (d : ℕ → ℕ) (n r : ℕ)
    → bytes_from d r (suc n) ≡ bytes_from d r n ++ (d ((r + n) % pipesize) ∷ [])
unfolding bytes_from
bytes_from-last d zero r = ap (λ i. d (i % pipesize) ∷ []) (omega arith)
bytes_from-last d (suc n) r =
    ap (λ t. d (r % pipesize) ∷ t)
      (bytes_from-last d n (r + 1)
        ∙ ap (λ i. bytes_from d (r + 1) n ++ (d (i % pipesize) ∷ [])) (omega arith))

-- A write at a later counter, less than a round ahead, leaves the bytes before it alone.
bytes_from-update :
    (d : ℕ → ℕ) (ch n r w : ℕ)
    → r + n ≤ w
    → w < r + pipesize
    → bytes_from (update d (w % pipesize) ch) r n ≡ bytes_from d r n
unfolding bytes_from
bytes_from-update d ch zero r w lo hi = refl
bytes_from-update d ch (suc n) r w lo hi =
    ground (arith, bytes_from-update d ch n (r + 1) w (omega arith) (omega arith))

bytes_from-push :
    (d : ℕ → ℕ) (ch n m r w : ℕ)
    → m ≡ suc n
    → w % pipesize ≡ (r + n) % pipesize
    → n < pipesize
    → bytes_from (update d (w % pipesize) ch) r m ≡ bytes_from d r n ++ (ch ∷ [])
bytes_from-push d ch n m r w hm hw h =
    rw
      (
        hm,
        hw,
        bytes_from-last (update d ((r + n) % pipesize) ch) n r,
        bytes_from-update d ch n r (r + n) (omega arith) (omega arith),
      )
      (ground arith)

bytes_from-pop :
    (d : ℕ → ℕ) (n m r r' : ℕ)
    → m ≡ suc n
    → r' % pipesize ≡ (r + 1) % pipesize
    → bytes_from d r m ≡ d (r % pipesize) ∷ bytes_from d r' n
unfolding bytes_from
bytes_from-pop d n m r r' hm hr =
    rw hm (ap (λ t. d (r % pipesize) ∷ t) (bytes_from-same d n (r + 1) r' (sym hr)))

pub used-put : (s : Pipe) (ch : ℕ) → IsPipe s → is_full s ≡ false → used (put ch s) ≡ used s + 1
unfolding put
used-put s ch v h = ground (arith, v.read_word, v.write_word, v.fits)

pub used-advance : (s : Pipe) → IsPipe s → is_empty s ≡ false → used (advance s) + 1 ≡ used s
unfolding advance
used-advance s v h = ground (arith, v.read_word, v.write_word, v.fits)

-- A byte that is put into a ring that is not full comes last.
pub queue-put :
    (s : Pipe) (ch : ℕ) → IsPipe s → is_full s ≡ false → queue (put ch s) ≡ queue s ++ (ch ∷ [])
unfolding put
queue-put s ch v h =
    bytes_from-push s.data_at ch (used s) (used (put ch s)) s.nread s.nwrite
      (omega (arith, used-put s ch v h)) (omega (arith, v.read_word, v.write_word))
      (ground (arith, v.read_word, v.write_word, v.fits))

-- A ring that is not empty holds its first byte and the rest.
pub queue-advance :
    (s : Pipe) → IsPipe s → is_empty s ≡ false → queue s ≡ first s ∷ queue (advance s)
unfolding advance
queue-advance s v h =
    bytes_from-pop s.data_at (used (advance s)) (used s) s.nread (advance s).nread
      (omega (arith, used-advance s v h)) (omega (arith, v.read_word))

pub put-IsPipe : (s : Pipe) (ch : ℕ) → IsPipe s → is_full s ≡ false → IsPipe (put ch s)
unfolding put
put-IsPipe s ch v h = record {
  read_word = v.read_word;
  write_word = omega arith;
  fits = ground (arith, v.read_word, v.write_word, v.fits);
  whole =
      ap (λ l. l ++ (ch ∷ [])) v.whole
      ∙ append_assoc s.taken (queue s) (ch ∷ [])
      ∙ sym (ap (λ l. s.taken ++ l) (queue-put s ch v h));
}

pub advance-IsPipe : (s : Pipe) → IsPipe s → is_empty s ≡ false → IsPipe (advance s)
unfolding advance
advance-IsPipe s v h = record {
  read_word = omega arith;
  write_word = v.write_word;
  fits = ground (arith, v.read_word, v.write_word, v.fits);
  whole =
      v.whole
      ∙ ap (λ l. s.taken ++ l) (queue-advance s v h)
      ∙ sym (append_assoc s.taken (first s ∷ []) (queue (advance s)));
}
