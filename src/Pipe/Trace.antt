-- ===== src/Pipe/Trace.antt =====
-- kernel/proc/pipe.c: calls on one pipe, in any order.
use os2025_yyds.Common.{
  ℕ, zero, suc, ◌+◌, ◌≤◌, ◌≡◌, refl, sym, ap, subst, Bool, true, false, ◌&&◌, ◌++◌, Option, arith,
  length,
}
use os2025_yyds.Pipe.{
  Pipe, Ending, returns, fails, sleeps, pipesize, new_pipe, wake_readers, wake_writers, pipeclose,
  pipewrite, piperead,
}
use os2025_yyds.Pipe.Ring.{IsPipe, used, queue, bytes_from}
use os2025_yyds.Pipe.Write.{pipewrite-Wrote}
use os2025_yyds.Pipe.Read.{ReadEnds, piperead-ReadEnds}

abbrev pub is_failure : Ending → Bool
is_failure fails = true
is_failure _ = false

module _ (M : Type 0) where
  -- One call on the pipe, or a kill that wakes the last sleeper of a channel. In a run that is
  -- `patient` no write fails.
  pub data Step (patient : Bool) : Pipe → Pipe → Type 1 where
    writes :
        {s : Pipe} (copyin : ℕ → Option ℕ) (killed : Bool) (addr n i : ℕ)
        → (patient && is_failure (pipewrite copyin killed addr n i s).0) ≡ false
        → Step patient s (pipewrite copyin killed addr n i s).1
    reads :
        {s : Pipe} (copyout : ℕ → ℕ → M → Option M) (killed : Bool) (addr n : ℕ) (m : M)
        → Step patient s (piperead copyout killed addr n m s).2
    closes : {s : Pipe} (writable : Bool) → Step patient s (pipeclose writable s).0
    reader_killed : {s : Pipe} → Step patient s (wake_readers s)
    writer_killed : {s : Pipe} → Step patient s (wake_writers s)

  pub data Reach (patient : Bool) (s : Pipe) : Pipe → Type 1 where
    here : Reach patient s s
    next : {t u : Pipe} → Reach patient s t → Step patient t u → Reach patient s u

  pub new_pipe-IsPipe : (junk : ℕ → ℕ) → IsPipe (new_pipe junk)
  unfolding new_pipe bytes_from
  new_pipe-IsPipe junk = record {
    read_word = omega arith;
    write_word = omega arith;
    fits = omega arith;
    whole = refl;
  }

  -- The fields that the flags leave alone.
  like :
      (s t : Pipe)
      → IsPipe s
      → t.data_at ≡ s.data_at
      → (t.nread ≡ s.nread) × (t.nwrite ≡ s.nwrite)
      → (t.written ≡ s.written) × (t.taken ≡ s.taken)
      → IsPipe t
  like s t v d (r, w) (ws, ts) = record {
    read_word = omega (arith, r, v.read_word);
    write_word = omega (arith, w, v.write_word);
    fits = rw (r, w) v.fits;
    whole = rw (ws, ts, d, r, w) v.whole;
  }

  read-IsPipe :
      (copyout : ℕ → ℕ → M → Option M) (killed : Bool) (addr n : ℕ) (m m' : M) (s t : Pipe)
      (e : Ending)
      → ReadEnds copyout killed addr n m s e m' t
      → IsPipe s
      → IsPipe t
  read-IsPipe copyout killed addr n m m' s t (returns k) (_, _, u, c, e) v =
      subst IsPipe (sym e) (like u _ c.valid refl (refl, refl) (refl, refl))
  read-IsPipe copyout killed addr n m m' s t fails (_, _, _, e) v = subst IsPipe (sym e) v
  read-IsPipe copyout killed addr n m m' s t (sleeps j) (_, _, _, e) v =
      subst IsPipe (sym e) (like s _ v refl (refl, refl) (refl, refl))

  pub Step-IsPipe : {p : Bool} {s t : Pipe} → Step p s t → IsPipe s → IsPipe t
  unfolding pipeclose
  Step-IsPipe {s = s} (writes copyin killed addr n i h) v =
      (pipewrite-Wrote copyin killed addr n i s v).valid
  Step-IsPipe {s = s} {t = t} (reads copyout killed addr n m) v =
      read-IsPipe copyout killed addr n m _ s _ _ (piperead-ReadEnds copyout killed addr n m s v) v
  Step-IsPipe {s = s} {t = t} (closes true) v = like s _ v refl (refl, refl) (refl, refl)
  Step-IsPipe {s = s} {t = t} (closes false) v = like s _ v refl (refl, refl) (refl, refl)
  Step-IsPipe {s = s} {t = t} reader_killed v = like s _ v refl (refl, refl) (refl, refl)
  Step-IsPipe {s = s} {t = t} writer_killed v = like s _ v refl (refl, refl) (refl, refl)

  pub Reach-IsPipe : {p : Bool} {s t : Pipe} → Reach p s t → IsPipe s → IsPipe t
  Reach-IsPipe here v = v
  Reach-IsPipe (next r st) v = Step-IsPipe st (Reach-IsPipe r v)

  length-bytes_from : (d : ℕ → ℕ) (r n : ℕ) → length (bytes_from d r n) ≡ n
  unfolding bytes_from
  length-bytes_from d r zero = refl
  length-bytes_from d r (suc n) = ap suc (length-bytes_from d (r + 1) n)

  -- Whatever calls are made on a new pipe: the bytes that were put in are those that were taken out
  -- and those that wait in the ring, in this order, and at most PIPESIZE wait.
  pub transfer :
      (p : Bool) (junk : ℕ → ℕ) (s : Pipe)
      → Reach p (new_pipe junk) s
      → (s.written ≡ s.taken ++ queue s) × (length (queue s) ≤ pipesize)
  transfer p junk s r =
      let v = Reach-IsPipe r (new_pipe-IsPipe junk) in
      (v.whole, omega (arith, length-bytes_from s.data_at s.nread (used s), v.fits))
