-- ===== src/Pipe/Sleep.antt =====
-- kernel/proc/pipe.c: who sleeps on a pipe, and when nobody wakes them.
use os2025_yyds.Common.{
  ℕ, zero, suc, ◌+◌, ◌%◌, ◌^◌, ◌<◌, ◌≡◌, refl, sym, subst, Bool, true, false, not, ◌&&◌, ◌||◌,
  Option, some, inl, inr, arith, Bool-cases, Option-cases,
}
use os2025_yyds.Pipe.{
  Pipe, Ending, returns, fails, sleeps, pipesize, new_pipe, pipeclose, put, is_full, is_empty,
  pipewrite,
}
use os2025_yyds.Pipe.Ring.{IsPipe, used, used-put, put-IsPipe}
use os2025_yyds.Pipe.Write.{WriteStops, pipewrite-Wrote}
use os2025_yyds.Pipe.Read.{ReadEnds, piperead-ReadEnds}
use os2025_yyds.Pipe.Trace.{
  Step, writes, reads, closes, reader_killed, writer_killed, Reach, here, next, is_failure,
  Reach-IsPipe, new_pipe-IsPipe,
}

-- A writer sleeps only while the ring is full and can still be read, and never beside a reader.
abbrev WritersCalm : Pipe → Type 0
WritersCalm s =
    ((s.writers_asleep && not (is_full s && s.readopen)) ≡ false)
    × ((s.readers_asleep && s.writers_asleep) ≡ false)

-- A reader sleeps only while the ring is empty and can still be written.
abbrev ReadersCalm : Pipe → Type 0
ReadersCalm s = (s.readers_asleep && not (is_empty s && s.writeopen)) ≡ false

pipewrite-WritersCalm :
    (copyin : ℕ → Option ℕ) (killed : Bool) (addr n i : ℕ) (s : Pipe)
    → WritersCalm s
    → WritersCalm (pipewrite copyin killed addr n i s).1
unfolding pipewrite put
pipewrite-WritersCalm copyin killed addr zero i s c = ground (arith, c.0, c.1)
pipewrite-WritersCalm copyin killed addr (suc n) i s c = elim (Bool-cases (is_full s)) [
  | inl full ↦ elim (Bool-cases (not s.readopen || killed)) [
    | inl e ↦ rw (full, e) c
    | inr e ↦ ground (arith, full, e)
  ]
  | inr room ↦ elim (Option-cases (copyin ((addr + i) % 2 ^ 64))) [
    | inl e ↦ rw (room, e) (ground (arith, c.0, c.1))
    | inr (ch, e) ↦
        rw (room, e)
          (pipewrite-WritersCalm copyin killed addr n (i + 1) (put ch s)
            (ground (arith, room, c.0, c.1)))
  ]
]

module _ (M : Type 0) where
  read-WritersCalm :
      (copyout : ℕ → ℕ → M → Option M) (killed : Bool) (addr n : ℕ) (m m' : M) (s t : Pipe)
      (e : Ending)
      → ReadEnds copyout killed addr n m s e m' t
      → IsPipe s
      → WritersCalm s
      → WritersCalm t
  read-WritersCalm copyout killed addr n m m' s t (returns k) (_, _, u, _, e) v c =
      subst WritersCalm (sym e) (ground arith)
  read-WritersCalm copyout killed addr n m m' s t fails (_, _, _, e) v c =
      subst WritersCalm (sym e) c
  read-WritersCalm copyout killed addr n m m' s t (sleeps j) (w, _, _, e) v c =
      subst WritersCalm (sym e) (ground (arith, w, c.0, c.1, v.read_word))

  Step-WritersCalm :
      {p : Bool} {s t : Pipe} → Step M p s t → IsPipe s → WritersCalm s → WritersCalm t
  unfolding pipeclose
  Step-WritersCalm {s = s} (writes copyin killed addr n i h) v c =
      pipewrite-WritersCalm copyin killed addr n i s c
  Step-WritersCalm {s = s} (reads copyout killed addr n m) v c =
      read-WritersCalm copyout killed addr n m _ s _ _
        (piperead-ReadEnds copyout killed addr n m s v) v c
  Step-WritersCalm {s = s} (closes true) v c = ground (arith, c.0, c.1)
  Step-WritersCalm {s = s} (closes false) v c = ground (arith, c.0, c.1)
  Step-WritersCalm {s = s} reader_killed v c = ground (arith, c.0, c.1)
  Step-WritersCalm {s = s} writer_killed v c = ground (arith, c.0, c.1)

  -- Whatever calls are made on a new pipe: a writer sleeps only while the ring is full and the read
  -- end open, and no reader sleeps while a writer does.
  pub writers_wake :
      (p : Bool) (junk : ℕ → ℕ) (s : Pipe)
      → Reach M p (new_pipe junk) s
      → ((s.writers_asleep && not (is_full s && s.readopen)) ≡ false)
        × ((s.readers_asleep && s.writers_asleep) ≡ false)
  unfolding new_pipe
  writers_wake p junk s here = (refl, refl)
  writers_wake p junk s (next {t = t} r st) =
      Step-WritersCalm st (Reach-IsPipe M r (new_pipe-IsPipe M junk)) (writers_wake p junk t r)

  -- A write that does not fail leaves no reader asleep.
  write-ReadersCalm :
      (copyin : ℕ → Option ℕ) (killed : Bool) (addr last k : ℕ) (t : Pipe) (e : Ending)
      → WriteStops copyin killed addr last k t e
      → is_failure e ≡ false
      → ReadersCalm t
  write-ReadersCalm copyin killed addr last k t (returns j) (_, _, a) h = ground (arith, a)
  write-ReadersCalm copyin killed addr last k t fails w h = cc
  write-ReadersCalm copyin killed addr last k t (sleeps j) (_, _, _, _, a) h = ground (arith, a)

  read-ReadersCalm :
      (copyout : ℕ → ℕ → M → Option M) (killed : Bool) (addr n : ℕ) (m m' : M) (s t : Pipe)
      (e : Ending)
      → ReadEnds copyout killed addr n m s e m' t
      → ReadersCalm s
      → ReadersCalm t
  read-ReadersCalm copyout killed addr n m m' s t (returns k) (w, _, u, cp, e) c =
      subst ReadersCalm (sym e) (ground (arith, w, c, cp.asleep.0))
  read-ReadersCalm copyout killed addr n m m' s t fails (_, _, _, e) c = subst ReadersCalm (sym e) c
  read-ReadersCalm copyout killed addr n m m' s t (sleeps j) (w, _, _, e) c =
      subst ReadersCalm (sym e) (ground (arith, w))

  Step-ReadersCalm : {s t : Pipe} → Step M true s t → IsPipe s → ReadersCalm s → ReadersCalm t
  unfolding pipeclose
  Step-ReadersCalm {s = s} (writes copyin killed addr n i h) v c =
      write-ReadersCalm copyin killed addr _ _ (pipewrite copyin killed addr n i s).1 _
        (pipewrite-Wrote copyin killed addr n i s v).stops h
  Step-ReadersCalm {s = s} (reads copyout killed addr n m) v c =
      read-ReadersCalm copyout killed addr n m _ s _ _
        (piperead-ReadEnds copyout killed addr n m s v) c
  Step-ReadersCalm {s = s} (closes true) v c = ground (arith, c)
  Step-ReadersCalm {s = s} (closes false) v c = ground (arith, c)
  Step-ReadersCalm {s = s} reader_killed v c = ground (arith, c)
  Step-ReadersCalm {s = s} writer_killed v c = ground (arith, c)

  -- Whatever calls are made on a new pipe, when no write fails: a reader sleeps only while the ring
  -- is empty and the write end open.
  pub readers_wake :
      (junk : ℕ → ℕ) (s : Pipe)
      → Reach M true (new_pipe junk) s
      → (s.readers_asleep && not (is_empty s && s.writeopen)) ≡ false
  unfolding new_pipe
  readers_wake junk s here = refl
  readers_wake junk s (next {t = t} r st) =
      Step-ReadersCalm st (Reach-IsPipe M r (new_pipe-IsPipe M junk)) (readers_wake junk t r)

-- A killed process that writes more than the ring has room for, from memory that can be read: the
-- call fails although it has filled the ring, and readers that slept before still sleep.
pub killed_write_wakes_nobody :
    (byte : ℕ → ℕ) (addr n i : ℕ) (s : Pipe)
    → IsPipe s
    → pipesize < used s + n
    → let (e, t) = pipewrite (λ a. some (byte a)) true addr n i s in
      (e ≡ fails) × (is_full t ≡ true) × (t.readers_asleep ≡ s.readers_asleep)
unfolding pipewrite put
killed_write_wakes_nobody byte addr zero i s v h = absurd (omega (arith, v.fits))
killed_write_wakes_nobody byte addr (suc n) i s v h = elim (Bool-cases (is_full s)) [
  | inl full ↦
      let kill : (not s.readopen || true) ≡ true = ground arith in
      rw (full, kill) (refl, full, refl)
  | inr room ↦ rw room (
      killed_write_wakes_nobody byte addr n (i + 1) (put (byte ((addr + i) % 2 ^ 64)) s)
        (put-IsPipe s _ v room) (omega (arith, used-put s (byte ((addr + i) % 2 ^ 64)) v room)))
]
