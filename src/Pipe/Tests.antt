-- ===== src/Pipe/Tests.antt =====
-- kernel/proc/pipe.c: runs of the model, and its theorems at concrete inputs.
use os2025_yyds.Common.{
  ℕ, ◌-◌, ◌^◌, ◌≤◌, ◌≡◌, refl, true, false, not, ◌&&◌, List, [], ◌∷◌, ◌++◌, Option, none, some,
  arith, if◌then◌else◌, ltb, length,
}
use os2025_yyds.Pipe.{
  Pipe, pipesize, new_pipe, returns, fails, is_full, is_empty, put, advance, pipewrite, copy_loop,
  piperead,
}
use os2025_yyds.Pipe.Ring.{IsPipe, bytes_from, queue}
use os2025_yyds.Pipe.Write.{Wrote, pipewrite-Wrote}
use os2025_yyds.Pipe.Read.{ReadEnds, piperead-ReadEnds}
use os2025_yyds.Pipe.Trace.{Reach, here, next, writes, reads, transfer}
use os2025_yyds.Pipe.Sleep.{writers_wake, readers_wake, killed_write_wakes_nobody}

-- A ring near the end of its counters: one byte waits, and a reader sleeps.
abbrev late : Pipe
late = record {
  data_at = λ i. i;
  nread = 2 ^ 32 - 2;
  nwrite = 2 ^ 32 - 1;
  readopen = true;
  writeopen = true;
  readers_asleep = true;
  writers_asleep = false;
  written = 510 ∷ [];
  taken = [];
}

late-IsPipe : IsPipe late
unfolding bytes_from
late-IsPipe = record {
  read_word = omega arith;
  write_word = omega arith;
  fits = omega arith;
  whole = refl;
}

-- Memory with the byte `a` at the address `a`, readable below 1000.
abbrev memory : ℕ → Option ℕ
memory a = if ltb a 1000 then some a else none

-- A list of the stored bytes in place of a memory, with room for two.
abbrev store : ℕ → ℕ → List ℕ → Option (List ℕ)
store a b m = if ltb (length m) 2 then some (m ++ (b ∷ [])) else none

write_stops : (pipewrite memory false 998 5 0 late).0 ≡ returns 2
unfolding pipewrite put
write_stops = refl

read_loses : (piperead store false 0 5 [] (pipewrite memory false 998 5 0 late).1).0 ≡ returns 2
unfolding pipewrite put piperead copy_loop advance
read_loses = refl

pipewrite-Wrote_example :
    let (e, t) = pipewrite memory false 998 5 0 late in Wrote memory false 998 5 0 late e t
pipewrite-Wrote_example = pipewrite-Wrote memory false 998 5 0 late late-IsPipe

piperead-ReadEnds_example :
    let (e, m', t) = piperead store false 0 5 [] late in ReadEnds store false 0 5 [] late e m' t
piperead-ReadEnds_example = piperead-ReadEnds store false 0 5 [] late late-IsPipe

abbrev after_write : Pipe
after_write = (pipewrite memory false 10 3 0 (new_pipe (λ _. 0))).1

abbrev after_read : Pipe
after_read = (piperead store false 0 5 [] after_write).2

first_run : Reach (List ℕ) false (new_pipe (λ _. 0)) after_read
first_run = next (next here (writes memory false 10 3 0 refl)) (reads store false 0 5 [])

first_run_patient : Reach (List ℕ) true (new_pipe (λ _. 0)) after_read
unfolding pipewrite put new_pipe
first_run_patient = next (next here (writes memory false 10 3 0 refl)) (reads store false 0 5 [])

transfer_example :
    (after_read.written ≡ after_read.taken ++ queue after_read)
    × (length (queue after_read) ≤ pipesize)
transfer_example = transfer (List ℕ) false (λ _. 0) after_read first_run

writers_wake_example :
    ((after_read.writers_asleep && not (is_full after_read && after_read.readopen)) ≡ false)
    × ((after_read.readers_asleep && after_read.writers_asleep) ≡ false)
writers_wake_example = writers_wake (List ℕ) false (λ _. 0) after_read first_run

readers_wake_example :
    (after_read.readers_asleep && not (is_empty after_read && after_read.writeopen)) ≡ false
readers_wake_example = readers_wake (List ℕ) (λ _. 0) after_read first_run_patient

killed_write_wakes_nobody_example :
    let (e, t) = pipewrite (λ a. some a) true 0 600 0 late in
    (e ≡ fails) × (is_full t ≡ true) × (t.readers_asleep ≡ true)
killed_write_wakes_nobody_example =
    killed_write_wakes_nobody (λ a. a) 0 600 0 late late-IsPipe (omega arith)
