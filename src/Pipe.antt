-- ===== src/Pipe.antt =====
-- kernel/proc/pipe.c: pipes, a ring of PIPESIZE bytes between processes.
--
-- `data` is a family that is read and written below PIPESIZE; `nread` and `nwrite` are `uint`s.
-- `readers_asleep` says whether a process sleeps on `&pi->nread`, `writers_asleep` the same of
-- `&pi->nwrite`. A call runs under the lock until it returns or sleeps: `sleeps i` is a call that
-- sleeps in its round `i`, and goes on by another call of the same function from that round.
-- `written` and `taken` are no part of the code: they record the bytes that were ever put into the
-- ring and taken out of it. `copyin` and `copyout` of one byte (kernel/mm/vm.c) are arguments, with
-- the user memory that `copyout` changes as a type `M`; `killed` is `pr->killed`. The count `n` of
-- a call, an `int`, is the number of rounds, 0 when it is negative.
pub mod Ring
pub mod Write
pub mod Read
pub mod Trace
pub mod Sleep
mod Tests
use os2025_yyds.Common.{
  ℕ, zero, suc, ◌+◌, ◌%◌, ◌^◌, Bool, true, false, not, ◌&&◌, ◌||◌, List, [], ◌∷◌, ◌++◌, Option,
  none, some, ◌==◌, if◌then◌else◌, update,
}

abbrev pub pipesize : ℕ
pipesize = 512

pub record Pipe : Type 0 where
  pub data_at : ℕ → ℕ
  pub nread : ℕ
  pub nwrite : ℕ
  pub readopen : Bool
  pub writeopen : Bool
  pub readers_asleep : Bool
  pub writers_asleep : Bool
  pub written : List ℕ
  pub taken : List ℕ

-- How a call ends: with a number, with -1, or asleep in a round.
pub data Ending : Type 0 where
  returns : ℕ → Ending
  fails : Ending
  sleeps : ℕ → Ending

-- The pipe of `pipealloc`, in a page with the bytes `junk`.
pub new_pipe : (ℕ → ℕ) → Pipe
new_pipe junk = record {
  data_at = junk;
  nread = 0;
  nwrite = 0;
  readopen = true;
  writeopen = true;
  readers_asleep = false;
  writers_asleep = false;
  written = [];
  taken = [];
}

-- `wakeup` and `sleep` on the two channels.
abbrev pub wake_readers : Pipe → Pipe
wake_readers s = record s { readers_asleep = false }

abbrev pub wake_writers : Pipe → Pipe
wake_writers s = record s { writers_asleep = false }

-- The second component says whether the page of the pipe goes to `kfree`.
pub pipeclose : Bool → Pipe → Pipe × Bool
pipeclose writable s =
    let s1 =
      if writable
      then wake_readers (record s { writeopen = false })
      else wake_writers (record s { readopen = false }) in
    (s1, not s1.readopen && not s1.writeopen)

abbrev pub is_full : Pipe → Bool
is_full s = s.nwrite == (s.nread + pipesize) % 2 ^ 32

abbrev pub is_empty : Pipe → Bool
is_empty s = s.nread == s.nwrite

-- `pi->data[pi->nwrite++ % PIPESIZE] = ch`.
pub put : ℕ → Pipe → Pipe
put ch s = record s {
  data_at = update s.data_at (s.nwrite % pipesize) ch;
  nwrite = (s.nwrite + 1) % 2 ^ 32;
  written = s.written ++ (ch ∷ []);
}

-- `ch = pi->data[pi->nread++ % PIPESIZE]`: the byte, and the pipe without it.
abbrev pub first : Pipe → ℕ
first s = s.data_at (s.nread % pipesize)

pub advance : Pipe → Pipe
advance s = record s { nread = (s.nread + 1) % 2 ^ 32; taken = s.taken ++ (first s ∷ []) }

-- The loop of `pipewrite` from round `i` on, with `n` rounds left.
pub pipewrite : (ℕ → Option ℕ) → Bool → ℕ → ℕ → ℕ → Pipe → Ending × Pipe
pipewrite copyin killed addr zero i s = (returns i, wake_readers s)
pipewrite copyin killed addr (suc n) i s =
    if is_full s
    then (if not s.readopen || killed
        then (fails, s)
        else (sleeps i, record (wake_readers s) { writers_asleep = true }))
    else elim (copyin ((addr + i) % 2 ^ 64)) [
      | none ↦ (returns i, wake_readers s)
      | some ch ↦ pipewrite copyin killed addr n (i + 1) (put ch s)
    ]

module _ {M : Type 0} (copyout : ℕ → ℕ → M → Option M) where
  -- The `for` loop of `piperead` from round `i` on, with `n` rounds left.
  pub copy_loop : ℕ → ℕ → ℕ → M → Pipe → ℕ × M × Pipe
  copy_loop addr zero i m s = (i, m, s)
  copy_loop addr (suc n) i m s =
      if is_empty s then (i, m, s) else elim (copyout ((addr + i) % 2 ^ 64) (first s) m) [
        | none ↦ (i, m, advance s)
        | some m' ↦ copy_loop addr n (i + 1) m' (advance s)
      ]

  pub piperead : Bool → ℕ → ℕ → M → Pipe → Ending × M × Pipe
  piperead killed addr n m s =
      let (i, m', s') = copy_loop addr n 0 m s in
      if is_empty s && s.writeopen
      then (if killed then (fails, m, s) else (sleeps 0, m, record s { readers_asleep = true }))
      else (returns i, m', wake_writers s')
