-- ===== src/Futex.antt =====
-- kernel/proc/futex.c: waiting on addresses.
--
-- `procs` has what the futexes use of the process table, under the number of a process; `now` is
-- `ticks`. A bucket is the function from its hash to its waiters. `futex_wait` is the three steps
-- between which other calls can run: `futex_enqueue` until the lock of the bucket is released,
-- `futex_sleep` until `sched`, and `futex_leave` after it. The other calls are one step each. A
-- negative number of processes to wake is 0.
pub mod Loops
pub mod Lost
pub mod Race
pub mod Requeue
pub mod Counted
pub mod Woken
pub mod Wake
mod Tests
use os2025_yyds.Common.{
  ℕ, zero, suc, ◌+◌, ◌-◌, ◌/◌, ◌%◌, ◌^◌, Bool, true, false, not, ◌&&◌, ◌||◌, Option, none, some,
  ltb, ◌==◌, if◌then◌else◌, update, first_of,
}

abbrev pub futex_hash_size : ℕ
futex_hash_size = 32

-- MAX_FUTEX_QUEUES / FUTEX_HASH_SIZE.
abbrev pub bucket_size : ℕ
bucket_size = 64 / futex_hash_size

pub data ProcState : Type 0 where
  unused : ProcState
  sleeping : ProcState
  runnable : ProcState
  running : ProcState
  zombie : ProcState

pub record Proc : Type 0 where
  pub state : ProcState
  pub chan : ℕ

pub record Waiter : Type 0 where
  pub used : Bool
  pub proc : ℕ
  pub uaddr : ℕ
  pub val : ℕ
  pub bitset : ℕ
  pub timeout : ℕ
  pub woken : Bool

pub record Manager : Type 0 where
  pub waiters : ℕ → ℕ → Waiter
  pub count : ℕ → ℕ
  pub total_waits : ℕ
  pub total_wakes : ℕ
  pub total_requeues : ℕ
  pub procs : ℕ → Proc

pub no_waiter : Waiter
no_waiter = record {
  used = false;
  proc = 0;
  uaddr = 0;
  val = 0;
  bitset = 0;
  timeout = 0;
  woken = false;
}

pub futex_init : (ℕ → Proc) → Manager
unfolding no_waiter
futex_init procs = record {
  waiters = λ h j. no_waiter;
  count = λ h. 0;
  total_waits = 0;
  total_wakes = 0;
  total_requeues = 0;
  procs = procs;
}

abbrev pub futex_hash : ℕ → ℕ
futex_hash uaddr = uaddr / 4 % futex_hash_size

pub find_free_waiter : ℕ → Manager → Option ℕ
find_free_waiter h s = first_of bucket_size (λ j. not (s.waiters h j).used)

abbrev pub set_waiter : ℕ → ℕ → Waiter → Manager → Manager
set_waiter h j w s = record s { waiters = update s.waiters h (update (s.waiters h) j w) }

abbrev pub new_waiter : ℕ → ℕ → ℕ → ℕ → ℕ → Waiter
new_waiter now pid uaddr val timeout = record {
  used = true;
  proc = pid;
  uaddr = uaddr;
  val = val;
  bitset = 2 ^ 32 - 1;
  timeout = if ltb 0 timeout then (now + timeout) % 2 ^ 64 else 0;
  woken = false;
}

-- The slot of the waiter, or the failure of a full bucket.
pub futex_enqueue : ℕ → ℕ → ℕ → ℕ → ℕ → Manager → Option ℕ × Manager
futex_enqueue now pid uaddr val timeout s = elim (find_free_waiter (futex_hash uaddr) s) [
  | none ↦ (none, s)
  | some j ↦ (
    some j,
    record (set_waiter (futex_hash uaddr) j (new_waiter now pid uaddr val timeout) s) {
      count = update s.count (futex_hash uaddr) (s.count (futex_hash uaddr) + 1);
      total_waits = (s.total_waits + 1) % 2 ^ 64;
    },
  )
]

pub futex_sleep : ℕ → ℕ → Manager → Manager
futex_sleep pid uaddr s = record s {
  procs = update s.procs pid (record { state = sleeping; chan = uaddr });
}

-- What the process does when it runs again, with its waiter at `j`: whether it was woken.
pub futex_leave : ℕ → ℕ → ℕ → Manager → Bool × Manager
futex_leave pid uaddr j s =
    let h = futex_hash uaddr in
    let w = s.waiters h j in
    (
      w.woken,
      record (set_waiter h j (record w { used = false }) s) {
        count = update s.count h (s.count h - 1);
        procs = update s.procs pid (record (s.procs pid) { chan = 0 });
      },
    )

abbrev pub waits_at : ℕ → Waiter → Bool
waits_at uaddr w = w.used && w.uaddr == uaddr && not w.woken

pub is_sleeping : Proc → Bool
is_sleeping p = elim p.state [
  | sleeping ↦ true
  | unused ↦ false
  | runnable ↦ false
  | running ↦ false
  | zombie ↦ false
]

-- `futex_wake` wakes who sleeps on the address, and the other two who sleeps at all.
abbrev pub rouse_at : ℕ → Proc → Proc
rouse_at uaddr p = if is_sleeping p && p.chan == uaddr then record p { state = runnable } else p

abbrev pub rouse : Proc → Proc
rouse p = if is_sleeping p then record p { state = runnable } else p

abbrev pub wake_one : (Proc → Proc) → ℕ → ℕ → Manager → Manager
wake_one rouse h j s =
    let w = s.waiters h j in
    record (set_waiter h j (record w { woken = true }) s) {
      procs = update s.procs w.proc (rouse (s.procs w.proc));
    }

-- The loop over the waiters from `j` on, with `n` of them and `nr` processes to wake left.
pub wake_from : (Waiter → Bool) → (Proc → Proc) → ℕ → ℕ → ℕ → ℕ → Manager → ℕ × Manager
wake_from fits rouse h zero j nr s = (0, s)
wake_from fits rouse h (suc n) j nr s =
    let (k, t) = wake_from fits rouse h n (j + 1) (nr - 1) (wake_one rouse h j s) in
    let past = wake_from fits rouse h n (j + 1) nr s in
    if ltb 0 nr && fits (s.waiters h j) then (k + 1, t) else past

abbrev pub counted : ℕ × Manager → ℕ × Manager
counted (k, s) = (k, record s { total_wakes = (s.total_wakes + k) % 2 ^ 64 })

pub futex_wake : ℕ → ℕ → Manager → ℕ × Manager
futex_wake uaddr nr s =
    counted (wake_from (waits_at uaddr) (rouse_at uaddr) (futex_hash uaddr) bucket_size 0 nr s)

-- Whether two words of `n` bits have a bit in common.
pub meets : ℕ → ℕ → ℕ → Bool
meets zero a b = false
meets (suc n) a b = (a % 2 == 1 && b % 2 == 1) || meets n (a / 2) (b / 2)

pub futex_wake_bitset : ℕ → ℕ → ℕ → Manager → Option ℕ × Manager
futex_wake_bitset uaddr nr bitset s =
    let (k, t) = counted (
      wake_from (λ w. waits_at uaddr w && meets 32 w.bitset bitset) rouse (futex_hash uaddr)
        bucket_size 0 nr s) in
    if bitset == 0 then (none, s) else (some k, t)

-- The loop of `futex_requeue`: how many it wakes, and how many it moves.
pub requeue_from : ℕ → ℕ → ℕ → ℕ → ℕ → ℕ → ℕ → Manager → ℕ × ℕ × Manager
requeue_from uaddr uaddr2 h zero j nr nr2 s = (0, 0, s)
requeue_from uaddr uaddr2 h (suc n) j nr nr2 s =
    let w = s.waiters h j in
    let (a, b, t) = requeue_from uaddr uaddr2 h n (j + 1) (nr - 1) nr2 (wake_one rouse h j s) in
    let (c, d, u) =
      requeue_from uaddr uaddr2 h n (j + 1) nr (nr2 - 1)
        (set_waiter h j (record w { uaddr = uaddr2 }) s) in
    let past = requeue_from uaddr uaddr2 h n (j + 1) nr nr2 s in
    if waits_at uaddr w
    then if ltb 0 nr then (a + 1, b, t) else if ltb 0 nr2 then (c, d + 1, u) else past
    else past

pub futex_requeue : ℕ → ℕ → ℕ → ℕ → Manager → ℕ × Manager
futex_requeue uaddr uaddr2 nr nr2 s =
    let (a, b, t) = requeue_from uaddr uaddr2 (futex_hash uaddr) bucket_size 0 nr nr2 s in
    (
      a + b,
      record t {
        total_wakes = (t.total_wakes + a) % 2 ^ 64;
        total_requeues = (t.total_requeues + b) % 2 ^ 64;
      },
    )
