-- ===== src/Futex/Tests.antt =====
-- kernel/proc/futex.c: runs of the model, and its theorems at concrete inputs.
use os2025_yyds.Common.{
  ℕ, ◌+◌, ◌%◌, ◌^◌, ◌≤◌, ◌<◌, ◌≡◌, ◌≢◌, refl, inl, inr, true, false, ◌&&◌, some, none, ◌==◌,
  if◌then◌else◌, first_from, total, Bool-cases, ap, sym, ◌∙◌, arith,
}
use os2025_yyds.Futex.{
  Waiter, Manager, running, sleeping, runnable, bucket_size, no_waiter, new_waiter,
  find_free_waiter, futex_hash, futex_init, futex_enqueue, futex_sleep, futex_wake,
  futex_wake_bitset, futex_requeue, is_sleeping, rouse, rouse_at, waits_at, meets, wake_from,
  requeue_from,
}
use os2025_yyds.Futex.Loops.{set_waiter-read}
use os2025_yyds.Futex.Counted.{Reach, Step, Reach-Counted}
use os2025_yyds.Futex.Woken.{Woken}
use os2025_yyds.Futex.Wake.{futex_wake-Woken}
use os2025_yyds.Futex.Lost.{wakes, here, next}
use os2025_yyds.Futex.Race.{lost_wakeup}
use os2025_yyds.Futex.Requeue.{requeue_strands}

abbrev empty : Manager
empty = futex_init (λ q. record { state = running; chan = 0 })

-- Process 7 has taken a slot for address 4096, and in the second state it sleeps.
abbrev queued : Manager
queued = (futex_enqueue 10 7 4096 1 0 empty).1

abbrev asleep : Manager
asleep = futex_sleep 7 4096 queued

queued_at : futex_enqueue 10 7 4096 1 0 empty ≡ (some 0, queued)
unfolding futex_enqueue find_free_waiter futex_init no_waiter first_from
queued_at = refl

-- One process is woken, and it can run again.
wakes_it :
    ((futex_wake 4096 5 asleep).0 ≡ 1) × (((futex_wake 4096 5 asleep).1.procs 7).state ≡ runnable)
unfolding futex_wake wake_from is_sleeping futex_sleep futex_enqueue find_free_waiter futex_init
    no_waiter first_from
wakes_it = (refl, refl)

-- After a requeue to address 4100, a wake call there finds nobody.
misses_it :
    ((futex_requeue 4096 4100 0 2 asleep).0 ≡ 1)
    × ((futex_wake 4100 5 (futex_requeue 4096 4100 0 2 asleep).1).0 ≡ 0)
unfolding futex_requeue requeue_from futex_wake wake_from is_sleeping futex_sleep futex_enqueue
    find_free_waiter futex_init no_waiter first_from
misses_it = (refl, refl)

nobody_yet : (g i : ℕ) → (empty.waiters g i).used ≡ true → (empty.waiters g i).proc ≢ 7
unfolding futex_init no_waiter
nobody_yet g i e = cc

never : false ≡ true → ⊥
never e = cc

only_there :
    (g i : ℕ)
    → (asleep.waiters g i).used ≡ true
    → (asleep.waiters g i).proc ≡ 7
    → (i < bucket_size) × (futex_hash 4096 ≡ g) × ((asleep.waiters g i).uaddr ≡ 4096)
unfolding futex_sleep futex_enqueue find_free_waiter futex_init no_waiter first_from
only_there g i used mine = elim (Bool-cases (0 == g && 0 == i)) [
  | inr e ↦
      let idle : asleep.waiters g i ≡ no_waiter =
        set_waiter-read 0 0 (new_waiter 10 7 4096 1 0) empty g i ∙ rw e refl in
      absurd (never (ap (λ (w : Waiter). w.used) (sym idle) ∙ used))
  | inl e ↦
      let there : 0 ≡ g = ground (arith, e) in
      let at : 0 ≡ i = ground (arith, e) in
      let it : asleep.waiters g i ≡ new_waiter 10 7 4096 1 0 =
        set_waiter-read 0 0 (new_waiter 10 7 4096 1 0) empty g i ∙ rw e refl in
      (omega (arith, at), there, ap (λ (w : Waiter). w.uaddr) it)
]

futex_wake-Woken_example :
    ((k : ℕ) × (t : Manager) × (futex_wake 4096 5 asleep
        ≡ (k, record t { total_wakes = (t.total_wakes + k) % 2 ^ 64 }))
      × Woken (waits_at 4096) (rouse_at 4096) (futex_hash 4096) bucket_size 0 5 asleep k t)
    × (futex_wake_bitset 4096 5 0 asleep ≡ (none, asleep))
    × (◌≢◌ {A = ℕ} 3 0
        → (k : ℕ) × (t : Manager) × (futex_wake_bitset 4096 5 3 asleep
            ≡ (some k, record t { total_wakes = (t.total_wakes + k) % 2 ^ 64 }))
          × Woken
              (λ w. waits_at 4096 w && meets 32 w.bitset 3)
              rouse
              (futex_hash 4096)
              bucket_size
              0
              5
              asleep
              k
              t)
futex_wake-Woken_example = futex_wake-Woken 4096 5 3 asleep

Reach-Counted_example :
    (asleep.count 0 ≡ total (λ w. if w.used then 1 else 0) bucket_size (asleep.waiters 0))
    × (asleep.count 0 ≤ bucket_size)
Reach-Counted_example =
    Reach-Counted (λ q. record { state = running; chan = 0 }) asleep
      (Reach.next (Reach.next Reach.boot (Step.enqueues 10 7 4096 1 0)) (Step.sleeps 7 4096)) 0

lost_wakeup_example :
    (((futex_wake 4096 5 queued).1.waiters (futex_hash 4096) 0).woken ≡ true)
    × (((futex_wake 4096 5 (futex_sleep 7 4096 (futex_wake 4096 5 queued).1)).1.procs 7).state
        ≡ sleeping)
lost_wakeup_example =
    lost_wakeup 10 7 4096 1 0 5 0 empty queued
      (futex_wake 4096 5 (futex_sleep 7 4096 (futex_wake 4096 5 queued).1)).1 queued_at
      (omega arith) nobody_yet (next here (wakes 4096 5))

requeue_strands_example :
    ((futex_wake 4100 5 (futex_requeue 4096 4100 0 2 asleep).1).1.procs 7).state ≡ sleeping
unfolding futex_sleep
requeue_strands_example =
    requeue_strands 4096 4100 2 7 asleep
      (futex_wake 4100 5 (futex_requeue 4096 4100 0 2 asleep).1).1 (omega arith)
      (λ e. omega (arith, e)) refl only_there (next here (wakes 4100 5))
