-- ===== src/Futex/Counted.antt =====
-- kernel/proc/futex.c: `count` of a bucket, through all calls.
use os2025_yyds.Common.{
  ℕ, ◌+◌, ◌-◌, ◌≤◌, ◌<◌, ◌≡◌, refl, sym, ◌∙◌, ap, subst, inl, inr, Bool, true, false, ◌&&◌, arith,
  ◌==◌, if◌then◌else◌, update, Bool-cases, ==_iff, ne→==, ℕ_discrete, total, total-update,
  total-agree, total-bounded,
}
use os2025_yyds.Futex.{
  new_waiter, Proc, Waiter, Manager, bucket_size, no_waiter, futex_init, futex_hash, set_waiter,
  futex_enqueue, futex_sleep, futex_leave, futex_wake, futex_wake_bitset, futex_requeue, rouse,
  rouse_at, waits_at, meets,
}
use os2025_yyds.Futex.Loops.{
  set_waiter-read, futex_enqueue-cases, wake_from-keeps, requeue_from-keeps,
}

-- The calls, in any order. A process leaves with the waiter that it has got.
pub data Step : Manager → Manager → Type 0 where
  enqueues :
      {s : Manager} (now pid uaddr val timeout : ℕ)
      → Step s (futex_enqueue now pid uaddr val timeout s).1
  sleeps : {s : Manager} (pid uaddr : ℕ) → Step s (futex_sleep pid uaddr s)
  leaves :
      {s : Manager} (pid uaddr j : ℕ)
      → j < bucket_size
      → (s.waiters (futex_hash uaddr) j).used ≡ true
      → Step s (futex_leave pid uaddr j s).1
  wakes : {s : Manager} (uaddr nr : ℕ) → Step s (futex_wake uaddr nr s).1
  wakes_bitset :
      {s : Manager} (uaddr nr bitset : ℕ) → Step s (futex_wake_bitset uaddr nr bitset s).1
  requeues :
      {s : Manager} (uaddr uaddr2 nr nr2 : ℕ) → Step s (futex_requeue uaddr uaddr2 nr nr2 s).1

pub data Reach (procs : ℕ → Proc) : Manager → Type 0 where
  boot : Reach procs (futex_init procs)
  next : {s t : Manager} → Reach procs s → Step s t → Reach procs t

abbrev weight : Waiter → ℕ
weight w = if w.used then 1 else 0

abbrev pub Counted : Manager → Type 0
Counted s = (h : ℕ) → s.count h ≡ total weight bucket_size (s.waiters h)

-- A waiter is written that is as much in use as the one before.
same-Counted :
    (h j : ℕ) (w : Waiter) (s : Manager)
    → w.used ≡ (s.waiters h j).used
    → Counted s
    → Counted (set_waiter h j w s)
same-Counted h j w s same v g =
    v g
    ∙ total-agree weight bucket_size (s.waiters g) ((set_waiter h j w s).waiters g) (λ i _.
      elim (Bool-cases (h == g && j == i)) [
        | inr e ↦
            let stays : (set_waiter h j w s).waiters g i ≡ s.waiters g i =
              set_waiter-read h j w s g i ∙ rw e refl in
            ap weight (sym stays)
        | inl e ↦
            let hh : h ≡ g = (==_iff h g).0 (ground (arith, e)) in
            let jj : j ≡ i = (==_iff j i).0 (ground (arith, e)) in
            let now : (set_waiter h j w s).waiters g i ≡ w =
              set_waiter-read h j w s g i ∙ rw e refl in
            ap (λ (k : ℕ). weight (s.waiters k i)) (sym hh)
            ∙ ap (λ (k : ℕ). weight (s.waiters h k)) (sym jj)
            ∙ ap (λ (b : Bool). if b then 1 else 0) (sym same)
            ∙ ap weight (sym now)
      ])

-- A bucket with its count, after one waiter and the count are written.
written-Counted :
    (h j n : ℕ) (w : Waiter) (s : Manager)
    → j < bucket_size
    → weight (s.waiters h j) + n ≡ weight w + s.count h
    → Counted s
    → (g : ℕ) → update s.count h n g ≡ total weight bucket_size ((set_waiter h j w s).waiters g)
written-Counted h j n w s lt moved v g = elim (ℕ_discrete h g) [
  | no apart ↦ rw (ne→== h g apart) (v g)
  | yes same ↦
      let there : (h == g) ≡ true = (==_iff h g).1 same in
      rw there (
        subst (λ k. n ≡ total weight bucket_size (update (s.waiters k) j w)) refl
          (omega (arith, moved, v h, total-update weight bucket_size (s.waiters h) j w lt)))
]

step-Counted : {s t : Manager} → Step s t → Counted s → Counted t
unfolding futex_sleep futex_leave futex_wake futex_wake_bitset futex_requeue
step-Counted {s} (enqueues now pid uaddr val timeout) v =
    let h : ℕ = futex_hash uaddr in
    elim (futex_enqueue-cases now pid uaddr val timeout s) [
      | inl e ↦ rw e v
      | inr (j, e, lt, free) ↦ rw e (
          written-Counted h j (s.count h + 1) (new_waiter now pid uaddr val timeout) s lt
            (rw free (omega arith)) v)
    ]
step-Counted (sleeps pid uaddr) v = v
step-Counted {s} (leaves pid uaddr j lt on) v =
    let h : ℕ = futex_hash uaddr in
    let one : weight (s.waiters h j) ≡ 1 = rw on refl in
    let some_waiter : 1 ≤ s.count h = omega (
      arith,
      v h,
      total-update weight bucket_size (s.waiters h) j (record (s.waiters h j) { used = false }) lt,
      one,
    ) in
    written-Counted h j (s.count h - 1) (record (s.waiters h j) { used = false }) s lt
      (rw on (omega (arith, some_waiter))) v
step-Counted {s} (wakes uaddr nr) v =
    wake_from-keeps Counted (waits_at uaddr) (rouse_at uaddr) (futex_hash uaddr) bucket_size 0 nr s
      (λ i s _ w.
        same-Counted (futex_hash uaddr) i (record (s.waiters (futex_hash uaddr) i) { woken = true })
          s refl w)
      v
step-Counted {s} (wakes_bitset uaddr nr bitset) v = elim (Bool-cases (bitset == 0)) [
  | inl e ↦ rw e v
  | inr e ↦ rw e (
      wake_from-keeps Counted (λ w. waits_at uaddr w && meets 32 w.bitset bitset) rouse
        (futex_hash uaddr) bucket_size 0 nr s
        (λ i s _ w.
          same-Counted (futex_hash uaddr) i
            (record (s.waiters (futex_hash uaddr) i) { woken = true }) s refl w)
        v)
]
step-Counted {s} (requeues uaddr uaddr2 nr nr2) v =
    requeue_from-keeps Counted uaddr uaddr2 (futex_hash uaddr) bucket_size 0 nr nr2 s
      (λ i s _ w.
        same-Counted (futex_hash uaddr) i (record (s.waiters (futex_hash uaddr) i) { woken = true })
          s refl w)
      (λ i s _ w.
        same-Counted (futex_hash uaddr) i
          (record (s.waiters (futex_hash uaddr) i) { uaddr = uaddr2 }) s refl w)
      v

-- In every state that the calls reach from `futex_init`, the count of each bucket is the number of
-- its waiters in use, and so at most the size of the bucket.
pub Reach-Counted :
    (procs : ℕ → Proc) (s : Manager)
    → Reach procs s
    → (h : ℕ) → (s.count h ≡ total weight bucket_size (s.waiters h)) × (s.count h ≤ bucket_size)
unfolding futex_init no_waiter total
Reach-Counted procs s r h = (
  all s r h,
  subst (λ n. n ≤ bucket_size) (sym (all s r h))
      (total-bounded weight bucket_size (s.waiters h) (λ k. ground arith)),
)
  where
    all : (s : Manager) → Reach procs s → Counted s
    all s boot = λ h. refl
    all s (next r step) = step-Counted step (all _ r)
