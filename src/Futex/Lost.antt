-- ===== src/Futex/Lost.antt =====
-- kernel/proc/futex.c: a process whose waiter no call finds sleeps for ever.
use os2025_yyds.Common.{
  ℕ, ◌≡◌, ◌≢◌, refl, sym, ◌∙◌, ap, subst, inl, inr, Bool, true, false, ◌&&◌, arith, ◌==◌, update,
  Bool-cases, ==_iff, ne→==,
}
use os2025_yyds.Futex.{
  Proc, Waiter, Manager, sleeping, bucket_size, new_waiter, set_waiter, futex_hash, futex_enqueue,
  futex_sleep, futex_leave, futex_wake, futex_wake_bitset, futex_requeue, rouse, rouse_at, waits_at,
  meets, wake_one,
}
use os2025_yyds.Futex.Loops.{
  set_waiter-read, futex_enqueue-cases, waits_at-idle, waits_at-addr, wake_from-keeps,
  requeue_from-keeps,
}
use os2025_yyds.Futex.Woken.{mark}

-- The calls of other processes than `pid`, and the wake calls of any.
pub data Other (pid : ℕ) : Manager → Manager → Type 0 where
  enqueues :
      {s : Manager} (now q uaddr val timeout : ℕ)
      → q ≢ pid
      → Other pid s (futex_enqueue now q uaddr val timeout s).1
  sleeps : {s : Manager} (q uaddr : ℕ) → q ≢ pid → Other pid s (futex_sleep q uaddr s)
  leaves : {s : Manager} (q uaddr j : ℕ) → q ≢ pid → Other pid s (futex_leave q uaddr j s).1
  wakes : {s : Manager} (uaddr nr : ℕ) → Other pid s (futex_wake uaddr nr s).1
  wakes_bitset :
      {s : Manager} (uaddr nr bitset : ℕ) → Other pid s (futex_wake_bitset uaddr nr bitset s).1
  requeues :
      {s : Manager} (uaddr uaddr2 nr nr2 : ℕ) → Other pid s (futex_requeue uaddr uaddr2 nr nr2 s).1

pub data Others (pid : ℕ) (s : Manager) : Manager → Type 0 where
  here : Others pid s s
  next : {t u : Manager} → Others pid s t → Other pid t u → Others pid s u

-- Each waiter of `pid` that is not woken stands outside the bucket of its address.
abbrev pub Hidden : ℕ → ℕ → Waiter → Type 0
Hidden pid g w = w.used ≡ true → w.woken ≡ false → w.proc ≡ pid → futex_hash w.uaddr ≢ g

pub record Stranded (pid : ℕ) (s : Manager) : Type 0 where
  pub asleep : (s.procs pid).state ≡ sleeping
  pub hidden : (g i : ℕ) → Hidden pid g (s.waiters g i)

clash : true ≡ false → ⊥
clash p = cc

set_waiter-Hidden :
    (pid h j : ℕ) (w : Waiter) (s : Manager)
    → Hidden pid h w
    → ((g i : ℕ) → Hidden pid g (s.waiters g i))
    → (g i : ℕ) → Hidden pid g ((set_waiter h j w s).waiters g i)
set_waiter-Hidden pid h j w s new old g i = elim (Bool-cases (h == g && j == i)) [
  | inr e ↦
      let same : (set_waiter h j w s).waiters g i ≡ s.waiters g i =
        set_waiter-read h j w s g i ∙ rw e refl in
      subst (λ v. Hidden pid g v) (sym same) (old g i)
  | inl e ↦
      let there : h ≡ g = (==_iff h g).0 (ground (arith, e)) in
      let now : (set_waiter h j w s).waiters g i ≡ w = set_waiter-read h j w s g i ∙ rw e refl in
      subst (λ v. Hidden pid g v) (sym now) (subst (λ k. Hidden pid k w) there new)
]

other_proc : (pid q : ℕ) (p : Proc) (procs : ℕ → Proc) → q ≢ pid → update procs q p pid ≡ procs pid
other_proc pid q p procs apart = rw (ne→== q pid apart) refl

-- A waiter that a wake call finds is not one of `pid`.
found_apart :
    (pid uaddr i : ℕ) (s : Manager)
    → waits_at uaddr (s.waiters (futex_hash uaddr) i) ≡ true
    → Stranded pid s
    → (s.waiters (futex_hash uaddr) i).proc ≢ pid
found_apart pid uaddr i s found v mine =
    let w : Waiter = s.waiters (futex_hash uaddr) i in
    let (used, asleep) = waits_at-idle uaddr w found in
    v.hidden (futex_hash uaddr) i used asleep mine
      (ap (λ (a : ℕ). futex_hash a) (waits_at-addr uaddr w found))

wake_one-Stranded :
    (wake : Proc → Proc) (pid uaddr i : ℕ) (s : Manager)
    → waits_at uaddr (s.waiters (futex_hash uaddr) i) ≡ true
    → Stranded pid s
    → Stranded pid (wake_one wake (futex_hash uaddr) i s)
wake_one-Stranded wake pid uaddr i s found v =
    let h : ℕ = futex_hash uaddr in
    let w : Waiter = s.waiters h i in
    record {
      asleep =
          ap (λ (p : Proc). p.state)
            (other_proc pid w.proc (wake (s.procs w.proc)) s.procs
              (found_apart pid uaddr i s found v))
          ∙ v.asleep;
      hidden = set_waiter-Hidden pid h i (mark w) s (λ _ up _. absurd (clash up)) v.hidden;
    }

Other-Stranded : {pid : ℕ} {s t : Manager} → Other pid s t → Stranded pid s → Stranded pid t
unfolding futex_sleep futex_leave futex_wake futex_wake_bitset futex_requeue
Other-Stranded {pid} {s} (enqueues now q uaddr val timeout apart) v =
    elim (futex_enqueue-cases now q uaddr val timeout s) [
      | inl e ↦ rw e v
      | inr (j, e, _, _) ↦ rw e (record {
        asleep = v.asleep;
        hidden =
            set_waiter-Hidden pid (futex_hash uaddr) j (new_waiter now q uaddr val timeout) s
              (λ _ _ mine. absurd (apart mine)) v.hidden;
      })
    ]
Other-Stranded {pid} {s} (sleeps q uaddr apart) v = record {
  asleep =
      ap (λ (p : Proc). p.state)
        (other_proc pid q (record { state = sleeping; chan = uaddr }) s.procs apart)
      ∙ v.asleep;
  hidden = v.hidden;
}
Other-Stranded {pid} {s} (leaves q uaddr j apart) v = record {
  asleep =
      ap (λ (p : Proc). p.state) (other_proc pid q (record (s.procs q) { chan = 0 }) s.procs apart)
      ∙ v.asleep;
  hidden =
      set_waiter-Hidden pid (futex_hash uaddr) j
        (record (s.waiters (futex_hash uaddr) j) { used = false }) s
        (λ used _ _. absurd (clash (sym used))) v.hidden;
}
Other-Stranded {pid} {s} (wakes uaddr nr) v =
    let w =
      wake_from-keeps (Stranded pid) (waits_at uaddr) (rouse_at uaddr) (futex_hash uaddr)
        bucket_size 0 nr s (λ i s found v. wake_one-Stranded (rouse_at uaddr) pid uaddr i s found v)
        v in
    record { asleep = w.asleep; hidden = w.hidden }
Other-Stranded {pid} {s} (wakes_bitset uaddr nr bitset) v = elim (Bool-cases (bitset == 0)) [
  | inl e ↦ rw e v
  | inr e ↦
      let w =
        wake_from-keeps (Stranded pid) (λ w. waits_at uaddr w && meets 32 w.bitset bitset) rouse
          (futex_hash uaddr) bucket_size 0 nr s
          (λ i s found v.
            wake_one-Stranded rouse pid uaddr i s
              (left (waits_at uaddr (s.waiters (futex_hash uaddr) i))
                (meets 32 (s.waiters (futex_hash uaddr) i).bitset bitset) found)
              v)
          v in
      rw e (record { asleep = w.asleep; hidden = w.hidden })
]
  where
    left : (a b : Bool) → (a && b) ≡ true → a ≡ true
    left true b e = refl
    left false b e = cc
Other-Stranded {pid} {s} (requeues uaddr uaddr2 nr nr2) v =
    let w =
      requeue_from-keeps (Stranded pid) uaddr uaddr2 (futex_hash uaddr) bucket_size 0 nr nr2 s
        (λ i s found v. wake_one-Stranded rouse pid uaddr i s found v)
        (λ i s found v. record {
          asleep = v.asleep;
          hidden =
              set_waiter-Hidden pid (futex_hash uaddr) i
                (record (s.waiters (futex_hash uaddr) i) { uaddr = uaddr2 }) s
                (λ _ _ mine. absurd (found_apart pid uaddr i s found v mine)) v.hidden;
        })
        v in
    record { asleep = w.asleep; hidden = w.hidden }

pub Stranded-sleeps :
    {pid : ℕ} {s t : Manager} → Stranded pid s → Others pid s t → (t.procs pid).state ≡ sleeping
Stranded-sleeps v r = (through v r).asleep
  where
    through : {pid : ℕ} {s t : Manager} → Stranded pid s → Others pid s t → Stranded pid t
    through v here = v
    through v (next r step) = Other-Stranded step (through v r)
