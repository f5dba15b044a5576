-- ===== src/Futex/Requeue.antt =====
-- kernel/proc/futex.c: `futex_requeue` leaves the waiters that it moves in their old bucket.
use os2025_yyds.Common.{
  ℕ, zero, suc, ◌+◌, ◌-◌, ◌≤◌, ◌<◌, ◌≡◌, ◌≢◌, refl, sym, ◌∙◌, ap, subst, ◌⊎◌, inl, inr, true, false,
  arith, ltb, ◌==◌, Bool-cases, ==_iff, ==_refl, ne→==, ℕ_discrete, dec_lt,
}
use os2025_yyds.Futex.{
  Proc, Waiter, Manager, sleeping, bucket_size, set_waiter, futex_hash, futex_requeue, requeue_from,
  waits_at,
}
use os2025_yyds.Futex.Loops.{set_waiter-read}
use os2025_yyds.Futex.Lost.{Others, Hidden, Stranded-sleeps}

abbrev sent_to : ℕ → Waiter → Waiter
sent_to uaddr2 w = record w { uaddr = uaddr2 }

-- When none is to be woken and all may be moved.
record Moved (uaddr uaddr2 n j : ℕ) (s t : Manager) : Type 0 where
  others :
      (g i : ℕ) → (futex_hash uaddr ≢ g) ⊎ ((i < j) ⊎ (j + n ≤ i)) → t.waiters g i ≡ s.waiters g i
  slots :
      (i : ℕ)
      → j ≤ i
      → i < j + n
      → ((t.waiters (futex_hash uaddr) i ≡ s.waiters (futex_hash uaddr) i)
          × (waits_at uaddr (s.waiters (futex_hash uaddr) i) ≡ false))
        ⊎ (t.waiters (futex_hash uaddr) i ≡ sent_to uaddr2 (s.waiters (futex_hash uaddr) i))
  same_procs : t.procs ≡ s.procs

set_other :
    (h j : ℕ) (w : Waiter) (s : Manager) (g i : ℕ)
    → (h ≢ g) ⊎ (j ≢ i)
    → (set_waiter h j w s).waiters g i ≡ s.waiters g i
set_other h j w s g i apart = set_waiter-read h j w s g i ∙ (elim apart [
  | inl a ↦ rw (ne→== h g a) refl
  | inr b ↦ elim (Bool-cases (h == g)) [ inl e ↦ rw (e, ne→== j i b) refl | inr e ↦ rw e refl ]
])

requeue_from-Moved :
    (uaddr uaddr2 n j nr2 : ℕ) (s : Manager)
    → n ≤ nr2
    → Moved uaddr uaddr2 n j s (requeue_from uaddr uaddr2 (futex_hash uaddr) n j 0 nr2 s).2
unfolding requeue_from
requeue_from-Moved uaddr uaddr2 zero j nr2 s room = record {
  others = λ g i _. refl;
  slots = λ i lo hi. absurd (omega (arith, lo, hi));
  same_procs = refl;
}
requeue_from-Moved uaddr uaddr2 (suc n) j nr2 s room =
    elim (Bool-cases (waits_at uaddr (s.waiters h j))) [
      | inr e ↦ rw e (
          let v = requeue_from-Moved uaddr uaddr2 n (j + 1) nr2 s (omega (arith, room)) in
          record {
            others = λ g i out. v.others g i (wider g i out);
            slots = λ i lo hi. elim (ℕ_discrete j i) [
              | yes it ↦
                  let there : i < j + 1 = omega (arith, it) in
                  inl (
                    v.others h i (inr (inl there)),
                    subst (λ l. waits_at uaddr (s.waiters h l) ≡ false) it e,
                  )
              | no later ↦ v.slots i (omega (arith, lo, later)) (omega (arith, hi))
            ];
            same_procs = v.same_procs;
          })
      | inl e ↦
          let some_left : ltb 0 nr2 ≡ true = ground (arith, room) in
          rw (e, some_left)
            (let v =
                requeue_from-Moved uaddr uaddr2 n (j + 1) (nr2 - 1) (set_waiter h j moved s)
                  (omega (arith, room)) in
              record {
                others = λ g i out.
                    v.others g i (wider g i out)
                    ∙ set_other h j moved s g i (elim out [
                      | inl a ↦ inl a
                      | inr (inl a) ↦ inr (λ x. omega (arith, a, x))
                      | inr (inr a) ↦ inr (λ x. omega (arith, a, x))
                    ]);
                slots = λ i lo hi. elim (ℕ_discrete j i) [
                  | yes it ↦ inr (
                      subst
                        (λ l.
                          (requeue_from uaddr uaddr2 h n (j + 1) 0 (nr2 - 1)
                              (set_waiter h j moved s)).2.waiters
                            h l
                          ≡ sent_to uaddr2 (s.waiters h l))
                        it
                        (v.others h j (inr (inl (omega arith)))
                          ∙ set_waiter-read h j moved s h j
                          ∙ rw (==_refl h, ==_refl j) refl))
                  | no later ↦
                      subst
                        (λ w.
                          (((requeue_from uaddr uaddr2 h n (j + 1) 0 (nr2 - 1)
                                  (set_waiter h j moved s)).2.waiters
                                h i
                              ≡ w)
                            × (waits_at uaddr w ≡ false))
                          ⊎ ((requeue_from uaddr uaddr2 h n (j + 1) 0 (nr2 - 1)
                                  (set_waiter h j moved s)).2.waiters
                                h i
                              ≡ sent_to uaddr2 w))
                        (set_other h j moved s h i (inr later))
                        (v.slots i (omega (arith, lo, later)) (omega (arith, hi)))
                ];
                same_procs = v.same_procs;
              })
    ]
  where
    h : ℕ
    h = futex_hash uaddr

    moved : Waiter
    moved = sent_to uaddr2 (s.waiters (futex_hash uaddr) j)

    wider :
        (g i : ℕ)
        → (futex_hash uaddr ≢ g) ⊎ ((i < j) ⊎ (j + suc n ≤ i))
        → (futex_hash uaddr ≢ g) ⊎ ((i < j + 1) ⊎ (j + 1 + n ≤ i))
    wider g i (inl a) = inl a
    wider g i (inr (inl a)) = inr (inl (omega (arith, a)))
    wider g i (inr (inr a)) = inr (inr (omega (arith, a)))

-- A process that sleeps, with waiters of one address only, sleeps for ever after a `futex_requeue`
-- of all of them to an address of another bucket, whatever futex calls other processes make afterwards: no
-- wake call looks for the new address where the waiters stand.
pub requeue_strands :
    (uaddr uaddr2 nr2 pid : ℕ) (s u : Manager)
    → bucket_size ≤ nr2
    → futex_hash uaddr ≢ futex_hash uaddr2
    → (s.procs pid).state ≡ sleeping
    → ((g i : ℕ)
        → (s.waiters g i).used ≡ true
        → (s.waiters g i).proc ≡ pid
        → (i < bucket_size) × (futex_hash uaddr ≡ g) × ((s.waiters g i).uaddr ≡ uaddr))
    → Others pid (futex_requeue uaddr uaddr2 0 nr2 s).1 u
    → (u.procs pid).state ≡ sleeping
unfolding futex_requeue
requeue_strands uaddr uaddr2 nr2 pid s u room apart asleep at later =
    Stranded-sleeps
      (record {
        asleep = ap (λ (f : ℕ → Proc). (f pid).state) v.same_procs ∙ asleep;
        hidden = hides;
      })
      later
  where
    h : ℕ
    h = futex_hash uaddr

    t : Manager
    t = (requeue_from uaddr uaddr2 (futex_hash uaddr) bucket_size 0 0 nr2 s).2

    v : Moved uaddr uaddr2 bucket_size 0 s t
    v = requeue_from-Moved uaddr uaddr2 bucket_size 0 nr2 s room

    kept :
        (g i : ℕ)
        → ((t.waiters g i).used ≡ (s.waiters g i).used)
          × ((t.waiters g i).proc ≡ (s.waiters g i).proc)
    kept g i = elim (ℕ_discrete h g) [
      | no away ↦ whole (v.others g i (inl away))
      | yes there ↦ elim (dec_lt i bucket_size) [
        | no out ↦ whole (v.others g i (inr (inr (omega (arith, out)))))
        | yes inside ↦
            subst
              (λ k.
                ((t.waiters k i).used ≡ (s.waiters k i).used)
                × ((t.waiters k i).proc ≡ (s.waiters k i).proc))
              there
              (elim (v.slots i (omega arith) inside) [
                | inl (same, _) ↦ whole same
                | inr gone ↦ (ap (λ (w : Waiter). w.used) gone, ap (λ (w : Waiter). w.proc) gone)
              ])
      ]
    ]
      where
        whole : {a b : Waiter} → a ≡ b → (a.used ≡ b.used) × (a.proc ≡ b.proc)
        whole e = (ap (λ (w : Waiter). w.used) e, ap (λ (w : Waiter). w.proc) e)

    fits :
        (w : Waiter) → w.used ≡ true → w.woken ≡ false → w.uaddr ≡ uaddr → waits_at uaddr w ≡ true
    fits w used up e = rw (used, up, (==_iff w.uaddr uaddr).1 e) refl

    hides : (g i : ℕ) → Hidden pid g (t.waiters g i)
    hides g i used up mine =
        let (inside, there, same) = at g i (sym (kept g i).0 ∙ used) (sym (kept g i).1 ∙ mine) in
        elim (subst
          (λ k.
            ((t.waiters k i ≡ s.waiters k i) × (waits_at uaddr (s.waiters k i) ≡ false))
            ⊎ (t.waiters k i ≡ sent_to uaddr2 (s.waiters k i)))
          there (v.slots i (omega arith) inside)) [
            | inl (stays, off) ↦ absurd (
                clash (
                  sym (
                    fits (s.waiters g i) (sym (kept g i).0 ∙ used)
                      (ap (λ (w : Waiter). w.woken) (sym stays) ∙ up) same)
                  ∙ off))
            | inr gone ↦ λ e. apart (there ∙ sym e ∙ ap (λ (w : Waiter). futex_hash w.uaddr) gone)
          ]
      where
        clash : true ≡ false → ⊥
        clash p = cc
