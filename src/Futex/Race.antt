-- ===== src/Futex/Race.antt =====
-- kernel/proc/futex.c: a wake call between the two halves of `futex_wait`.
use os2025_yyds.Common.{
  ℕ, ◌<◌, ◌≡◌, ◌≢◌, refl, sym, ◌∙◌, ap, subst, ◌⊎◌, inl, inr, true, false, ◌&&◌, some, none, Option,
  arith, ◌==◌, if◌then◌else◌, Bool-cases, ==_iff, ==_refl, ℕ_discrete, dec_lt,
}
use os2025_yyds.Futex.{
  Waiter, Manager, sleeping, bucket_size, new_waiter, futex_hash, futex_enqueue, futex_sleep,
  futex_wake, waits_at, rouse_at,
}
use os2025_yyds.Futex.Loops.{set_waiter-read, futex_enqueue-cases}
use os2025_yyds.Futex.Woken.{Woken}
use os2025_yyds.Futex.Wake.{futex_wake-Woken}
use os2025_yyds.Futex.Lost.{Others, Hidden, Stranded, Stranded-sleeps}

abbrev NoWaiter : ℕ → Manager → Type 0
NoWaiter pid s = (g i : ℕ) → (s.waiters g i).used ≡ true → (s.waiters g i).proc ≢ pid

clash : true ≡ false → ⊥
clash p = cc

module _ (now pid uaddr val timeout j : ℕ) (s t : Manager) (lt : j < bucket_size)
    (waiters : (g i : ℕ)
      → t.waiters g i ≡ (
          if futex_hash uaddr == g && j == i
          then new_waiter now pid uaddr val timeout
          else s.waiters g i))
    (alone : NoWaiter pid s) where
  new_fits : waits_at uaddr (t.waiters (futex_hash uaddr) j) ≡ true
  new_fits =
      let here : t.waiters (futex_hash uaddr) j ≡ new_waiter now pid uaddr val timeout =
        waiters (futex_hash uaddr) j ∙ rw (==_refl (futex_hash uaddr), ==_refl j) refl in
      ap (waits_at uaddr) here ∙ rw (==_refl uaddr) refl

  -- After a call that wakes more processes than a bucket holds.
  module _ (nr k : ℕ) (u : Manager) (many : bucket_size < nr)
      (v : Woken (waits_at uaddr) (rouse_at uaddr) (futex_hash uaddr) bucket_size 0 nr t k u) where
    new_woken : (u.waiters (futex_hash uaddr) j).woken ≡ true
    new_woken = elim (v.slots j (omega arith) lt) [
      | inr (_, marked) ↦ ap (λ (w : Waiter). w.woken) marked
      | inl same ↦ elim v.enough [
        | inl all ↦ absurd (omega (arith, all, v.fewer, many))
        | inr none_left ↦
            absurd
              (clash (sym new_fits ∙ ap (waits_at uaddr) (sym same) ∙ none_left j (omega arith) lt))
      ]
    ]

    all_hidden : (g i : ℕ) → Hidden pid g (u.waiters g i)
    all_hidden g i used asleep mine = elim (Bool-cases (futex_hash uaddr == g && j == i)) [
      | inl e ↦
          let there : futex_hash uaddr ≡ g = (==_iff (futex_hash uaddr) g).0 (ground (arith, e)) in
          let at : j ≡ i = (==_iff j i).0 (ground (arith, e)) in
          absurd (
            clash (
              sym (
                subst (λ h. (u.waiters h i).woken ≡ true) there
                  (subst (λ l. (u.waiters (futex_hash uaddr) l).woken ≡ true) at new_woken))
              ∙ asleep))
      | inr e ↦
          let old : t.waiters g i ≡ s.waiters g i = waiters g i ∙ rw e refl in
          elim (kept g i) [
            | inr up ↦ absurd (clash (sym up ∙ asleep))
            | inl same ↦ absurd (
                alone g i (ap (λ (w : Waiter). w.used) (sym (same ∙ old)) ∙ used)
                  (ap (λ (w : Waiter). w.proc) (sym (same ∙ old)) ∙ mine))
          ]
    ]
      where
        kept : (g i : ℕ) → (u.waiters g i ≡ t.waiters g i) ⊎ ((u.waiters g i).woken ≡ true)
        kept g i = elim (ℕ_discrete (futex_hash uaddr) g) [
          | no apart ↦ inl (v.others g i (inl apart))
          | yes there ↦ elim (dec_lt i bucket_size) [
            | no out ↦ inl (v.others g i (inr (inr (omega (arith, out)))))
            | yes inside ↦
                subst (λ h. (u.waiters h i ≡ t.waiters h i) ⊎ ((u.waiters h i).woken ≡ true)) there
                  (elim (v.slots i (omega arith) inside) [
                    | inl same ↦ inl same
                    | inr (_, marked) ↦ inr (ap (λ (w : Waiter). w.woken) marked)
                  ])
          ]
        ]

-- When a process has taken its slot, and a call wakes all waiters of the address before the process
-- goes to sleep, its waiter is marked as woken, and the process sleeps in spite of it, whatever futex calls
-- other processes make afterwards.
pub lost_wakeup :
    (now pid uaddr val timeout nr j : ℕ) (s t u : Manager)
    → futex_enqueue now pid uaddr val timeout s ≡ (some j, t)
    → bucket_size < nr
    → ((g i : ℕ) → (s.waiters g i).used ≡ true → (s.waiters g i).proc ≢ pid)
    → Others pid (futex_sleep pid uaddr (futex_wake uaddr nr t).1) u
    → (((futex_wake uaddr nr t).1.waiters (futex_hash uaddr) j).woken ≡ true)
      × ((u.procs pid).state ≡ sleeping)
unfolding futex_sleep
lost_wakeup now pid uaddr val timeout nr j s t u waits many alone later =
    elim (futex_enqueue-cases now pid uaddr val timeout s) [
      | inl e ↦ absurd (none_some (ap (λ (r : Option ℕ × Manager). r.0) (sym e ∙ waits)))
      | inr (i, e, lt, _) ↦
          let same : i ≡ j = some-inj (ap (λ (r : Option ℕ × Manager). r.0) (sym e ∙ waits)) in
          let stored = ap (λ (r : Option ℕ × Manager). r.1.waiters) (sym waits ∙ e) in
          let reads : (g l : ℕ)
              → t.waiters g l ≡ (
                  if futex_hash uaddr == g && j == l
                  then new_waiter now pid uaddr val timeout
                  else s.waiters g l) =
            λ g l.
              ap (λ (f : ℕ → ℕ → Waiter). f g l) stored
              ∙ set_waiter-read (futex_hash uaddr) i (new_waiter now pid uaddr val timeout) s g l
              ∙ ap
                  (λ (n : ℕ).
                    if futex_hash uaddr == g && n == l
                    then new_waiter now pid uaddr val timeout
                    else s.waiters g l)
                  same in
          let low : j < bucket_size = omega (arith, same, lt) in
          let (k, x, g, v) = (futex_wake-Woken uaddr nr 0 t).0 in
          let woken_now = new_woken now pid uaddr val timeout j s t low reads alone nr k x many v in
          let lost : Stranded pid (futex_sleep pid uaddr (futex_wake uaddr nr t).1) = rw g (record {
            asleep = rw (==_refl pid) refl;
            hidden = all_hidden now pid uaddr val timeout j s t low reads alone nr k x many v;
          }) in
          (rw g woken_now, Stranded-sleeps lost later)
    ]
  where
    none_some : {a : ℕ} → none ≡ some a → ⊥
    none_some e = cc

    some-inj : {a b : ℕ} → some a ≡ some b → a ≡ b
    some-inj e = cc
