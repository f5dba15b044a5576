-- ===== src/Futex/Loops.antt =====
-- kernel/proc/futex.c: what the loops over a bucket keep.
use os2025_yyds.Common.{
  ℕ, zero, suc, ◌+◌, ◌-◌, ◌≡◌, refl, sym, ◌∙◌, ap, ◌⊎◌, inl, inr, Bool, true, false, not, ◌&&◌,
  arith, ltb, ◌==◌, if◌then◌else◌, update, Bool-cases, ==_iff, ne→==, ℕ_discrete, ◌%◌, ◌^◌, ◌<◌,
  some, none, first_of-cases,
}
use os2025_yyds.Futex.{
  new_waiter, bucket_size, futex_hash, find_free_waiter, futex_enqueue, Proc, Waiter, Manager,
  set_waiter, waits_at, rouse, wake_one, wake_from, requeue_from,
}

-- What a bucket shows after a write.
pub set_waiter-read :
    (h j : ℕ) (w : Waiter) (s : Manager) (g i : ℕ)
    → (set_waiter h j w s).waiters g i ≡ (if h == g && j == i then w else s.waiters g i)
set_waiter-read h j w s g i = elim (ℕ_discrete h g) [
  | no apart ↦ rw (ne→== h g apart) refl
  | yes same ↦
      let there : (h == g) ≡ true = (==_iff h g).1 same in
      elim (Bool-cases (j == i)) [
        | inl at ↦ rw (there, at) refl
        | inr away ↦ rw (there, away) (ap (λ (m : ℕ). s.waiters m i) same)
      ]
]

-- A call that waits finds the bucket full, or takes a free slot.
pub futex_enqueue-cases :
    (now pid uaddr val timeout : ℕ) (s : Manager)
    → (futex_enqueue now pid uaddr val timeout s ≡ (none, s))
      ⊎ ((j : ℕ) × (futex_enqueue now pid uaddr val timeout s ≡ (
        some j,
        record (set_waiter (futex_hash uaddr) j (new_waiter now pid uaddr val timeout) s) {
          count = update s.count (futex_hash uaddr) (s.count (futex_hash uaddr) + 1);
          total_waits = (s.total_waits + 1) % 2 ^ 64;
        },
      ))
          × (j < bucket_size)
          × ((s.waiters (futex_hash uaddr) j).used ≡ false))
unfolding futex_enqueue find_free_waiter
futex_enqueue-cases now pid uaddr val timeout s =
    elim (first_of-cases bucket_size (λ j. not (s.waiters (futex_hash uaddr) j).used)) [
      | inl (e, _) ↦ inl (rw (futex_enqueue, find_free_waiter, e) refl)
      | inr (j, e, f) ↦ inr (
        j,
        rw (futex_enqueue, find_free_waiter, e) refl,
        f.below,
        not_true (s.waiters (futex_hash uaddr) j).used f.hit,
      )
    ]
  where
    not_true : (b : Bool) → not b ≡ true → b ≡ false
    not_true false e = refl
    not_true true e = cc

pub waits_at-idle :
    (uaddr : ℕ) (w : Waiter) → waits_at uaddr w ≡ true → (w.used ≡ true) × (w.woken ≡ false)
waits_at-idle uaddr w e = elim (Bool-cases w.used) [
  | inr off ↦ absurd (clash (sym e ∙ rw off refl))
  | inl on ↦ (
    on,
    elim (Bool-cases w.woken) [
      | inr asleep ↦ asleep
      | inl up ↦ absurd (clash (sym e ∙ off w.used (w.uaddr == uaddr) w.woken up))
    ],
  )
]
  where
    clash : true ≡ false → ⊥
    clash p = cc

    off : (a b c : Bool) → c ≡ true → (a && b && not c) ≡ false
    off a b c p = ground (arith, p)

pub waits_at-addr : (uaddr : ℕ) (w : Waiter) → waits_at uaddr w ≡ true → w.uaddr ≡ uaddr
waits_at-addr uaddr w e =
    (==_iff w.uaddr uaddr).0 (middle w.used (w.uaddr == uaddr) (not w.woken) e)
  where
    middle : (a b c : Bool) → (a && b && c) ≡ true → b ≡ true
    middle a b c e = ground (arith, e)

module _ (P : Manager → Type 0) where
  pub wake_from-keeps :
      (fits : Waiter → Bool) (wake : Proc → Proc) (h n j nr : ℕ) (s : Manager)
      → ((i : ℕ) (s : Manager) → fits (s.waiters h i) ≡ true → P s → P (wake_one wake h i s))
      → P s
      → P (wake_from fits wake h n j nr s).1
  unfolding wake_from
  wake_from-keeps fits wake h zero j nr s one p = p
  wake_from-keeps fits wake h (suc n) j nr s one p =
      elim (Bool-cases (ltb 0 nr && fits (s.waiters h j))) [
        | inr e ↦ rw e (wake_from-keeps fits wake h n (j + 1) nr s one p)
        | inl e ↦ rw e (
            wake_from-keeps fits wake h n (j + 1) (nr - 1) (wake_one wake h j s) one
              (one j s (second (ltb 0 nr) (fits (s.waiters h j)) e) p))
      ]
    where
      second : (a b : Bool) → (a && b) ≡ true → b ≡ true
      second true b e = e
      second false b e = cc

  pub requeue_from-keeps :
      (uaddr uaddr2 h n j nr nr2 : ℕ) (s : Manager)
      → ((i : ℕ) (s : Manager)
          → waits_at uaddr (s.waiters h i) ≡ true
          → P s
          → P (wake_one rouse h i s))
      → ((i : ℕ) (s : Manager)
          → waits_at uaddr (s.waiters h i) ≡ true
          → P s
          → P (set_waiter h i (record (s.waiters h i) { uaddr = uaddr2 }) s))
      → P s
      → P (requeue_from uaddr uaddr2 h n j nr nr2 s).2
  unfolding requeue_from
  requeue_from-keeps uaddr uaddr2 h zero j nr nr2 s one move p = p
  requeue_from-keeps uaddr uaddr2 h (suc n) j nr nr2 s one move p =
      let past = requeue_from-keeps uaddr uaddr2 h n (j + 1) nr nr2 s one move p in
      elim (Bool-cases (waits_at uaddr (s.waiters h j))) [
        | inr e ↦ rw e past
        | inl e ↦ elim (Bool-cases (ltb 0 nr)) [
          | inl a ↦
              rw (e, a)
                (requeue_from-keeps uaddr uaddr2 h n (j + 1) (nr - 1) nr2 (wake_one rouse h j s) one
                  move (one j s e p))
          | inr a ↦ elim (Bool-cases (ltb 0 nr2)) [
            | inl b ↦
                rw (e, a, b)
                  (requeue_from-keeps uaddr uaddr2 h n (j + 1) nr (nr2 - 1)
                    (set_waiter h j (record (s.waiters h j) { uaddr = uaddr2 }) s) one move
                    (move j s e p))
            | inr b ↦ rw (e, a, b) past
          ]
        ]
      ]
