-- ===== src/Futex/Wake.antt =====
-- kernel/proc/futex.c: the two wake calls.
use os2025_yyds.Common.{
  ℕ, ◌+◌, ◌%◌, ◌^◌, ◌≡◌, ◌≢◌, refl, inl, inr, Bool, true, false, ◌&&◌, some, none, arith, ◌==◌,
  Bool-cases, ne→==,
}
use os2025_yyds.Futex.{
  Proc, Waiter, Manager, bucket_size, futex_hash, futex_wake, futex_wake_bitset, is_sleeping, rouse,
  rouse_at, waits_at, meets,
}
use os2025_yyds.Futex.Loops.{waits_at-idle}
use os2025_yyds.Futex.Woken.{Woken, mark, wake_from-Woken}

rouse_at-twice : (uaddr : ℕ) (p : Proc) → rouse_at uaddr (rouse_at uaddr p) ≡ rouse_at uaddr p
unfolding is_sleeping
rouse_at-twice uaddr p = elim (Bool-cases (is_sleeping p && p.chan == uaddr)) [
  | inl e ↦ rw e refl
  | inr e ↦ rw (e, e) refl
]

rouse-twice : (p : Proc) → rouse (rouse p) ≡ rouse p
unfolding is_sleeping
rouse-twice p = elim (Bool-cases (is_sleeping p)) [ inl e ↦ rw e refl | inr e ↦ rw (e, e) refl ]

waits_at-mark : (uaddr : ℕ) (w : Waiter) → waits_at uaddr (mark w) ≡ false
waits_at-mark uaddr w = no (w.used) (w.uaddr == uaddr)
  where
    no : (a b : Bool) → (a && b && false) ≡ false
    no a b = ground arith

abbrev counts : Manager → ℕ → Manager
counts s k = record s { total_wakes = (s.total_wakes + k) % 2 ^ 64 }

-- `futex_wake` marks as many waiters of the address as it returns, at most `nr`, and stops before
-- only when none is left in the bucket. A process of a waiter that it marks is made runnable if it
-- sleeps on the address. No other waiter and no other process changes. `futex_wake_bitset` does the
-- same with the waiters whose bits meet, and makes their processes runnable if they sleep at all; it
-- fails, and changes nothing, for no bits.
pub futex_wake-Woken :
    (uaddr nr bitset : ℕ) (s : Manager)
    → ((k : ℕ) × (t : Manager) × (futex_wake uaddr nr s ≡ (k, counts t k))
        × Woken (waits_at uaddr) (rouse_at uaddr) (futex_hash uaddr) bucket_size 0 nr s k t)
      × (futex_wake_bitset uaddr nr 0 s ≡ (none, s))
      × (bitset ≢ 0
          → (k : ℕ) × (t : Manager) × (futex_wake_bitset uaddr nr bitset s ≡ (some k, counts t k))
            × Woken
                (λ w. waits_at uaddr w && meets 32 w.bitset bitset)
                rouse
                (futex_hash uaddr)
                bucket_size
                0
                nr
                s
                k
                t)
unfolding futex_wake futex_wake_bitset
futex_wake-Woken uaddr nr bitset s = (
  (
    _,
    _,
    refl,
    wake_from-Woken (waits_at uaddr) (rouse_at uaddr) (futex_hash uaddr)
        (λ w f. (waits_at-idle uaddr w f).1) (waits_at-mark uaddr) (rouse_at-twice uaddr)
        bucket_size 0 nr s,
  ),
  refl,
  λ some_bit. (
    _,
    _,
    rw (ne→== bitset 0 some_bit) refl,
    wake_from-Woken (λ w. waits_at uaddr w && meets 32 w.bitset bitset) rouse (futex_hash uaddr)
        (λ w f. (waits_at-idle uaddr w (left (waits_at uaddr w) (meets 32 w.bitset bitset) f)).1)
        (λ w. rw (waits_at-mark uaddr w) refl) rouse-twice bucket_size 0 nr s,
  ),
)
  where
    left : (a b : Bool) → (a && b) ≡ true → a ≡ true
    left true b e = refl
    left false b e = cc
