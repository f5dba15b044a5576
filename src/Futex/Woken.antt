-- ===== src/Futex/Woken.antt =====
-- kernel/proc/futex.c: whom the loop of a wake call wakes.
use os2025_yyds.Common.{
  ℕ, zero, suc, ◌+◌, ◌-◌, ◌≤◌, ◌<◌, ◌≡◌, ◌≢◌, refl, sym, ◌∙◌, ap, subst, ◌⊎◌, inl, inr, Bool, true,
  false, ◌&&◌, arith, ltb, ◌==◌, if◌then◌else◌, Bool-cases, ==_refl, ne→==, ℕ_discrete, dec_lt,
}
use os2025_yyds.Futex.{Proc, Waiter, Manager, wake_one, wake_from}
use os2025_yyds.Futex.Loops.{set_waiter-read}

-- How many of the `n` waiters of the bucket from `j` on are marked as woken.
pub awake : ℕ → ℕ → ℕ → Manager → ℕ
awake h zero j s = 0
awake h (suc n) j s = (if (s.waiters h j).woken then 1 else 0) + awake h n (j + 1) s

abbrev pub mark : Waiter → Waiter
mark w = record w { woken = true }

-- Of `n` waiters from `j` on, `k` that fit are woken, and no other waiter and no other process.
pub record Woken (fits : Waiter → Bool) (wake : Proc → Proc) (h n j nr : ℕ) (s : Manager) (k : ℕ)
    (t : Manager) : Type 0 where
  pub others : (g i : ℕ) → (h ≢ g) ⊎ ((i < j) ⊎ (j + n ≤ i)) → t.waiters g i ≡ s.waiters g i
  pub slots :
      (i : ℕ)
      → j ≤ i
      → i < j + n
      → (t.waiters h i ≡ s.waiters h i)
        ⊎ ((fits (s.waiters h i) ≡ true) × (t.waiters h i ≡ mark (s.waiters h i)))
  pub most : k ≤ nr
  pub fewer : k ≤ n
  pub enough : (k ≡ nr) ⊎ ((i : ℕ) → j ≤ i → i < j + n → fits (t.waiters h i) ≡ false)
  pub number : awake h n j t ≡ k + awake h n j s
  pub procs :
      (q : ℕ)
      → (t.procs q ≡ s.procs q)
        ⊎ ((i : ℕ) × (j ≤ i)
            × (i < j + n)
            × ((s.waiters h i).proc ≡ q)
            × ((s.waiters h i).woken ≡ false)
            × ((t.waiters h i).woken ≡ true)
            × (t.procs q ≡ wake (s.procs q)))
  pub same_count : t.count ≡ s.count
  pub same_waits : t.total_waits ≡ s.total_waits
  pub same_wakes : t.total_wakes ≡ s.total_wakes
  pub same_requeues : t.total_requeues ≡ s.total_requeues
  pub roused :
      (i : ℕ)
      → j ≤ i
      → i < j + n
      → (s.waiters h i).woken ≡ false
      → (t.waiters h i).woken ≡ true
      → t.procs (s.waiters h i).proc ≡ wake (s.procs (s.waiters h i).proc)

module _ (fits : Waiter → Bool) (wake : Proc → Proc) (h : ℕ)
    (idle : (w : Waiter) → fits w ≡ true → w.woken ≡ false)
    (gone : (w : Waiter) → fits (mark w) ≡ false)
    (twice : (p : Proc) → wake (wake p) ≡ wake p) where
  clash : true ≡ false → ⊥
  clash p = cc

  one_other :
      (j : ℕ) (s : Manager) (g i : ℕ)
      → (h ≢ g) ⊎ (j ≢ i)
      → (wake_one wake h j s).waiters g i ≡ s.waiters g i
  one_other j s g i apart = set_waiter-read h j (mark (s.waiters h j)) s g i ∙ (elim apart [
    | inl a ↦ rw (ne→== h g a) refl
    | inr b ↦ elim (Bool-cases (h == g)) [ inl e ↦ rw (e, ne→== j i b) refl | inr e ↦ rw e refl ]
  ])

  one_here : (j : ℕ) (s : Manager) → (wake_one wake h j s).waiters h j ≡ mark (s.waiters h j)
  one_here j s = set_waiter-read h j (mark (s.waiters h j)) s h j ∙ rw (==_refl h, ==_refl j) refl

  one_proc :
      (j : ℕ) (s : Manager)
      → (wake_one wake h j s).procs (s.waiters h j).proc ≡ wake (s.procs (s.waiters h j).proc)
  one_proc j s = rw (==_refl (s.waiters h j).proc) refl

  one_procs :
      (j : ℕ) (s : Manager) (q : ℕ)
      → ((wake_one wake h j s).procs q ≡ s.procs q)
        ⊎ (((s.waiters h j).proc ≡ q) × ((wake_one wake h j s).procs q ≡ wake (s.procs q)))
  one_procs j s q = elim (ℕ_discrete (s.waiters h j).proc q) [
    | yes same ↦
        inr
          (same, subst (λ p. (wake_one wake h j s).procs p ≡ wake (s.procs p)) same (one_proc j s))
    | no apart ↦ inl (rw (ne→== (s.waiters h j).proc q apart) refl)
  ]

  later-awake :
      (n i j : ℕ) (s : Manager) → j < i → awake h n i (wake_one wake h j s) ≡ awake h n i s
  unfolding awake
  later-awake zero i j s lt = refl
  later-awake (suc n) i j s lt =
      let same = one_other j s h i (inr (λ e. omega (arith, lt, e))) in
      let rest = later-awake n (i + 1) j s (omega (arith, lt)) in
      rw (ap (λ (w : Waiter). w.woken) same, rest) refl

  pub wake_from-Woken :
      (n j nr : ℕ) (s : Manager)
      → Woken fits wake h n j nr s
          (wake_from fits wake h n j nr s).0
          (wake_from fits wake h n j nr s).1
  unfolding wake_from awake
  wake_from-Woken zero j nr s = record {
    others = λ g i _. refl;
    slots = λ i lo hi. inl refl;
    most = omega arith;
    fewer = omega arith;
    enough = inr (λ i lo hi. absurd (omega (arith, lo, hi)));
    number = refl;
    procs = λ q. inl refl;
    same_count = refl;
    same_waits = refl;
    same_wakes = refl;
    same_requeues = refl;
    roused = λ i lo hi. absurd (omega (arith, lo, hi));
  }
  wake_from-Woken (suc n) j nr s = elim (Bool-cases (ltb 0 nr && fits (s.waiters h j))) [
    | inr e ↦ rw e (past e (wake_from-Woken n (j + 1) nr s))
    | inl e ↦ rw e (here e (wake_from-Woken n (j + 1) (nr - 1) (wake_one wake h j s)))
  ]
    where
      right : (a b : Bool) → (a && b) ≡ true → b ≡ true
      right true b e = e
      right false b e = cc

      past :
          (ltb 0 nr && fits (s.waiters h j)) ≡ false
          → {k : ℕ} {t : Manager} → Woken fits wake h n (j + 1) nr s k t
          → Woken fits wake h (suc n) j nr s k t
      past e {k} {t} v =
          let first : t.waiters h j ≡ s.waiters h j = v.others h j (inr (inl (omega arith))) in
          record {
            others = λ g i out. v.others g i (wider g i out);
            slots = λ i lo hi. elim (ℕ_discrete j i) [
              | yes it ↦ inl (subst (λ l. t.waiters h l ≡ s.waiters h l) it first)
              | no later ↦ v.slots i (omega (arith, lo, later)) (omega (arith, hi))
            ];
            most = v.most;
            fewer = omega (arith, v.fewer);
            enough = elim v.enough [
              | inl all ↦ inl all
              | inr none_left ↦ elim (dec_lt 0 nr) [
                | no no_more ↦ inl (omega (arith, v.most, no_more))
                | yes more ↦ inr (λ i lo hi. elim (ℕ_discrete j i) [
                  | yes it ↦
                      subst (λ l. fits (t.waiters h l) ≡ false) it
                        (ap fits first ∙ left nr (fits (s.waiters h j)) more e)
                  | no later ↦ none_left i (omega (arith, lo, later)) (omega (arith, hi))
                ])
              ]
            ];
            number = rw (ap (λ (w : Waiter). w.woken) first, v.number) (omega arith);
            procs = λ q. elim (v.procs q) [
              | inl a ↦ inl a
              | inr (i, lo, hi, mine, was, up, a) ↦
                  inr (i, omega (arith, lo), omega (arith, hi), mine, was, up, a)
            ];
            same_count = v.same_count;
            same_waits = v.same_waits;
            same_wakes = v.same_wakes;
            same_requeues = v.same_requeues;
            roused = λ i lo hi was now. elim (ℕ_discrete j i) [
              | yes it ↦ absurd (
                  clash (
                    sym (
                      ap (λ (w : Waiter). w.woken)
                        (sym (subst (λ l. t.waiters h l ≡ s.waiters h l) it first))
                      ∙ now)
                    ∙ was))
              | no later ↦ v.roused i (omega (arith, lo, later)) (omega (arith, hi)) was now
            ];
          }
        where
          wider :
              (g i : ℕ)
              → (h ≢ g) ⊎ ((i < j) ⊎ (j + suc n ≤ i))
              → (h ≢ g) ⊎ ((i < j + 1) ⊎ (j + 1 + n ≤ i))
          wider g i (inl a) = inl a
          wider g i (inr (inl a)) = inr (inl (omega (arith, a)))
          wider g i (inr (inr a)) = inr (inr (omega (arith, a)))

          left : (m : ℕ) (b : Bool) → 0 < m → (ltb 0 m && b) ≡ false → b ≡ false
          left m false lt e = refl
          left m true lt e = absurd (clash (sym (ground (arith, lt)) ∙ e))

      here :
          (ltb 0 nr && fits (s.waiters h j)) ≡ true
          → {k : ℕ} {t : Manager} → Woken fits wake h n (j + 1) (nr - 1) (wake_one wake h j s) k t
          → Woken fits wake h (suc n) j nr s (k + 1) t
      here e {k} {t} v =
          let s1 : Manager = wake_one wake h j s in
          let some_left : 0 < nr = more nr (fits (s.waiters h j)) e in
          let hit : fits (s.waiters h j) ≡ true = right (ltb 0 nr) (fits (s.waiters h j)) e in
          let first : t.waiters h j ≡ mark (s.waiters h j) =
            v.others h j (inr (inl (omega arith))) ∙ one_here j s in
          let after : (i : ℕ) → j ≢ i → s1.waiters h i ≡ s.waiters h i =
            λ i apart. one_other j s h i (inr apart) in
          let again : (q : ℕ)
              → (s1.procs q ≡ s.procs q)
                ⊎ (((s.waiters h j).proc ≡ q) × (s1.procs q ≡ wake (s.procs q))) =
            one_procs j s in
          let woken_now : (t.waiters h j).woken ≡ true = ap (λ (w : Waiter). w.woken) first in
          record {
            others = λ g i out.
                v.others g i (wider g i out)
                ∙ one_other j s g i (elim out [
                  | inl a ↦ inl a
                  | inr (inl a) ↦ inr (λ x. omega (arith, a, x))
                  | inr (inr a) ↦ inr (λ x. omega (arith, a, x))
                ]);
            slots = λ i lo hi. elim (ℕ_discrete j i) [
              | yes it ↦ inr (
                  subst
                    (λ l. (fits (s.waiters h l) ≡ true) × (t.waiters h l ≡ mark (s.waiters h l))) it
                    (hit, first))
              | no later ↦
                  subst (λ w. (t.waiters h i ≡ w) ⊎ ((fits w ≡ true) × (t.waiters h i ≡ mark w)))
                    (after i later) (v.slots i (omega (arith, lo, later)) (omega (arith, hi)))
            ];
            most = omega (arith, v.most, some_left);
            fewer = omega (arith, v.fewer);
            enough = elim v.enough [
              | inl all ↦ inl (omega (arith, all, some_left))
              | inr none_left ↦ inr (λ i lo hi. elim (ℕ_discrete j i) [
                | yes it ↦
                    subst (λ l. fits (t.waiters h l) ≡ false) it
                      (ap fits first ∙ gone (s.waiters h j))
                | no later ↦ none_left i (omega (arith, lo, later)) (omega (arith, hi))
              ])
            ];
            number =
                rw
                  (
                    ap (λ (w : Waiter). w.woken) first,
                    idle (s.waiters h j) hit,
                    v.number,
                    later-awake n (j + 1) j s (omega arith),
                  )
                  (omega arith);
            procs = λ q. elim (v.procs q) [
              | inl a ↦ elim (again q) [
                | inl b ↦ inl (a ∙ b)
                | inr (mine, b) ↦
                    inr (
                      j,
                      omega arith,
                      omega arith,
                      mine,
                      idle (s.waiters h j) hit,
                      woken_now,
                      a ∙ b,
                    )
              ]
              | inr (i, lo, hi, mine, was, now, a) ↦
                  let same : s1.waiters h i ≡ s.waiters h i = after i (λ x. omega (arith, x, lo)) in
                  inr (
                    i,
                    omega (arith, lo),
                    omega (arith, hi),
                    ap (λ (w : Waiter). w.proc) (sym same) ∙ mine,
                    ap (λ (w : Waiter). w.woken) (sym same) ∙ was,
                    now,
                    elim (again q) [
                      | inl b ↦ a ∙ ap wake b
                      | inr (_, b) ↦ a ∙ ap wake b ∙ twice (s.procs q)
                    ],
                  )
            ];
            same_count = v.same_count;
            same_waits = v.same_waits;
            same_wakes = v.same_wakes;
            same_requeues = v.same_requeues;
            roused = λ i lo hi was now. elim (ℕ_discrete j i) [
              | yes it ↦
                  subst (λ l. t.procs (s.waiters h l).proc ≡ wake (s.procs (s.waiters h l).proc)) it
                    (elim (v.procs (s.waiters h j).proc) [
                      | inl a ↦ a ∙ one_proc j s
                      | inr (_, _, _, _, _, _, a) ↦
                          a ∙ ap wake (one_proc j s) ∙ twice (s.procs (s.waiters h j).proc)
                    ])
              | no later ↦
                  let same : (s1.waiters h i).proc ≡ (s.waiters h i).proc =
                    ap (λ (w : Waiter). w.proc) (after i later) in
                  let q : ℕ = (s.waiters h i).proc in
                  let e : t.procs q ≡ wake (s1.procs q) =
                    subst (λ p. t.procs p ≡ wake (s1.procs p)) same
                      (v.roused i (omega (arith, lo, later)) (omega (arith, hi))
                        (ap (λ (w : Waiter). w.woken) (after i later) ∙ was) now) in
                  elim (again q) [
                    | inl b ↦ e ∙ ap wake b
                    | inr (_, b) ↦ e ∙ ap wake b ∙ twice (s.procs q)
                  ]
            ];
          }
        where
          more : (m : ℕ) (b : Bool) → (ltb 0 m && b) ≡ true → 0 < m
          more zero b e = absurd (clash (sym e))
          more (suc m) b e = omega arith

          wider :
              (g i : ℕ)
              → (h ≢ g) ⊎ ((i < j) ⊎ (j + suc n ≤ i))
              → (h ≢ g) ⊎ ((i < j + 1) ⊎ (j + 1 + n ≤ i))
          wider g i (inl a) = inl a
          wider g i (inr (inl a)) = inr (inl (omega (arith, a)))
          wider g i (inr (inr a)) = inr (inr (omega (arith, a)))
