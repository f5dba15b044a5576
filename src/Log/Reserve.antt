-- ===== src/Log/Reserve.antt =====
-- kernel/filesystem/log.c: the reservation of `begin_op`, and what the running calls log.
use os2025_yyds.Common.{
  ℕ, suc, ◌+◌, ◌-◌, ◌*◌, ◌^◌, ◌<◌, ◌≡◌, refl, sym, subst, ◌∙◌, inl, inr, List, ◌∷◌, ◌++◌, none,
  some, ap, arith, leb, ltb, ◌==◌, length, length-append, sum-append, panic, done, Bool-cases,
  leb→le, done-injective, true, false, if◌then◌else◌,
}
use mathlib.Core.Option.{some-injective}
use os2025_yyds.Log.{Log, Block, maxopblocks, logsize, modify, begin_op, log_write, end_leave}
use os2025_yyds.Log.Header.{IsWord}
use os2025_yyds.Log.Region.{is_home}
use os2025_yyds.Log.System.{
  World, Step, begins, writes, leaves, commits, IsSound, Reach, here, next,
}
use os2025_yyds.Log.Moves.{
  begin_op_lem, begun-IsSound, logged, logged-IsSound, left_by, end_leave_lem, left_by-IsSound,
  end_commit-IsSound,
}
use os2025_yyds.Log.Absorb.{log_write_lem}

none-ne-some {ℓ} : {A : Type ℓ} {t : A} → none ≡ some t → ⊥
none-ne-some h = cc

begin_op-busy : (s : Log Block) → s.committing ≡ true → begin_op s ≡ none
unfolding begin_op
begin_op-busy s e = rw e refl

begin_op-IsSound :
    (s t : Log Block) (bs : List ℕ)
    → IsSound s bs
    → begin_op s ≡ some t
    → IsSound t (maxopblocks ∷ bs)
begin_op-IsSound s t bs v e = elim (Bool-cases s.committing) [
  | inl busy ↦ absurd (none-ne-some (sym (begin_op-busy s busy) ∙ e))
  | inr idle ↦
      let spec = begin_op_lem s idle (omega (arith, v.counted, v.few)) v.ready.small in
      elim (Bool-cases (leb (length s.lh + (s.outstanding + 1) * maxopblocks) logsize)) [
        | inl room ↦
            subst (λ x. IsSound x (maxopblocks ∷ bs))
              (some-injective _ _ (sym (rw room at spec) ∙ e))
              (begun-IsSound s bs v idle (leb→le _ _ room))
        | inr full ↦ absurd (none-ne-some (sym (rw full at spec) ∙ e))
      ]
]

fitting :
    (b : ℕ) (v : Block) (s : Log Block)
    → length s.lh < logsize
    → ltb (length s.lh + 1) s.size ≡ true
    → 0 < s.outstanding
    → s.outstanding < 2 ^ 31
    → log_write b (modify b v s) ≡ done (logged b v s)
unfolding logged
fitting b v s room fits running small =
    log_write_lem b (modify b v s) room (ground (arith, fits)) running small

overfull :
    (b : ℕ) (v : Block) (s : Log Block)
    → ltb (length s.lh + 1) s.size ≡ false
    → log_write b (modify b v s) ≡ panic
unfolding log_write
overfull b v s full = ground (arith, full)

-- `log_write` of a call that has blocks left in its budget.
log_write-logged :
    (s : Log Block) (b k : ℕ) (v : Block) (xs ys : List ℕ)
    → IsSound s (xs ++ suc k ∷ ys)
    → (length s.lh < logsize)
      × (log_write b (modify b v s)
          ≡ (if ltb (length s.lh + 1) s.size then done (logged b v s) else panic))
log_write-logged s b k v xs ys w =
    let more = sum-append xs (suc k ∷ ys) in
    let before = length-append xs (suc k ∷ ys) in
    let room : length s.lh < logsize = omega (arith, more, w.reserved) in
    (
      room,
      elim (Bool-cases (ltb (length s.lh + 1) s.size)) [
        | inl fits ↦ rw fits (
            fitting b v s room fits (omega (arith, before, w.counted))
              (omega (arith, w.few, w.counted)))
        | inr full ↦ rw full (overfull b v s full)
      ],
    )

panic-ne-done {ℓ} : {A : Type ℓ} {t : A} → panic ≡ done t → ⊥
panic-ne-done h = cc

log_write-IsSound :
    (s t : Log Block) (b k : ℕ) (v : Block) (xs ys : List ℕ)
    → is_home s.start s.size b ≡ true
    → IsWord b
    → IsSound s (xs ++ suc k ∷ ys)
    → log_write b (modify b v s) ≡ done t
    → IsSound t (xs ++ k ∷ ys)
log_write-IsSound s t b k v xs ys home word w e =
    let spec = (log_write-logged s b k v xs ys w).1 in
    elim (Bool-cases (ltb (length s.lh + 1) s.size)) [
      | inl fits ↦
          subst (λ x. IsSound x (xs ++ k ∷ ys)) (done-injective (sym (rw fits at spec) ∙ e))
            (logged-IsSound b k v s xs ys home word (ground (arith, fits)) w)
      | inr full ↦ absurd (panic-ne-done (sym (rw full at spec) ∙ e))
    ]

-- A running call keeps the log from committing.
running-idle :
    (s : Log Block) (k : ℕ) (xs ys : List ℕ) → IsSound s (xs ++ k ∷ ys) → s.committing ≡ false
running-idle s k xs ys v = elim (Bool-cases s.committing) [
  | inl busy ↦ absurd (omega (arith, length-append xs (k ∷ ys), ap length (v.busy busy)))
  | inr idle ↦ idle
]

end_leave-done :
    (s : Log Block) (k : ℕ) (xs ys : List ℕ)
    → IsSound s (xs ++ k ∷ ys)
    → end_leave s ≡ done (left_by (s.outstanding - 1) s)
end_leave-done s k xs ys v =
    end_leave_lem s (running-idle s k xs ys v) (omega (arith, length-append xs (k ∷ ys), v.counted))
      (omega (arith, v.few, v.counted))

-- Each step of a call, that is `begin_op`, `log_write` of a block with its new content, `end_op`
-- until it gives up the lock, or the commit behind it, keeps the log sound for the budgets of the
-- running calls. A commit without a buffer to take is no step.
pub Step-IsSound :
    {w w' : World Block} → Step w w' → IsSound w.log w.budgets → IsSound w'.log w'.budgets
Step-IsSound {w} {w'} (begins e bs) v =
    subst (IsSound w'.log) (sym bs) (begin_op-IsSound w.log w'.log w.budgets v e)
Step-IsSound {w} {w'} (writes xs ys k b val old home word e bs) v =
    subst (IsSound w'.log) (sym bs)
      (log_write-IsSound w.log w'.log b k val xs ys home word (subst (IsSound w.log) old v) e)
Step-IsSound {w} {w'} (leaves xs ys k old e bs) v =
    let v' : IsSound w.log (xs ++ k ∷ ys) = subst (IsSound w.log) old v in
    subst (IsSound w'.log) (sym bs) (
      subst (λ x. IsSound x (xs ++ ys)) (done-injective (sym (end_leave-done w.log k xs ys v') ∙ e))
        (left_by-IsSound w.log k xs ys (running-idle w.log k xs ys v') v'))
Step-IsSound {w} {w'} (commits busy e fed bs) v =
    subst (IsSound w'.log) (sym bs)
      (subst (λ x. IsSound x w.budgets) (sym e) (end_commit-IsSound w.log w.budgets v))

pub Reach-IsSound :
    {w u : World Block} → IsSound w.log w.budgets → Reach w u → IsSound u.log u.budgets
Reach-IsSound v here = v
Reach-IsSound v (next r st) = Step-IsSound st (Reach-IsSound v r)

left_by-committing :
    (q : Log Block) (n : ℕ) {m : ℕ}
    → q.committing ≡ false
    → (left_by n q).outstanding ≡ m
    → (left_by n q).committing ≡ (m == 0)
unfolding left_by
left_by-committing q n idle count = ground (arith, idle, count)

-- From a sound state, after any steps: `end_op` of each running call gives up the lock without
-- a panic. `outstanding` is then the number of the other running calls, and the log is committing just if
-- there is none.
pub end_op_succeeds :
    {w u : World Block} (xs ys : List ℕ) (k : ℕ)
    → IsSound w.log w.budgets
    → Reach w u
    → u.budgets ≡ xs ++ k ∷ ys
    → (t : Log Block) × (end_leave u.log ≡ done t)
      × (t.outstanding ≡ length (xs ++ ys))
      × (t.committing ≡ (length (xs ++ ys) == 0))
end_op_succeeds {w} {u} xs ys k s r e =
    let v : IsSound u.log (xs ++ k ∷ ys) = subst (IsSound u.log) e (Reach-IsSound s r) in
    let idle = running-idle u.log k xs ys v in
    let count = (left_by-IsSound u.log k xs ys idle v).counted in
    (_, end_leave-done u.log k xs ys v, count, left_by-committing u.log _ idle count)
