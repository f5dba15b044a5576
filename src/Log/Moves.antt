-- ===== src/Log/Moves.antt =====
-- kernel/filesystem/log.c: what each of `begin_op`, `log_write` and `end_op` leaves of a sound log.
use os2025_yyds.Common.{
  ℕ, suc, ◌+◌, ◌-◌, ◌*◌, ◌^◌, ◌≤◌, ◌<◌, ◌≡◌, refl, sym, ◌∙◌, ap, inl, inr, Bool, true, false, List,
  [], ◌∷◌, ◌++◌, none, some, arith, leb, ◌==◌, if◌then◌else◌, length, count, count-append,
  length-append, sum, sum-append, All, All-append, All-split, done, Bool-cases, ==_iff,
}
use os2025_yyds.Log.{
  Log, Block, maxopblocks, logsize, uint_dec, pin, modify, begin_op, commit, end_leave, end_commit,
}
use os2025_yyds.Log.Header.{IsWord}
use os2025_yyds.Log.Region.{is_home}
use os2025_yyds.Log.Commit.{IsReady}
use os2025_yyds.Log.Durable.{commit-After, commit-Clean}
use os2025_yyds.Log.System.{IsSound}
use os2025_yyds.Log.Absorb.{Distinct-snoc, AllHome-snoc}

-- What `IsReady` reads of a log.
pub IsReady-counters :
    (s : Log Block) (n : ℕ) (c : Bool)
    → IsReady s
    → IsReady (record s { outstanding = n; committing = c })
IsReady-counters s n c r = record {
  home = r.home;
  fits = r.fits;
  small = r.small;
  words = r.words;
  empty = r.empty;
  clean = r.clean;
}

pub sum-le : (xs : List ℕ) → All (λ k. k ≤ maxopblocks) xs → sum xs ≤ maxopblocks * length xs
sum-le [] h = omega arith
sum-le (x ∷ xs) h = omega (arith, h.0, sum-le xs h.1)

-- `begin_op` sleeps during a commit and where the log may run full; otherwise it only counts.
pub begin_op_lem :
    (s : Log Block)
    → s.committing ≡ false
    → s.outstanding * maxopblocks ≤ logsize
    → length s.lh ≤ logsize
    → begin_op s ≡ (
        if leb (length s.lh + (s.outstanding + 1) * maxopblocks) logsize
        then some (record s { outstanding = s.outstanding + 1 })
        else none)
unfolding begin_op
begin_op_lem s idle few small = ground arith

false-ne-true : false ≡ true → ⊥
false-ne-true e = cc

pub begun-IsSound :
    (s : Log Block) (bs : List ℕ)
    → IsSound s bs
    → s.committing ≡ false
    → length s.lh + (s.outstanding + 1) * maxopblocks ≤ logsize
    → IsSound (record s { outstanding = s.outstanding + 1 }) (maxopblocks ∷ bs)
begun-IsSound s bs v idle room = record {
  ready = IsReady-counters s (s.outstanding + 1) s.committing v.ready;
  distinct = v.distinct;
  counted = omega (arith, v.counted);
  reserved = omega (arith, v.counted, sum-le bs v.within);
  few = omega (arith, v.counted);
  within = (omega arith, v.within);
  busy = λ e. absurd (false-ne-true (sym idle ∙ e));
}

-- What a call that logs the block `b` leaves, by whether the header has the block.
unfoldable pub logged : ℕ → Block → Log Block → Log Block
logged b v s =
    if count b s.lh == 0
    then pin b (record (modify b v s) { lh = s.lh ++ b ∷ [] })
    else modify b v s

logged-committing : (b : ℕ) (v : Block) (s : Log Block) → s.committing ≡ (logged b v s).committing
unfolding logged
logged-committing b v s = ground arith

pub logged-IsReady :
    (b : ℕ) (v : Block) (s : Log Block)
    → IsReady s
    → is_home s.start s.size b ≡ true
    → length s.lh < logsize
    → length s.lh + 1 < s.size
    → IsWord b
    → IsReady (logged b v s)
unfolding logged
logged-IsReady b v s r h room fits word = elim (Bool-cases (count b s.lh == 0)) [
  | inl new ↦ rw new (record {
    home = AllHome-snoc s.start s.size s.lh b h r.home;
    fits = omega (arith, length-append s.lh (b ∷ []));
    small = omega (arith, length-append s.lh (b ∷ []));
    words = All-append _ s.lh (b ∷ []) r.words (word, tt);
    empty = r.empty;
    clean = λ q hq out. ground (arith, r.clean q, count-append q s.lh (b ∷ []));
  })
  | inr old ↦ rw old (record {
    home = r.home;
    fits = r.fits;
    small = r.small;
    words = r.words;
    empty = r.empty;
    clean = λ q hq out. ground (arith, r.clean q);
  })
]

pub logged-IsSound :
    (b k : ℕ) (v : Block) (s : Log Block) (xs ys : List ℕ)
    → is_home s.start s.size b ≡ true
    → IsWord b
    → length s.lh + 1 < s.size
    → IsSound s (xs ++ suc k ∷ ys)
    → IsSound (logged b v s) (xs ++ k ∷ ys)
unfolding logged
logged-IsSound b k v s xs ys h word fits w =
    let more = sum-append xs (suc k ∷ ys) in
    let less = sum-append xs (k ∷ ys) in
    let before = length-append xs (suc k ∷ ys) in
    let after = length-append xs (k ∷ ys) in
    let (left, right) = All-split _ xs (suc k ∷ ys) w.within in
    let room : length s.lh < logsize = omega (arith, more, less, w.reserved) in
    record {
      ready = logged-IsReady b v s w.ready h room fits word;
      distinct = elim (Bool-cases (count b s.lh == 0)) [
        | inl new ↦ rw new (Distinct-snoc s.lh b (ground arith) w.distinct)
        | inr old ↦ rw old w.distinct
      ];
      counted = ground (arith, before, after, w.counted);
      reserved = ground (arith, more, less, w.reserved, length-append s.lh (b ∷ []));
      few = omega (arith, before, after, w.few);
      within = All-append _ xs (k ∷ ys) left (omega (arith, right.0), right.1);
      busy = λ e. absurd (omega (arith, before, ap length (w.busy (logged-committing b v s ∙ e))));
    }

-- What `end_op` leaves when `n` calls stay.
unfoldable pub left_by : ℕ → Log Block → Log Block
left_by n s =
    if n == 0 then record s { outstanding = n; committing = true } else record s { outstanding = n }

pub end_leave_lem :
    (s : Log Block)
    → s.committing ≡ false
    → 0 < s.outstanding
    → s.outstanding < 2 ^ 32
    → end_leave s ≡ done (left_by (s.outstanding - 1) s)
unfolding end_leave left_by
end_leave_lem s idle running small =
    let e : uint_dec s.outstanding ≡ s.outstanding - 1 = omega arith in rw (e, idle) refl

nil_of_length : (l : List ℕ) → length l ≤ 0 → l ≡ []
nil_of_length [] h = refl
nil_of_length (x ∷ l) h = absurd (omega arith)

pub left_by-IsSound :
    (s : Log Block) (k : ℕ) (xs ys : List ℕ)
    → s.committing ≡ false
    → IsSound s (xs ++ k ∷ ys)
    → IsSound (left_by (s.outstanding - 1) s) (xs ++ ys)
unfolding left_by
left_by-IsSound s k xs ys idle v =
    let before = length-append xs (k ∷ ys) in
    let after = length-append xs ys in
    let more = sum-append xs (k ∷ ys) in
    let less = sum-append xs ys in
    let (left, right) = All-split _ xs (k ∷ ys) v.within in
    let n = s.outstanding - 1 in
    elim (Bool-cases (n == 0)) [
      | inl last ↦ rw last (record {
        ready = IsReady-counters s n true v.ready;
        distinct = v.distinct;
        counted = omega (arith, before, after, v.counted);
        reserved = omega (arith, more, less, v.reserved);
        few = omega (arith, before, after, v.few);
        within = All-append _ xs ys left right.1;
        busy = λ e.
            nil_of_length (xs ++ ys) (omega (arith, before, after, v.counted, (==_iff n 0).0 last));
      })
      | inr others ↦ rw others (record {
        ready = IsReady-counters s n s.committing v.ready;
        distinct = v.distinct;
        counted = omega (arith, before, after, v.counted);
        reserved = omega (arith, more, less, v.reserved);
        few = omega (arith, before, after, v.few);
        within = All-append _ xs ys left right.1;
        busy = λ e. absurd (false-ne-true (sym idle ∙ e));
      })
    ]

pub end_commit-IsSound : (s : Log Block) (bs : List ℕ) → IsSound s bs → IsSound (end_commit s) bs
unfolding end_commit
end_commit-IsSound s bs v =
    let a = commit-After s v.ready in
    record {
      ready =
          IsReady-counters (commit s) (commit s).outstanding false (commit-Clean s v.ready).ready;
      distinct = rw a.empty tt;
      counted = a.same_outstanding ∙ v.counted;
      reserved = omega (arith, ap length a.empty, v.reserved);
      few = v.few;
      within = v.within;
      busy = λ e. absurd (false-ne-true e);
    }
