-- ===== src/Freezer/Thaw.antt =====
-- kernel/proc/freezer.c: a process that is frozen and thawed again.
use os2025_yyds.Common.{ℕ, ◌+◌, ◌%◌, ◌^◌, ◌≡◌, refl, true, none, update}
use os2025_yyds.Freezer.{
  FrozenProc, Freezer, find_frozen_record, alloc_frozen_record, set_proc, note_freeze, count_freeze,
  mark_frozen,
}

abbrev new_record : ℕ → ℕ → ℕ → FrozenProc → FrozenProc
new_record now pid reason f = record f {
  used = true;
  pid = pid;
  freeze_state = 2;
  freeze_reason = reason;
  freeze_time = now;
}

abbrev noted : ℕ → ℕ → ℕ → ℕ → Freezer → Freezer
noted now pid reason k s = record s {
  records = update s.records k (new_record now pid reason (s.records k));
  frozen_count = (s.frozen_count + 1) % 2 ^ 32;
}

note_freeze-full :
    (now pid reason : ℕ) (s : Freezer)
    → find_frozen_record pid s ≡ none
    → alloc_frozen_record s ≡ none
    → note_freeze now pid reason s ≡ s
unfolding note_freeze
note_freeze-full now pid reason s e f = rw (e, f, note_freeze) refl

-- The state when the process `i` is frozen, with its record at `k`.
abbrev frozen_at : ℕ → ℕ → ℕ → ℕ → ℕ → Freezer → Freezer
frozen_at now pid reason i k s =
    count_freeze reason (noted now pid reason k (set_proc i (mark_frozen reason (s.procs i)) s))
