-- ===== src/Freezer/Tests.antt =====
-- The statement about kernel/proc/freezer.c at a concrete process table.
use os2025_yyds.Common.{◌+◌, true, false}
use os2025_yyds.Freezer.{Freezer, freezer_init}

abbrev running : Freezer
running = freezer_init (λ i. record {
  pid = i + 1;
  in_use = true;
  cgroup_id = 1;
  frozen = false;
  freeze_reason = 0;
  freeze_prio = 4;
})
