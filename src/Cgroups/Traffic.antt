-- ===== src/Cgroups/Traffic.antt =====
-- kernel/proc/cgroups.c: the limits on disk and network traffic, by token buckets.
pub mod Rate
pub mod Starve
use os2025_yyds.Common.{
  ℕ, ◌+◌, ◌-◌, ◌*◌, ◌/◌, ◌%◌, ◌^◌, Bool, true, false, not, ◌&&◌, ◌||◌, Option, none, some, ltb, leb,
  ◌==◌, if◌then◌else◌,
}
use os2025_yyds.Cgroups.{
  Bucket, IoController, NetController, Cgroup, Cgroups, u64, find_group, find_proc, set_group,
  change,
}

-- The bucket at the time `now`: `now` is a `uint`, and the products and sums are `uint64`s.
pub refill : ℕ → Bucket → Bucket
refill now b =
    let elapsed = u64 (now + 2 ^ 64 - b.last_time) in
    let tokens = u64 (b.tokens + u64 (elapsed * b.bps_limit) / 100) in
    record b { tokens = if ltb b.bps_limit tokens then b.bps_limit else tokens; last_time = now }

pub pay : ℕ → Bucket → Bucket
pay bytes b = record b {
  tokens = b.tokens - bytes;
  bytes = u64 (b.bytes + bytes);
  ops = u64 (b.ops + 1);
}

-- Whether the bytes may pass, and the bucket afterwards.
pub meter : ℕ → ℕ → Bucket → Bool × Bucket
meter now bytes b =
    let r = refill now b in if leb bytes r.tokens then (true, pay bytes r) else (false, r)

-- A group after a check of one of its four directions.
unfoldable pub io_read_in : ℕ → ℕ → Cgroup → Bool × Cgroup
io_read_in now bytes g =
    let (ok, b) = meter now bytes g.io.read_io in
    if not g.io.enabled || g.io.read_io.bps_limit == 0 then (true, g) else (
      ok,
      record g {
        io = record (g.io) { read_io = b; throttled = g.io.throttled || not ok };
        io_throttle_count = if ok then g.io_throttle_count else u64 (g.io_throttle_count + 1);
      },
    )

unfoldable pub io_write_in : ℕ → ℕ → Cgroup → Bool × Cgroup
io_write_in now bytes g =
    let (ok, b) = meter now bytes g.io.write_io in
    if not g.io.enabled || g.io.write_io.bps_limit == 0 then (true, g) else (
      ok,
      record g {
        io = record (g.io) { write_io = b; throttled = g.io.throttled || not ok };
        io_throttle_count = if ok then g.io_throttle_count else u64 (g.io_throttle_count + 1);
      },
    )

unfoldable pub net_tx_in : ℕ → ℕ → Cgroup → Bool × Cgroup
net_tx_in now bytes g =
    let (ok, b) = meter now bytes g.net.tx in
    if not g.net.enabled || g.net.tx.bps_limit == 0 then (true, g) else (
      ok,
      record g {
        net = record (g.net) { tx = b; throttled = g.net.throttled || not ok };
        net_throttle_count = if ok then g.net_throttle_count else u64 (g.net_throttle_count + 1);
      },
    )

unfoldable pub net_rx_in : ℕ → ℕ → Cgroup → Bool × Cgroup
net_rx_in now bytes g =
    let (ok, b) = meter now bytes g.net.rx in
    if not g.net.enabled || g.net.rx.bps_limit == 0 then (true, g) else (
      ok,
      record g {
        net = record (g.net) { rx = b; throttled = g.net.throttled || not ok };
        net_throttle_count = if ok then g.net_throttle_count else u64 (g.net_throttle_count + 1);
      },
    )

-- A check in the first group of the process; a process in no group is not limited.
unfoldable pub check_in : ℕ → (Cgroup → Bool × Cgroup) → Cgroups → Bool × Cgroups
check_in pid f s = elim (find_proc pid s) [
  | none ↦ (true, s)
  | some i ↦ (let (ok, g) = f (s.groups i) in (ok, set_group i g s))
]

unfoldable pub cgroup_check_io_read : ℕ → ℕ → ℕ → Cgroups → Bool × Cgroups
cgroup_check_io_read now pid bytes s = check_in pid (io_read_in now bytes) s

unfoldable pub cgroup_check_io_write : ℕ → ℕ → ℕ → Cgroups → Bool × Cgroups
cgroup_check_io_write now pid bytes s = check_in pid (io_write_in now bytes) s

unfoldable pub cgroup_check_net_tx : ℕ → ℕ → ℕ → Cgroups → Bool × Cgroups
cgroup_check_net_tx now pid bytes s = check_in pid (net_tx_in now bytes) s

unfoldable pub cgroup_check_net_rx : ℕ → ℕ → ℕ → Cgroups → Bool × Cgroups
cgroup_check_net_rx now pid bytes s = check_in pid (net_rx_in now bytes) s

abbrev pub unless_zero : ℕ → ℕ → ℕ
unless_zero new old = if new == 0 then old else new

unfoldable pub with_io_limit : ℕ → ℕ → ℕ → Cgroup → Option Cgroup
with_io_limit read_bps write_bps weight g = some (record g {
  io = record (g.io) {
    read_io = record (g.io.read_io) { bps_limit = unless_zero read_bps g.io.read_io.bps_limit };
    write_io = record (g.io.write_io) { bps_limit = unless_zero write_bps g.io.write_io.bps_limit };
    io_weight = if leb 100 weight && leb weight 1000 then weight else g.io.io_weight;
  };
})

unfoldable pub cgroup_set_io_limit : ℕ → ℕ → ℕ → ℕ → Cgroups → Bool × Cgroups
cgroup_set_io_limit id read_bps write_bps weight s =
    change id (with_io_limit read_bps write_bps weight) s

unfoldable pub with_io_iops : ℕ → ℕ → Cgroup → Option Cgroup
with_io_iops read_iops write_iops g = some (record g {
  io = record (g.io) {
    read_io = record (g.io.read_io) { ops_limit = unless_zero read_iops g.io.read_io.ops_limit };
    write_io = record (g.io.write_io) {
      ops_limit = unless_zero write_iops g.io.write_io.ops_limit;
    };
  };
})

unfoldable pub cgroup_set_io_iops : ℕ → ℕ → ℕ → Cgroups → Bool × Cgroups
cgroup_set_io_iops id read_iops write_iops s = change id (with_io_iops read_iops write_iops) s

unfoldable pub with_net_limit : ℕ → ℕ → ℕ → Cgroup → Option Cgroup
with_net_limit tx_bps rx_bps priority g = some (record g {
  net = record (g.net) {
    enabled = true;
    tx = record (g.net.tx) { bps_limit = unless_zero tx_bps g.net.tx.bps_limit };
    rx = record (g.net.rx) { bps_limit = unless_zero rx_bps g.net.rx.bps_limit };
    net_priority = if leb priority 7 then priority else g.net.net_priority;
  };
})

unfoldable pub cgroup_set_net_limit : ℕ → ℕ → ℕ → ℕ → Cgroups → Bool × Cgroups
cgroup_set_net_limit id tx_bps rx_bps priority s =
    change id (with_net_limit tx_bps rx_bps priority) s

unfoldable pub with_net_pps : ℕ → ℕ → Cgroup → Option Cgroup
with_net_pps tx_pps rx_pps g = some (record g {
  net = record (g.net) {
    tx = record (g.net.tx) { ops_limit = unless_zero tx_pps g.net.tx.ops_limit };
    rx = record (g.net.rx) { ops_limit = unless_zero rx_pps g.net.rx.ops_limit };
  };
})

unfoldable pub cgroup_set_net_pps : ℕ → ℕ → ℕ → Cgroups → Bool × Cgroups
cgroup_set_net_pps id tx_pps rx_pps s = change id (with_net_pps tx_pps rx_pps) s

-- What `cgroup_get_io_stats` and `cgroup_get_net_stats` report, when the group exists.
pub cgroup_get_io_stats : ℕ → Cgroups → Option (ℕ × ℕ × ℕ × ℕ)
cgroup_get_io_stats id s = elim (find_group id s) [
  | none ↦ none
  | some i ↦
      (let io = (s.groups i).io in
        some (io.read_io.bytes, io.write_io.bytes, io.read_io.ops, io.write_io.ops))
]

pub cgroup_get_net_stats : ℕ → Cgroups → Option (ℕ × ℕ × ℕ × ℕ)
cgroup_get_net_stats id s = elim (find_group id s) [
  | none ↦ none
  | some i ↦
      (let net = (s.groups i).net in some (net.tx.bytes, net.rx.bytes, net.tx.ops, net.rx.ops))
]
