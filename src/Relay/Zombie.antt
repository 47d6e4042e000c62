-- ===== src/Relay/Zombie.antt =====
-- relay.rs: when a lock is stale, and what is left of the lane when it is taken away.
use cortex_engine.Common.{
  ℕ, String, Bool, false, ◌&&◌, none, some, [], ◌==◌, ltb, if◌then◌else◌, unwrap_or, ◌+++◌, ◌^◌,
}
use cortex_engine.Common.Int.{ℤ, pos, negsuc, ◌-ℤ◌}
use cortex_engine.Common.Decimal.{parse_i64}
use cortex_engine.Relay.Board.{Lane}

abbrev pub zombie_lock_threshold_seconds : ℕ
zombie_lock_threshold_seconds = 7200

-- The age of a lock as the source computes it: an `i64` difference, which wraps below -2^63 when the
-- release build subtracts a large negative time, and so is no age at all.
abbrev pub older_than : ℤ → ℕ → Bool
older_than (pos age) limit = ltb limit age && ltb age (2 ^ 63)
older_than (negsuc n) limit = false

-- A time that does not parse counts as now.
unfoldable pub lock_age : ℕ → String → ℤ
lock_age now ts = pos now -ℤ unwrap_or (parse_i64 ts) (pos now)

unfoldable pub is_zombie : ℕ → Lane → String → Bool
unfolding lock_age
is_zombie now lane updated_at =
    if lane.status == "BUSY"
    then older_than (lock_age now (unwrap_or lane.locked_at updated_at))
        zombie_lock_threshold_seconds
    else false

unfoldable pub evict_zombie : Lane → Lane
evict_zombie lane = record lane {
  status = "IDLE";
  active_agent_id = none;
  current_task = none;
  phase = "ZOMBIE_EVICTED";
  handoff_to = none;
  handoff_message = some (
      "Auto-evicted zombie lock (was: "
      +++ (unwrap_or lane.active_agent_id "unknown"
          +++ (" on '" +++ (unwrap_or lane.current_task "unknown" +++ "')"))));
  locked_at = none;
  files_to_modify = [];
}
