-- ===== src/Relay/Lease.antt =====
-- relay.rs: the age of a lock, and who may take a lane that is held.
use cortex_engine.Common.{
  ℕ, ◌+◌, ◌^◌, ◌<◌, ◌≡◌, refl, ◌↔◌, ◌≢◌, String, true, false, some, ◌==◌, arith, eq_iff, subst,
}
use cortex_engine.Common.Map.{lookup}
use cortex_engine.Common.Int.{◌-ℤ◌}
use cortex_engine.Common.Decimal.{parse_i64-print}
use cortex_engine.Relay.Board.{Lane, Board, is_ok}
use cortex_engine.Relay.Zombie.{is_zombie}
use cortex_engine.Relay.Operations.{acquire, lane_or_default}
use cortex_engine.Relay.Exclusion.{
  IsOpenTo, idle, handed, invited, held, stale, acquire_iff, IsHeldBy,
}

-- A lock that was taken at a time is stale exactly when more than two hours have passed.
pub is_zombie_iff :
    (agent_id task_name updated_at : String) (taken now : ℕ) (lane : Lane)
    → taken < 2 ^ 63
    → now < 2 ^ 63
    → IsHeldBy agent_id task_name taken lane
    → (is_zombie now lane updated_at ≡ true) ↔ (taken + 7200 < now)
unfolding is_zombie ◌-ℤ◌
is_zombie_iff agent_id task_name updated_at taken now lane ht hn lock =
    rw (lock.busy, lock.since, is_zombie, parse_i64-print taken ht) (ground arith)

busy_not : (s t : String) → s ≡ "BUSY" → s ≡ t → (t == "BUSY") ≡ false → ⊥
busy_not s t e f h = ground (arith, eq_iff t "BUSY")

open_only_stale :
    (agent_id task_name : String) (taken now : ℕ) (other updated_at : String) (lane : Lane)
    → agent_id ≢ other
    → IsHeldBy agent_id task_name taken lane
    → IsOpenTo now other updated_at lane
    → is_zombie now lane updated_at ≡ true
open_only_stale a t taken now o u lane ne lock (idle f) =
    absurd (busy_not lane.status "IDLE" lock.busy f refl)
open_only_stale a t taken now o u lane ne lock (handed f _) =
    absurd (busy_not lane.status "HANDOFF" lock.busy f refl)
open_only_stale a t taken now o u lane ne lock (invited f _) =
    absurd (busy_not lane.status "HANDOFF" lock.busy f refl)
open_only_stale a t taken now o u lane ne lock (held _ f) =
    absurd (ne (ground (arith, lock.holder)))
open_only_stale a t taken now o u lane ne lock (stale _ f) = f

-- While one agent holds a lane, another can acquire it exactly when the lock is more than two hours
-- old, whatever has been said of the lane's next agent.
pub acquire_while_held :
    (agent_id task_name : String) (taken : ℕ) (other other_task lane_id : String) (now : ℕ)
    (board : Board) (lane : Lane)
    → taken < 2 ^ 63
    → now < 2 ^ 63
    → agent_id ≢ other
    → lookup lane_id board.lanes ≡ some lane
    → IsHeldBy agent_id task_name taken lane
    → (is_ok (acquire now other other_task lane_id board) ≡ true) ↔ (taken + 7200 < now)
acquire_while_held agent_id task_name taken other other_task lane_id now board lane ht hn ne e
      lock =
    let old = is_zombie_iff agent_id task_name board.updated_at taken now lane ht hn lock in
    let here : lane_or_default board lane_id ≡ lane = rw e in
    let open_iff = acquire_iff now other other_task lane_id board in
    (
      λ h. old.0 (
          open_only_stale agent_id task_name taken now other board.updated_at lane ne lock
            (subst (IsOpenTo now other board.updated_at) here (open_iff.0 h))),
      λ late.
          open_iff.1
            (rw here (stale (λ f. busy_not lane.status "HANDOFF" lock.busy f refl) (old.1 late))),
    )
