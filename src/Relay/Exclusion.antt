-- ===== src/Relay/Exclusion.antt =====
-- relay.rs, `acquire`: who may take a lane, and what a lane holds once it is taken.
use cortex_engine.Common.{
  ℕ, ◌≡◌, refl, ◌↔◌, inl, inr, String, Bool, true, none, some, ◌==◌, option_eq, option_eq_iff,
  eq_iff, arith, Bool-cases, Option-cases, eq_refl, ◌≢◌,
}
use cortex_engine.Common.Map.{lookup, lookup-insert}
use cortex_engine.Common.Decimal.{print}
use cortex_engine.Relay.Board.{Lane, Board, ok, is_ok}
use cortex_engine.Relay.Zombie.{is_zombie}
use cortex_engine.Relay.Operations.{lane_or_default, with_lane, admit, lock_lane, acquire, bind_ok}

-- The ways in which a lane is open to an agent.
pub data IsOpenTo (now : ℕ) (agent_id updated_at : String) (lane : Lane) : Type 0 where
  idle : lane.status ≡ "IDLE" → IsOpenTo now agent_id updated_at lane
  handed : lane.status ≡ "HANDOFF" → lane.handoff_to ≡ none → IsOpenTo now agent_id updated_at lane
  invited :
      lane.status ≡ "HANDOFF"
      → lane.handoff_to ≡ some agent_id
      → IsOpenTo now agent_id updated_at lane
  held :
      lane.status ≢ "HANDOFF"
      → lane.active_agent_id ≡ some agent_id
      → IsOpenTo now agent_id updated_at lane
  stale :
      lane.status ≢ "HANDOFF"
      → is_zombie now lane updated_at ≡ true
      → IsOpenTo now agent_id updated_at lane

module _ (now : ℕ) (agent_id lane_id updated_at : String) (lane : Lane) where
  admit-IsOpenTo :
      is_ok (admit now agent_id lane_id updated_at lane) ≡ true
      → IsOpenTo now agent_id updated_at lane
  unfolding admit
  admit-IsOpenTo h = elim (Bool-cases (lane.status == "HANDOFF")) [
    | inl off ↦ elim (Option-cases lane.handoff_to) [
      | inl free ↦ handed ((eq_iff _ _).0 off) free
      | inr (to, e) ↦
          invited ((eq_iff _ _).0 off)
            ((option_eq_iff lane.handoff_to (some agent_id)).0 (ground arith))
    ]
    | inr on ↦
        let other : lane.status ≢ "HANDOFF" = λ e. ground (arith, eq_iff lane.status "HANDOFF") in
        elim (Bool-cases (lane.status == "IDLE")) [
          | inl free ↦ idle ((eq_iff _ _).0 free)
          | inr taken ↦ elim (Bool-cases (option_eq lane.active_agent_id (some agent_id))) [
            | inl mine ↦ held other ((option_eq_iff lane.active_agent_id (some agent_id)).0 mine)
            | inr theirs ↦ stale other (ground arith)
          ]
        ]
  ]

  IsOpenTo-admit :
      IsOpenTo now agent_id updated_at lane
      → is_ok (admit now agent_id lane_id updated_at lane) ≡ true
  unfolding admit
  IsOpenTo-admit (idle e) = rw (e, admit) refl
  IsOpenTo-admit (handed e f) = ground (arith, eq_iff lane.status "HANDOFF")
  IsOpenTo-admit (invited e f) =
      ground (arith, eq_iff lane.status "HANDOFF", option_eq_iff lane.handoff_to (some agent_id))
  IsOpenTo-admit (held e f) =
      ground
        (arith, option_eq_iff lane.active_agent_id (some agent_id), eq_iff lane.status "HANDOFF")
  IsOpenTo-admit (stale e f) = ground (arith, eq_iff lane.status "HANDOFF")

-- `acquire` succeeds exactly when the lane, or the default lane where there is none of that name, is
-- idle, handed over to nobody in particular or to this agent, held by this agent, or held by a zombie.
pub acquire_iff :
    (now : ℕ) (agent_id task_name lane_id : String) (board : Board)
    → (is_ok (acquire now agent_id task_name lane_id board) ≡ true)
      ↔ IsOpenTo now agent_id board.updated_at (lane_or_default board lane_id)
unfolding acquire
acquire_iff now agent_id task_name lane_id board =
    let lane = lane_or_default board lane_id in
    (
      λ h. admit-IsOpenTo now agent_id lane_id board.updated_at lane (ground arith),
      λ o. let k = IsOpenTo-admit now agent_id lane_id board.updated_at lane o in ground arith,
    )

-- What a lane holds once an agent has locked it for a task.
pub record IsHeldBy (agent_id task_name : String) (now : ℕ) (lane : Lane) : Type 0 where
  pub busy : lane.status ≡ "BUSY"
  pub holder : lane.active_agent_id ≡ some agent_id
  pub task : lane.current_task ≡ some task_name
  pub since : lane.locked_at ≡ some (print now)
  pub silent : lane.handoff_message ≡ none

module _ (now : ℕ) (agent_id task_name lane_id : String) (board board' : Board) (write : Bool) where
  pub acquire_shape :
      acquire now agent_id task_name lane_id board ≡ ok (board', write)
      → (lane : Lane) × (admit now agent_id lane_id board.updated_at (lane_or_default board lane_id)
          ≡ ok lane)
        × (board' ≡ with_lane board lane_id (lock_lane now agent_id task_name lane))
        × (write ≡ true)
  unfolding acquire
  acquire_shape h =
      let (lane, e, f) =
        bind_ok (admit now agent_id lane_id board.updated_at (lane_or_default board lane_id)) _ h in
      (lane, e, ground arith, ground arith)

  -- An `acquire` that succeeds leaves the lane held by the agent for the task since now, with no
  -- message on it; every other lane is as it was, and the board is to be written.
  pub acquire_effect :
      acquire now agent_id task_name lane_id board ≡ ok (board', write)
      → (lane : Lane) × (lookup lane_id board'.lanes ≡ some lane)
        × IsHeldBy agent_id task_name now lane
        × ((other : String)
            → lane_id ≢ other
            → lookup other board'.lanes ≡ lookup other board.lanes)
        × (write ≡ true)
  unfolding lock_lane
  acquire_effect h =
      let (lane, _, e, w) = acquire_shape h in
      let locked = lock_lane now agent_id task_name lane in
      (
        locked,
        rw (e, lookup-insert, eq_refl),
        record { busy = refl; holder = refl; task = refl; since = refl; silent = refl },
        λ other ne. rw (e, lookup-insert) (ground (arith, eq_iff lane_id other)),
        w,
      )
