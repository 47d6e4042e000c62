-- ===== src/Relay/Board.antt =====
-- relay.rs: the board and its lanes, as they are stored, and what an operation may answer.
use cortex_engine.Common.{String, Bool, true, false, Option, none, List, []}
use cortex_engine.Common.Map.{Map, insert}
use cortex_engine.Common.Decimal.{print}
use Prim.Native.Nat.{ℕ}

pub record Lane : Type 0 where
  pub status : String
  pub active_agent_id : Option String
  pub current_task : Option String
  pub phase : String
  pub handoff_to : Option String
  pub handoff_message : Option String
  pub contract_id : Option String
  pub locked_at : Option String
  pub files_to_modify : List String

pub record Board : Type 0 where
  pub updated_at : String
  pub lanes : Map Lane

-- The errors of the operations; the source prints their fields in a message.
pub data Error : Type 0 where
  handoff_pending : String → Option String → String → Error
  occupied : String → Option String → Option String → Error
  no_lane : String → Error
  not_holder : String → String → Error
  claim_conflict : String → List (String × String) → Error
  lock_timeout : Error
  lock_failed : Error
  folder_failed : Error
  write_failed : Error

pub data Result {ℓ} (A : Type ℓ) : Type ℓ where
  ok : A → Result A
  err : Error → Result A

abbrev pub default_lane : Lane
default_lane = record {
  status = "IDLE";
  active_agent_id = none;
  current_task = none;
  phase = "READY";
  handoff_to = none;
  handoff_message = none;
  contract_id = none;
  locked_at = none;
  files_to_modify = [];
}

-- `now` is the time in seconds since the epoch; `now_text` prints it.
unfoldable pub default_board : ℕ → Board
default_board now = record { updated_at = print now; lanes = insert "default" default_lane [] }

abbrev pub is_ok {ℓ} : {A : Type ℓ} → Result A → Bool
is_ok (ok a) = true
is_ok (err e) = false
