-- ===== src/Relay/Operations.antt =====
-- relay.rs: the commands of the relay. Each works on the board that `transaction` has read, and says
-- whether the board is to be written. What is only printed is left out.
use cortex_engine.Common.{
  ℕ, ◌≡◌, refl, String, Bool, true, ◌&&◌, not, Option, none, some, List, [], ◌∷◌, ◌++◌, ◌==◌,
  if◌then◌else◌, unwrap_or, is_some, is_empty, option_eq, contains, ◌+++◌, take_chars, char_count,
  leb,
}
use cortex_engine.Common.Map.{Map, lookup, insert, map_values}
use cortex_engine.Common.Decimal.{print}
use cortex_engine.Relay.Board.{
  Lane, Board, Result, ok, err, handoff_pending, occupied, no_lane, not_holder, claim_conflict,
  folder_failed, write_failed, default_lane, default_board,
}
use cortex_engine.Relay.Paths.{normalize_files}
use cortex_engine.Relay.Zombie.{is_zombie, evict_zombie}

-- `?` on a result.
infixl 5 ◌>>=◌
abbrev pub ◌>>=◌ {ℓ κ} : {X : Type ℓ} {Y : Type κ} → Result X → (X → Result Y) → Result Y
err why >>= next = err why
ok value >>= next = next value

-- A chain that succeeds has a first step that does.
pub bind_ok {ℓ κ} :
    {X : Type ℓ} {Y : Type κ} {y : Y} (first : Result X) (next : X → Result Y)
    → (first >>= next) ≡ ok y
    → (x : X) × (first ≡ ok x) × (next x ≡ ok y)
bind_ok (err why) next done = absurd (cc)
bind_ok (ok x) next done = (x, refl, done)

-- `lanes.entry(lane_id).or_insert_with(default_lane)`, as the lane that it gives.
abbrev pub lane_or_default : Board → String → Lane
lane_or_default board lane_id = unwrap_or (lookup lane_id board.lanes) default_lane

abbrev pub with_lane : Board → String → Lane → Board
with_lane board lane_id lane = record board { lanes = insert lane_id lane board.lanes }

-- The tests of `acquire`, and the lane as they leave it.
unfoldable pub admit : ℕ → String → String → String → Lane → Result Lane
admit now agent_id lane_id updated_at lane =
    if lane.status == "HANDOFF"
    then (if is_some lane.handoff_to && not (option_eq lane.handoff_to (some agent_id))
        then err (handoff_pending lane_id lane.handoff_to agent_id)
        else ok (record lane { status = "IDLE"; handoff_to = none }))
    else if not (lane.status == "IDLE") && not (option_eq lane.active_agent_id (some agent_id))
    then (if is_zombie now lane updated_at
        then ok (evict_zombie lane)
        else err (occupied lane_id lane.active_agent_id lane.current_task))
    else ok lane

-- The lane that the agent holds after `acquire`.
unfoldable pub lock_lane : ℕ → String → String → Lane → Lane
lock_lane now agent_id task_name lane = record lane {
  active_agent_id = some agent_id;
  current_task = some task_name;
  status = "BUSY";
  handoff_message = none;
  locked_at = some (print now);
  files_to_modify = normalize_files lane.files_to_modify;
}

unfoldable pub acquire : ℕ → String → String → String → Board → Result (Board × Bool)
unfolding admit lock_lane
acquire now agent_id task_name lane_id board = do
  lane ← admit now agent_id lane_id board.updated_at (lane_or_default board lane_id)
  ok (with_lane board lane_id (lock_lane now agent_id task_name lane), true)

unfoldable pub limit_message : String → String
limit_message message =
    if leb (char_count message) 250 then message else take_chars 247 message +++ "..."

abbrev limit_optional : Option String → Option String
limit_optional none = none
limit_optional (some message) = some (limit_message message)

unfoldable pub released_lane : Option String → Option String → Option String → Lane → Lane
released_lane handoff_to message contract_id lane = record lane {
  status = if is_some handoff_to then "HANDOFF" else "IDLE";
  phase = "DONE";
  handoff_to = handoff_to;
  handoff_message = limit_optional message;
  contract_id = contract_id;
  locked_at = none;
  files_to_modify = [];
  active_agent_id = none;
  current_task = if is_some handoff_to then lane.current_task else none;
}

unfoldable pub release :
    String → String → Option String → Option String → Option String → Board → Result (Board × Bool)
unfolding released_lane
release agent_id lane_id handoff_to message contract_id board = elim (lookup lane_id board.lanes) [
  | none ↦ err (no_lane lane_id)
  | some lane ↦
      if option_eq lane.active_agent_id (some agent_id)
      then ok (with_lane board lane_id (released_lane handoff_to message contract_id lane), true)
      else err (not_holder agent_id lane_id)
]

unfoldable pub forced_lane : Lane → Lane
forced_lane lane = record lane {
  status = "IDLE";
  active_agent_id = none;
  current_task = none;
  phase = "FORCE_RELEASED";
  handoff_to = none;
  handoff_message =
      some (
        "Force-released by operator (was: " +++ (unwrap_or lane.active_agent_id "unknown" +++ ")"));
  locked_at = none;
  files_to_modify = [];
}

unfoldable pub force_release : String → Board → Result (Board × Bool)
unfolding forced_lane
force_release lane_id board = elim (lookup lane_id board.lanes) [
  | none ↦ err (no_lane lane_id)
  | some lane ↦ ok (with_lane board lane_id (forced_lane lane), true)
]

-- The claims of one lane that are among the requested paths, with the lane's name.
unfoldable pub lane_conflicts : String → List String → List String → List (String × String)
lane_conflicts owner requested [] = []
lane_conflicts owner requested (path ∷ paths) =
    let rest = lane_conflicts owner requested paths in
    if contains path requested then (path, owner) ∷ rest else rest

-- The loop of `find_file_claim_conflicts` over the lanes of the board.
unfoldable pub conflicts_in : String → List String → Map Lane → List (String × String)
conflicts_in lane_id requested [] = []
conflicts_in lane_id requested ((other, lane) ∷ lanes) =
    (if other == lane_id
      then []
      else if lane.status == "BUSY"
      then lane_conflicts other requested (normalize_files lane.files_to_modify)
      else [])
    ++ conflicts_in lane_id requested lanes

unfoldable pub find_file_claim_conflicts : Board → String → List String → List (String × String)
unfolding conflicts_in lane_conflicts
find_file_claim_conflicts board lane_id requested =
    if is_empty requested then [] else conflicts_in lane_id requested board.lanes

unfoldable pub claim_files : String → List String → Board → Result (Board × Bool)
unfolding find_file_claim_conflicts
claim_files lane_id files board =
    let normalized = normalize_files files in
    let conflicts = find_file_claim_conflicts board lane_id normalized in
    if is_empty conflicts
    then ok (
      with_lane board lane_id
          (record (lane_or_default board lane_id) { files_to_modify = normalized }),
      true,
    )
    else err (claim_conflict lane_id conflicts)

-- `status`: the lanes that are shown, each with its zombie warning. Nothing is written.
unfoldable pub shown_lanes : ℕ → Option String → String → Map Lane → List (String × Lane × Bool)
shown_lanes now target updated_at [] = []
shown_lanes now target updated_at ((id, lane) ∷ lanes) =
    let rest = shown_lanes now target updated_at lanes in
    if is_some target && not (option_eq target (some id))
    then rest
    else (id, lane, is_zombie now lane updated_at) ∷ rest

unfoldable pub status : ℕ → Option String → Board → List (String × Lane × Bool)
unfolding shown_lanes
status now target board = shown_lanes now target board.updated_at board.lanes

-- `ensure_board_schema`: an empty board gets its default lane, and every claim its normal form.
abbrev pub with_normal_files : Lane → Lane
with_normal_files lane = record lane { files_to_modify = normalize_files lane.files_to_modify }

unfoldable pub ensure_board_schema : Board → Board
ensure_board_schema board = record board {
  lanes =
      map_values with_normal_files
        (if is_empty board.lanes then insert "default" default_lane [] else board.lanes);
}

-- The board's file: nothing that can be read and parsed, or a board.
abbrev pub File : Type 0
File = Option Board

unfoldable pub read_board : ℕ → File → Board
unfolding default_board ensure_board_schema
read_board now file = ensure_board_schema (unwrap_or file (default_board now))

-- What the file system does to a command: everything works, `create_dir_all` fails, the file cannot be
-- opened for the write, or the write stops after the file was emptied, so that its text cannot be
-- parsed.
pub data Disk : Type 0 where
  works : Disk
  no_folder : Disk
  not_opened : Disk
  cut_short : Disk

-- What a command meets: the clock, and the file system.
pub record Moment : Type 0 where
  pub now : ℕ
  pub disk : Disk

-- `create_dir_all(parent)?` answers before the closure does.
abbrev pub with_folder : Disk → Result (Board × Bool) → Result (Board × Bool)
with_folder Disk.works answer = answer
with_folder Disk.no_folder answer = err folder_failed
with_folder Disk.not_opened answer = answer
with_folder Disk.cut_short answer = answer

-- `fs::write(…)?` of the board.
abbrev pub write_board : Disk → Board → File → File × Result Board
write_board Disk.works board file = (some board, ok board)
write_board Disk.no_folder board file = (file, err folder_failed)
write_board Disk.not_opened board file = (file, err write_failed)
write_board Disk.cut_short board file = (none, err write_failed)

-- The rest of `transaction`, once the closure has answered: an error leaves the file alone, and a
-- write stamps the board.
abbrev pub commit : Moment → Result (Board × Bool) → File → File × Result Board
commit m (err e) file = (file, err e)
commit m (ok (board, should_write)) file =
    if should_write
    then write_board m.disk (record board { updated_at = print m.now }) file
    else (file, ok board)

abbrev pub store : Moment → Result (Board × Bool) → File → File × Result Board
store m answer file = commit m (with_folder m.disk answer) file

-- `transaction`, under the lock.
unfoldable pub transaction : Moment → (Board → Result (Board × Bool)) → File → File × Result Board
unfolding read_board
transaction m f file = store m (f (read_board m.now file)) file
