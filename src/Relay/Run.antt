-- ===== src/Relay/Run.antt =====
-- relay.rs, `run`: the commands as steps on the board's file, and histories of them.
use cortex_engine.Common.{
  ℕ, ◌≡◌, ◌⊎◌, String, Bool, false, Option, some, List, [], ◌∷◌, arith, unwrap_or,
}
use cortex_engine.Common.Map.{lookup}
use cortex_engine.Relay.Board.{Lane, Board, Result, ok, is_ok, default_board}
use cortex_engine.Relay.Operations.{
  acquire, release, force_release, claim_files, File, Moment, Disk, read_board, ensure_board_schema,
  transaction,
}
use cortex_engine.Relay.Invariant.{
  IsCoherent, IsCoherentFile, transaction-IsCoherentFile, acquire-IsCoherentBoard,
  release-IsCoherentBoard, force_release-IsCoherentBoard, claim_files-IsCoherentBoard,
}

-- `RelayCommand`. The lane of most commands is optional, and "default" where it is not given.
pub data RelayCommand : Type 0 where
  status : Option String → RelayCommand
  acquires : String → String → Option String → RelayCommand
  releases : String → Option String → Option String → Option String → Option String → RelayCommand
  force_releases : Option String → RelayCommand
  claims_files : String → List String → RelayCommand

-- `status` only prints: its body asks for no write.
unfoldable pub body : ℕ → RelayCommand → Board → Result (Board × Bool)
body now (status lane_id) board = ok (board, false)
body now (acquires agent_id task_name lane_id) board =
    acquire now agent_id task_name (unwrap_or lane_id "default") board
body now (releases agent_id lane_id handoff_to message contract_id) board =
    release agent_id (unwrap_or lane_id "default") handoff_to message contract_id board
body now (force_releases lane_id) board = force_release (unwrap_or lane_id "default") board
body now (claims_files lane_id files) board = claim_files lane_id files board

unfoldable pub run : File → Moment × RelayCommand → File × Result Board
unfolding body
run file (m, command) = transaction m (body m.now command) file

-- A history of commands, each with what it meets.
unfoldable pub run_all : File → List (Moment × RelayCommand) → File
run_all file [] = file
run_all file (c ∷ cs) = run_all (run file c).0 cs

body-IsCoherentBoard :
    (now : ℕ) (command : RelayCommand) (board board' : Board) (write : Bool)
    → ((id : String) (lane : Lane) → lookup id board.lanes ≡ some lane → IsCoherent lane)
    → body now command board ≡ ok (board', write)
    → (id : String) (lane : Lane) → lookup id board'.lanes ≡ some lane
    → IsCoherent lane
unfolding body
body-IsCoherentBoard now (status lane_id) board board' write all h =
    let e : board' ≡ board = ground arith in rw e all
body-IsCoherentBoard now (acquires agent_id task_name lane_id) board board' write all h =
    acquire-IsCoherentBoard now agent_id task_name _ board board' write all h
body-IsCoherentBoard now (releases agent_id lane_id to message contract) board board' write all h =
    release-IsCoherentBoard agent_id _ to message contract board board' write all h
body-IsCoherentBoard now (force_releases lane_id) board board' write all h =
    force_release-IsCoherentBoard _ board board' write all h
body-IsCoherentBoard now (claims_files lane_id files) board board' write all h =
    claim_files-IsCoherentBoard lane_id files board board' write all h

run-IsCoherentFile :
    (file : File) (c : Moment × RelayCommand) → IsCoherentFile file → IsCoherentFile (run file c).0
unfolding run
run-IsCoherentFile file (m, command) all =
    transaction-IsCoherentFile m (body m.now command) file (body-IsCoherentBoard m.now command) all

-- Whatever commands run, at whatever times and with whatever failures of the disk, every lane of a coherent board stays coherent: it is
-- idle, busy or handed over, has an agent and a lock time exactly while it is busy, and names a next
-- agent exactly while it is handed over.
pub run_all-IsCoherentFile :
    (file : File) (cs : List (Moment × RelayCommand))
    → IsCoherentFile file
    → IsCoherentFile (run_all file cs)
unfolding run_all
run_all-IsCoherentFile file [] all = all
run_all-IsCoherentFile file (c ∷ cs) all =
    run_all-IsCoherentFile (run file c).0 cs (run-IsCoherentFile file c all)

-- A command that fails leaves the file as it was, unless the write of the board was cut short: the
-- file then cannot be parsed, and every later command begins with the default board, so that all
-- lanes are lost.
pub run_error :
    (file : File) (m : Moment) (command : RelayCommand)
    → is_ok (run file (m, command)).1 ≡ false
    → ((run file (m, command)).0 ≡ file)
      ⊎ ((m.disk ≡ Disk.cut_short)
          × ((later : ℕ)
              → read_board later (run file (m, command)).0
                ≡ ensure_board_schema (default_board later)))
unfolding run transaction read_board
run_error file m command h = ground arith
