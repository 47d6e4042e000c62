-- ===== src/Relay/Tests.antt =====
-- Runs of the relay on small boards, and the theorems at inputs that meet their hypotheses.
use cortex_engine.Common.{
  ℕ, ◌≡◌, ◌⊎◌, refl, sym, ◌↔◌, ◌≢◌, String, Bool, true, none, some, [], ◌∷◌, arith, contains,
  eq_iff, ◌+◌, ◌<◌, join,
}
use cortex_engine.Common.Map.{lookup, insert, map_values}
use cortex_engine.Common.Decimal.{print, parse_i64}
use cortex_engine.Common.Int.{◌-ℤ◌}
use cortex_engine.Common.Chars.{trim, split, forward_slashes, to_ascii_lowercase, ends_with}
use cortex_engine.Relay.Board.{Error, Lane, Board, ok, err, is_ok, default_lane, default_board}
use cortex_engine.Relay.Paths.{normalize_files, is_unity_risk_normalized, normalize_file_path}
use cortex_engine.Relay.Zombie.{is_zombie, lock_age, evict_zombie}
use cortex_engine.Relay.Operations.{
  acquire, lock_lane, release, force_release, claim_files, transaction, read_board, Moment, Disk,
  ensure_board_schema, lane_or_default, with_lane,
}
use cortex_engine.Relay.Exclusion
use cortex_engine.Relay.Exclusion.{IsOpenTo, IsHeldBy}
use cortex_engine.Relay.Invariant.{IsCoherentFile}
use cortex_engine.Relay.Run.{
  acquires, releases, claims_files, body, run, run_all, run_error, run_all-IsCoherentFile,
}
use cortex_engine.Relay.Lease
use cortex_engine.Relay.Claims

program : Unit {0}
unfolding lookup insert map_values print parse_i64 ◌-ℤ◌ trim split forward_slashes
    to_ascii_lowercase ends_with contains join normalize_files is_unity_risk_normalized
    normalize_file_path is_zombie lock_age evict_zombie acquire release force_release claim_files
    transaction read_board ensure_board_schema body run run_all default_board
program = tt

-- A moment when the disk works.
abbrev fine : ℕ → Moment
fine now = record { now = now; disk = Disk.works }

-- One lane, busy for agent "a" since the second 100.
abbrev busy_lane : Lane
busy_lane = record default_lane {
  status = "BUSY";
  active_agent_id = some "a";
  current_task = some "t";
  locked_at = some "100";
  files_to_modify = "x" ∷ [];
}

abbrev busy_board : Board
busy_board = record { updated_at = "100"; lanes = ("default", busy_lane) ∷ [] }

abbrev two_lanes : Board
two_lanes = record {
  updated_at = "100";
  lanes = ("default", busy_lane) ∷ ("z", record default_lane { files_to_modify = "x" ∷ [] }) ∷ [];
}

locked_after_acquire :
    run_all none
      ((fine 100, acquires "a" "t" none) ∷ (fine 101, claims_files "default" ("x" ∷ [])) ∷ [])
    ≡ some (record busy_board { updated_at = "101" })
unfolding program
locked_after_acquire = refl

refused_while_held :
    run (some busy_board) (fine 7300, acquires "b" "u" none)
    ≡ (some busy_board, err (Error.occupied "default" (some "a") (some "t")))
unfolding program
refused_while_held = refl

busy_IsHeldBy : IsHeldBy "a" "t" 100 busy_lane
unfolding print
busy_IsHeldBy = record { busy = refl; holder = refl; task = refl; since = refl; silent = refl }

acquire_iff_example :
    (is_ok (acquire 7300 "b" "u" "default" busy_board) ≡ true)
    ↔ IsOpenTo 7300 "b" "100" (lane_or_default busy_board "default")
acquire_iff_example = Exclusion.acquire_iff 7300 "b" "u" "default" busy_board

a_is_not_b : ◌≢◌ {A = String} "a" "b"
a_is_not_b = ground (arith, eq_iff "a" "b")

default_is_not_z : ◌≢◌ {A = String} "default" "z"
default_is_not_z = ground (arith, eq_iff "default" "z")

acquire_while_held_example :
    (is_ok (acquire 7301 "b" "u" "default" busy_board) ≡ true) ↔ (100 + 7200 < 7301)
unfolding program
acquire_while_held_example =
    Lease.acquire_while_held "a" "t" 100 "b" "u" "default" 7301 busy_board busy_lane (omega arith)
      (omega arith) a_is_not_b refl busy_IsHeldBy

is_zombie_iff_example : (is_zombie 7301 busy_lane "100" ≡ true) ↔ (100 + 7200 < 7301)
is_zombie_iff_example =
    Lease.is_zombie_iff "a" "t" "100" 100 7301 busy_lane (omega arith) (omega arith) busy_IsHeldBy

acquire_ignores_claims_example :
    (board : Board) × (lane : Lane) × (acquire 200 "b" "u" "z" two_lanes ≡ ok (board, true))
    × (lookup "z" board.lanes ≡ some lane)
    × (lane.status ≡ "BUSY")
    × (contains "x" lane.files_to_modify ≡ true)
    × (lookup "default" board.lanes ≡ some busy_lane)
unfolding program
acquire_ignores_claims_example =
    Claims.acquire_ignores_claims 200 "b" "u" "z" "default" "x" two_lanes _ busy_lane
      (λ e. default_is_not_z (sym e)) refl refl refl refl refl refl

abbrev mine : Lane
mine = record busy_lane { current_task = some "v"; locked_at = some "150" }

acquire_effect_example :
    (lane : Lane) × (lookup "default" (with_lane busy_board "default" mine).lanes ≡ some lane)
    × IsHeldBy "a" "v" 150 lane
    × ((other : String)
        → ◌≢◌ {A = String} "default" other
        → lookup other (with_lane busy_board "default" mine).lanes ≡ lookup other busy_board.lanes)
    × (◌≡◌ {A = Bool} true true)
unfolding program lock_lane
acquire_effect_example =
    Exclusion.acquire_effect 150 "a" "v" "default" busy_board (with_lane busy_board "default" mine)
      true refl

no_file-IsCoherentFile : IsCoherentFile none
no_file-IsCoherentFile board e = absurd (cc)

run_all-IsCoherentFile_example : IsCoherentFile (
    run_all none (
      (fine 100, acquires "a" "t" none)
      ∷ (fine 7400, acquires "b" "u" none)
      ∷ (fine 7401, releases "b" none (some "c") none none)
      ∷ []))
run_all-IsCoherentFile_example =
    run_all-IsCoherentFile none
      ((fine 100, acquires "a" "t" none)
        ∷ (fine 7400, acquires "b" "u" none)
        ∷ (fine 7401, releases "b" none (some "c") none none)
        ∷ [])
      no_file-IsCoherentFile

-- The board of agent "a" is lost when the write of a later command is cut short.
abbrev cut : Moment
cut = record { now = 150; disk = Disk.cut_short }

run_error_example :
    ((run (some busy_board) (cut, acquires "a" "v" none)).0 ≡ some busy_board)
    ⊎ ((cut.disk ≡ Disk.cut_short)
        × ((later : ℕ)
            → read_board later (run (some busy_board) (cut, acquires "a" "v" none)).0
              ≡ ensure_board_schema (default_board later)))
unfolding program
run_error_example = run_error (some busy_board) cut (acquires "a" "v" none) refl

claimed : Board
claimed = with_lane two_lanes "z" (record default_lane { files_to_modify = "y" ∷ [] })

claim_files-IsDisjoint_example :
    ((other : String) (lane : Lane)
      → lookup other two_lanes.lanes ≡ some lane
      → ◌≢◌ {A = String} "z" other
      → lane.status ≡ "BUSY"
      → Claims.IsDisjoint (normalize_files lane.files_to_modify) (normalize_files ("y" ∷ [])))
    × ((lane_or_default claimed "z").files_to_modify ≡ normalize_files ("y" ∷ []))
    × ((other : String)
        → ◌≢◌ {A = String} "z" other
        → lookup other claimed.lanes ≡ lookup other two_lanes.lanes)
unfolding program claimed
claim_files-IsDisjoint_example =
    Claims.claim_files-IsDisjoint "z" ("y" ∷ []) two_lanes claimed true refl
