-- ===== src/Relay/Invariant.antt =====
-- relay.rs: the commands as one step on the board's file, and the invariant of every lane in it.
use cortex_engine.Common.{
  ℕ, ◌≡◌, refl, ◌⊎◌, inl, inr, String, Bool, true, false, Option, none, some, List, [], ◌==◌,
  is_some, is_empty, arith, Bool-cases, Option-cases, List-cases, subst,
}
use cortex_engine.Common.Decimal.{print}
use cortex_engine.Common.Map.{
  lookup, insert, map_values, lookup-insert_cases, lookup-map_values-some,
}
use cortex_engine.Relay.Board.{Error, Lane, Board, Result, ok, err, default_lane, default_board}
use cortex_engine.Relay.Paths.{normalize_files}
use cortex_engine.Relay.Zombie.{evict_zombie}
use cortex_engine.Relay.Operations.{
  lane_or_default, with_lane, admit, lock_lane, acquire, release, released_lane, force_release,
  forced_lane, claim_files, File, read_board, transaction, with_normal_files, Disk, Moment,
  with_folder, commit, ensure_board_schema,
}
use cortex_engine.Relay.Exclusion.{acquire_shape}

-- A lane is idle, busy or handed over; it has an agent and a lock time exactly while it is busy, and
-- a next agent exactly while it is handed over.
pub record IsCoherent (lane : Lane) : Type 0 where
  pub known : (lane.status ≡ "IDLE") ⊎ (lane.status ≡ "BUSY") ⊎ (lane.status ≡ "HANDOFF")
  pub agent : is_some lane.active_agent_id ≡ (lane.status == "BUSY")
  pub lock : is_some lane.locked_at ≡ (lane.status == "BUSY")
  pub next : is_some lane.handoff_to ≡ (lane.status == "HANDOFF")

pub default_lane-IsCoherent : IsCoherent default_lane
default_lane-IsCoherent = record { known = inl refl; agent = refl; lock = refl; next = refl }

admit-next :
    (now : ℕ) (agent_id lane_id updated_at : String) (lane lane' : Lane)
    → IsCoherent lane
    → admit now agent_id lane_id updated_at lane ≡ ok lane'
    → lane'.handoff_to ≡ none
unfolding admit evict_zombie
admit-next now agent_id lane_id updated_at lane lane' c h = ground arith

lock_lane-IsCoherent :
    (now : ℕ) (agent_id task_name : String) (lane : Lane)
    → lane.handoff_to ≡ none
    → IsCoherent (lock_lane now agent_id task_name lane)
unfolding lock_lane
lock_lane-IsCoherent now agent_id task_name lane e = record {
  known = inr (inl refl);
  agent = refl;
  lock = refl;
  next = rw e;
}

released_lane-IsCoherent :
    (to message contract : Option String) (lane : Lane)
    → IsCoherent (released_lane to message contract lane)
unfolding released_lane
released_lane-IsCoherent none message contract lane = record {
  known = inl refl;
  agent = refl;
  lock = refl;
  next = refl;
}
released_lane-IsCoherent (some to) message contract lane = record {
  known = inr (inr refl);
  agent = refl;
  lock = refl;
  next = refl;
}

forced_lane-IsCoherent : (lane : Lane) → IsCoherent (forced_lane lane)
unfolding forced_lane
forced_lane-IsCoherent lane = record { known = inl refl; agent = refl; lock = refl; next = refl }

-- Every lane of a board.
abbrev pub IsCoherentBoard : Board → Type 0
IsCoherentBoard board =
    (id : String) (lane : Lane) → lookup id board.lanes ≡ some lane → IsCoherent lane

with_lane-IsCoherentBoard :
    (board : Board) (id : String) (lane : Lane)
    → IsCoherentBoard board
    → IsCoherent lane
    → IsCoherentBoard (with_lane board id lane)
with_lane-IsCoherentBoard board id lane all c other lane' e =
    elim (lookup-insert_cases id other lane lane' board.lanes e) [
      | inl (_, same) ↦ subst IsCoherent same c
      | inr old ↦ all other lane' old
    ]

lane_or_default-IsCoherent :
    (board : Board) (id : String) → IsCoherentBoard board → IsCoherent (lane_or_default board id)
lane_or_default-IsCoherent board id all = elim (Option-cases (lookup id board.lanes)) [
  | inl e ↦ rw e default_lane-IsCoherent
  | inr (lane, e) ↦ rw e (all id lane e)
]

-- The operations, on a board that is already read.
pub acquire-IsCoherentBoard :
    (now : ℕ) (agent_id task_name lane_id : String) (board board' : Board) (write : Bool)
    → IsCoherentBoard board
    → acquire now agent_id task_name lane_id board ≡ ok (board', write)
    → IsCoherentBoard board'
acquire-IsCoherentBoard now agent_id task_name lane_id board board' write all h =
    let (lane, a, e, w) = acquire_shape now agent_id task_name lane_id board board' write h in
    let c = lane_or_default-IsCoherent board lane_id all in
    rw e (
      with_lane-IsCoherentBoard board lane_id _ all (
        lock_lane-IsCoherent now agent_id task_name lane
          (admit-next now agent_id lane_id board.updated_at _ lane c a)))

pub release-IsCoherentBoard :
    (agent_id lane_id : String) (to message contract : Option String) (board board' : Board)
    (write : Bool)
    → IsCoherentBoard board
    → release agent_id lane_id to message contract board ≡ ok (board', write)
    → IsCoherentBoard board'
unfolding release
release-IsCoherentBoard agent_id lane_id to message contract board board' write all h =
    elim (Option-cases (lookup lane_id board.lanes)) [
      | inl e ↦ absurd (ground arith)
      | inr (lane, e) ↦
          let shape : board' ≡ with_lane board lane_id (released_lane to message contract lane) =
            ground arith in
          rw shape (
            with_lane-IsCoherentBoard board lane_id _ all
              (released_lane-IsCoherent to message contract lane))
    ]

pub force_release-IsCoherentBoard :
    (lane_id : String) (board board' : Board) (write : Bool)
    → IsCoherentBoard board
    → force_release lane_id board ≡ ok (board', write)
    → IsCoherentBoard board'
unfolding force_release
force_release-IsCoherentBoard lane_id board board' write all h =
    elim (Option-cases (lookup lane_id board.lanes)) [
      | inl e ↦ absurd (ground arith)
      | inr (lane, e) ↦
          let shape : board' ≡ with_lane board lane_id (forced_lane lane) = ground arith in
          rw shape (with_lane-IsCoherentBoard board lane_id _ all (forced_lane-IsCoherent lane))
    ]

pub claim_files-IsCoherentBoard :
    (lane_id : String) (files : List String) (board board' : Board) (write : Bool)
    → IsCoherentBoard board
    → claim_files lane_id files board ≡ ok (board', write)
    → IsCoherentBoard board'
unfolding claim_files
claim_files-IsCoherentBoard lane_id files board board' write all h =
    let lane = lane_or_default board lane_id in
    let c = lane_or_default-IsCoherent board lane_id all in
    let claimed = record lane { files_to_modify = normalize_files files } in
    let shape : board' ≡ with_lane board lane_id claimed = ground arith in
    rw shape (
      with_lane-IsCoherentBoard board lane_id claimed all
        (record { known = c.known; agent = c.agent; lock = c.lock; next = c.next }))

-- Normal forms of the claims change nothing that the invariant reads.
map_values-IsCoherentBoard :
    (board : Board)
    → IsCoherentBoard board
    → IsCoherentBoard (record board { lanes = map_values with_normal_files board.lanes })
map_values-IsCoherentBoard board all id lane e =
    let (old, f, same) = lookup-map_values-some with_normal_files id board.lanes lane e in
    let c = all id old f in
    rw same (record { known = c.known; agent = c.agent; lock = c.lock; next = c.next })

nil-IsCoherentBoard : (board : Board) → is_empty board.lanes ≡ true → IsCoherentBoard board
unfolding lookup
nil-IsCoherentBoard board h id lane e = elim (List-cases board.lanes) [
  | inl f ↦ absurd (ground arith)
  | inr (x, rest, f) ↦ absurd (ground arith)
]

ensure_board_schema-IsCoherentBoard :
    (board : Board) → IsCoherentBoard board → IsCoherentBoard (ensure_board_schema board)
unfolding ensure_board_schema
ensure_board_schema-IsCoherentBoard board all = elim (Bool-cases (is_empty board.lanes)) [
  | inl empty ↦ rw empty (
      map_values-IsCoherentBoard (record board { lanes = insert "default" default_lane [] })
        (with_lane-IsCoherentBoard (record board { lanes = [] }) "default" default_lane
          (nil-IsCoherentBoard (record board { lanes = [] }) refl) default_lane-IsCoherent))
  | inr full ↦ rw full (map_values-IsCoherentBoard board all)
]

-- The file: unreadable, or a board.
abbrev pub IsCoherentFile : File → Type 0
IsCoherentFile file = (board : Board) → file ≡ some board → IsCoherentBoard board

read_board-IsCoherentBoard :
    (now : ℕ) (file : File) → IsCoherentFile file → IsCoherentBoard (read_board now file)
unfolding read_board default_board
read_board-IsCoherentBoard now none all =
    let bare : Board = record { updated_at = print now; lanes = [] } in
    ensure_board_schema-IsCoherentBoard (default_board now) (
      with_lane-IsCoherentBoard bare "default" default_lane (nil-IsCoherentBoard bare refl)
        default_lane-IsCoherent)
read_board-IsCoherentBoard now (some board) all =
    ensure_board_schema-IsCoherentBoard board (all board refl)

-- A transaction keeps the invariant of the file if its body keeps that of the board.
pub transaction-IsCoherentFile :
    (m : Moment) (f : Board → Result (Board × Bool)) (file : File)
    → ((board board' : Board) (write : Bool)
        → IsCoherentBoard board
        → f board ≡ ok (board', write)
        → IsCoherentBoard board')
    → IsCoherentFile file
    → IsCoherentFile (transaction m f file).0
unfolding transaction
transaction-IsCoherentFile m f file keep all = go (f (read_board m.now file)) refl
  where
    written :
        (disk : Disk) (board : Board)
        → IsCoherentBoard board
        → IsCoherentFile
            (commit
              (record { now = m.now; disk = disk })
              (with_folder disk (ok (board, true)))
              file).0
    written Disk.works board c = λ board' e. λ id lane l. c id lane (ground arith)
    written Disk.no_folder board c = all
    written Disk.not_opened board c = all
    written Disk.cut_short board c = λ board' e. absurd (cc)

    unwritten :
        (disk : Disk) (board : Board)
        → IsCoherentFile (commit m (with_folder disk (ok (board, false))) file).0
    unwritten Disk.works board = all
    unwritten Disk.no_folder board = all
    unwritten Disk.not_opened board = all
    unwritten Disk.cut_short board = all

    refused :
        (disk : Disk) (e : Error) → IsCoherentFile (commit m (with_folder disk (err e)) file).0
    refused Disk.works e = all
    refused Disk.no_folder e = all
    refused Disk.not_opened e = all
    refused Disk.cut_short e = all

    go :
        (r : Result (Board × Bool))
        → f (read_board m.now file) ≡ r
        → IsCoherentFile (transaction m f file).0
    go (err e) h = rw (h, transaction) (refused m.disk e)
    go (ok (board, false)) h = rw (h, transaction) (unwritten m.disk board)
    go (ok (board, true)) h =
        rw (h, transaction)
          (written m.disk board (keep _ board true (read_board-IsCoherentBoard m.now file all) h))
