-- ===== src/Relay/Concurrent/Tests.antt =====
-- Two processes at one board: an interleaving, a crash, and the theorems on them.
use cortex_engine.Common.{
  ℕ, ◌≡◌, refl, ◌⊎◌, ◌<◌, ◌+◌, true, none, List, [], ◌∷◌, eqb, if◌then◌else◌,
}
use cortex_engine.Relay.Board.{Result, Board}
use cortex_engine.Relay.Operations.{File, Moment, Disk, read_board, transaction}
use cortex_engine.Relay.Run.{RelayCommand, acquires, claims_files, run}
use cortex_engine.Relay.Lock.{
  Shared, waiting, entered, loaded, crashed, creates, sleeps, reads, stores, crashes, owns, is_over,
  reply, attempts, stored,
}
use cortex_engine.Relay.Concurrent.{System, update, start, Reach, begin, step}
use cortex_engine.Relay.Concurrent.Exclusion.{mutual_exclusion}
use cortex_engine.Relay.Concurrent.Atomic.{IsAtomic, Reach-IsAtomic, occurrences}
use cortex_engine.Relay.Concurrent.Progress.{Reach-is_over, crashed_holder}

abbrev fine : ℕ → Moment
fine now = record { now = now; disk = Disk.works }

abbrev commands : ℕ → Moment × RelayCommand
commands i =
    if eqb i 0
    then (fine 100, acquires "a" "t" none)
    else (fine 101, claims_files "default" ("x" ∷ []))

-- The shared state with no board yet.
abbrev no_board : Shared
no_board = record { file = none; lock = true }

-- Process 0 is under the lock, and process 1 has waited once.
abbrev contending : System
contending = record {
  shared = no_board;
  pc = update (update (start none).pc 0 entered) 1 (waiting 199);
}

abbrev contended : Reach commands (start none) (1 ∷ 0 ∷ []) [] contending
contended = step 1 (step 0 begin (creates refl)) (sleeps refl)

mutual_exclusion_example : ◌≡◌ {A = ℕ} 0 0
mutual_exclusion_example = mutual_exclusion contended 0 0 refl refl

-- Process 0 has written its board.
abbrev answer : File × Result Board
answer = run none (commands 0)

abbrev carrying_out : System
carrying_out = record {
  shared = record { file = answer.0; lock = true };
  pc = update (update contending.pc 0 (loaded (read_board 100 none))) 0 (stored answer.1);
}

abbrev carried_out : Reach commands (start none) (0 ∷ 0 ∷ 1 ∷ 0 ∷ []) (0 ∷ []) carrying_out
unfolding run transaction
carried_out = step 0 (step 0 contended reads) stores

Reach-IsAtomic_example : IsAtomic commands none (0 ∷ []) carrying_out
Reach-IsAtomic_example = Reach-IsAtomic carried_out

Reach-is_over_example :
    (is_over (carrying_out.pc 0) ≡ true)
    ⊎ ((occurrences 0 (0 ∷ 0 ∷ 1 ∷ 0 ∷ []) < attempts + 3)
        × (history : List ℕ) × (t : System) × Reach commands
            (start none)
            (0 ∷ 0 ∷ 0 ∷ 1 ∷ 0 ∷ [])
            history
            t)
Reach-is_over_example = Reach-is_over carried_out 0

-- Process 0 dies under the lock, and process 1 waits on.
abbrev dead : System
dead = record { shared = no_board; pc = update contending.pc 0 crashed }

abbrev waiting_on : System
waiting_on = record { shared = no_board; pc = update dead.pc 1 (waiting 198) }

crashed_holder_example :
    (waiting_on.shared ≡ no_board)
    × (◌≡◌ {A = List ℕ} [] [])
    × ((j : ℕ)
        → (owns (waiting_on.pc j) ≡ true → 0 ≡ j) × (reply (waiting_on.pc j) ≡ reply (dead.pc j)))
crashed_holder_example =
    crashed_holder {commands = commands} (step 0 contended (crashes refl refl)) 0 refl
      (step 1 begin (sleeps refl))
