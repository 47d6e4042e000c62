-- ===== src/Relay/Concurrent.antt =====
-- relay.rs: any number of processes, each with one command, that share the board's file and its lock
-- file, interleaved in any order.
pub mod Exclusion
pub mod Atomic
pub mod Progress
mod Tests
use cortex_engine.Common.{ℕ, Bool, true, false, List, [], ◌∷◌, ◌++◌, eqb, if◌then◌else◌}
use cortex_engine.Relay.Run.{RelayCommand}
use cortex_engine.Relay.Operations.{File, Moment}
use cortex_engine.Relay.Lock.{Shared, Pc, Move, waiting, attempts}

-- What process `j` is at, once process `i` is at `p`.
abbrev pub update : (ℕ → Pc) → ℕ → Pc → ℕ → Pc
update pc i p j = if eqb i j then p else pc j

pub record System : Type 0 where
  pub shared : Shared
  pub pc : ℕ → Pc

-- No lock file, and every process before its first attempt.
abbrev pub start : File → System
start file = record { shared = record { file = file; lock = false }; pc = λ i. waiting attempts }

-- What is reached from a state when the listed processes step, the last one first, and the processes
-- whose commands were carried out on the way, the first one first.
pub data Reach (commands : ℕ → Moment × RelayCommand) (origin : System)
    : List ℕ → List ℕ → System → Type 0 where
  begin : Reach commands origin [] [] origin
  step :
      {actors history : List ℕ} {s : System} (i : ℕ) {ran : Bool} {m : Shared} {p : Pc}
      → Reach commands origin actors history s
      → Move (commands i).0 (commands i).1 s.shared (s.pc i) ran m p
      → Reach commands origin
          (i ∷ actors)
          (history ++ (if ran then i ∷ [] else []))
          (record { shared = m; pc = update s.pc i p })
