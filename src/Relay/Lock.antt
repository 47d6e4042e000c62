-- ===== src/Relay/Lock.antt =====
-- relay.rs, `FileLock` and `transaction`: one process at the lock file and under it, step by step.
use cortex_engine.Common.{ℕ, zero, suc, ◌+◌, ◌≡◌, Bool, true, false, Option, none, some}
use cortex_engine.Relay.Board.{Board, Result, err, lock_timeout, lock_failed}
use cortex_engine.Relay.Operations.{File, Moment, store, read_board}
use cortex_engine.Relay.Run.{RelayCommand, body}

-- The attempts of the loop in `FileLock::acquire`.
abbrev pub attempts : ℕ
attempts = 200

-- What all processes share: the file of the board, and whether the lock file is there.
pub record Shared : Type 0 where
  pub file : File
  pub lock : Bool

-- Where a process stands. `waiting n` has `n` attempts left, `refused` has returned without the
-- lock, and `crashed` died while it held the lock, so that `drop` never ran.
pub data Pc : Type 0 where
  waiting : ℕ → Pc
  refused : Result Board → Pc
  entered : Pc
  loaded : Board → Pc
  stored : Result Board → Pc
  returned : Result Board → Pc
  crashed : Pc

-- The process holds the lock, or left it behind.
abbrev pub owns : Pc → Bool
owns (waiting n) = false
owns (refused r) = false
owns entered = true
owns (loaded board) = true
owns (stored r) = true
owns (returned r) = false
owns crashed = true

-- The process has nothing left to do.
abbrev pub is_over : Pc → Bool
is_over (waiting n) = false
is_over (refused r) = true
is_over entered = false
is_over (loaded board) = false
is_over (stored r) = false
is_over (returned r) = true
is_over crashed = true

-- What the command has answered, where it has run.
abbrev pub reply : Pc → Option (Result Board)
reply (waiting n) = none
reply (refused r) = none
reply entered = none
reply (loaded board) = none
reply (stored r) = some r
reply (returned r) = some r
reply crashed = none

-- How many more steps of its own a process can make.
unfoldable pub remaining : Pc → ℕ
remaining (waiting n) = n + 3
remaining (refused r) = 0
remaining entered = 3
remaining (loaded board) = 2
remaining (stored r) = 1
remaining (returned r) = 0
remaining crashed = 0

-- One step of a process with a command, and whether it is the one that carries the command out.
pub data Move (m : Moment) (command : RelayCommand) (s : Shared)
    : Pc → Bool → Shared → Pc → Type 0 where
  creates :
      {n : ℕ}
      → s.lock ≡ false
      → Move m command s (waiting (suc n)) false (record s { lock = true }) entered
  sleeps : {n : ℕ} → s.lock ≡ true → Move m command s (waiting (suc n)) false s (waiting n)
  fails_to_open : {n : ℕ} → Move m command s (waiting (suc n)) false s (refused (err lock_failed))
  times_out : Move m command s (waiting zero) false s (refused (err lock_timeout))
  reads : Move m command s entered false s (loaded (read_board m.now s.file))
  stores :
      {board : Board}
      → Move m command s
          (loaded board)
          true
          (record s { file = (store m (body m.now command board) s.file).0 })
          (stored (store m (body m.now command board) s.file).1)
  drops :
      {r : Result Board}
      → Move m command s (stored r) false (record s { lock = false }) (returned r)
  crashes : {p : Pc} → owns p ≡ true → is_over p ≡ false → Move m command s p false s crashed
