-- ===== src/Relay/Concurrent/Exclusion.antt =====
-- relay.rs, `FileLock` and `transaction`: who owns the lock file among interleaved processes.
use cortex_engine.Common.{
  ℕ, ◌≡◌, refl, ap, subst, ◌∙◌, inl, inr, Bool, true, false, Bool-cases, List, eqb, eqb_iff, arith,
}
use cortex_engine.Relay.Board.{Board}
use cortex_engine.Relay.Operations.{File, Moment, read_board}
use cortex_engine.Relay.Run.{RelayCommand}
use cortex_engine.Relay.Lock.{
  Shared, Pc, Move, loaded, creates, sleeps, fails_to_open, times_out, reads, stores, drops,
  crashes, owns,
}
use cortex_engine.Relay.Concurrent.{update, System, start, Reach, begin, step}

-- At most one process owns the lock, the lock file is there while one does, and a board that was
-- read under the lock is the one the file holds.
pub record Inv (commands : ℕ → Moment × RelayCommand) (s : System) : Type 0 where
  pub locked : (i : ℕ) → owns (s.pc i) ≡ true → s.shared.lock ≡ true
  pub unique : (i j : ℕ) → owns (s.pc i) ≡ true → owns (s.pc j) ≡ true → i ≡ j
  pub fresh :
      (i : ℕ) (board : Board)
      → s.pc i ≡ loaded board
      → board ≡ read_board (commands i).0.now s.shared.file

Inv-start : (commands : ℕ → Moment × RelayCommand) (file : File) → Inv commands (start file)
Inv-start commands file = record {
  locked = λ i h. cc;
  unique = λ i j h k. cc;
  fresh = λ i board h. cc;
}

-- A process that becomes or stays the owner has the lock file there.
Move-locked :
    {moment : Moment} {command : RelayCommand} {s m : Shared} {q p : Pc} {ran : Bool}
    → Move moment command s q ran m p
    → (owns q ≡ true → s.lock ≡ true)
    → owns p ≡ true
    → m.lock ≡ true
Move-locked (creates free) kept own = refl
Move-locked (sleeps held) kept own = cc
Move-locked fails_to_open kept own = cc
Move-locked times_out kept own = cc
Move-locked reads kept own = kept refl
Move-locked stores kept own = kept refl
Move-locked drops kept own = cc
Move-locked (crashes was more) kept own = kept was

-- While the lock file is another's, a process changes nothing and does not get in.
pub Move-shut :
    {moment : Moment} {command : RelayCommand} {s m : Shared} {q p : Pc} {ran : Bool}
    → Move moment command s q ran m p
    → s.lock ≡ true
    → owns q ≡ false
    → (m ≡ s) × (owns p ≡ false) × (ran ≡ false)
Move-shut (creates free) held out = absurd (cc)
Move-shut (sleeps h) held out = (refl, refl, refl)
Move-shut fails_to_open held out = (refl, refl, refl)
Move-shut times_out held out = (refl, refl, refl)
Move-shut reads held out = absurd (cc)
Move-shut stores held out = absurd (cc)
Move-shut drops held out = absurd (cc)
Move-shut (crashes was more) held out = absurd (cc)

Move-fresh :
    {moment : Moment} {command : RelayCommand} {s m : Shared} {q p : Pc} {ran : Bool}
    → Move moment command s q ran m p
    → (board : Board) → p ≡ loaded board
    → board ≡ read_board moment.now m.file
Move-fresh (creates free) board h = cc
Move-fresh (sleeps held) board h = cc
Move-fresh fails_to_open board h = cc
Move-fresh times_out board h = cc
Move-fresh reads board h = cc
Move-fresh stores board h = cc
Move-fresh drops board h = cc
Move-fresh (crashes was more) board h = cc

module _ (commands : ℕ → Moment × RelayCommand) (s : System) (inv : Inv commands s) (i : ℕ) where
  open inv use {locked, unique, fresh}

  -- Another process owns the lock, so the one that steps does not.
  pub out_of : (j : ℕ) → owns (s.pc j) ≡ true → eqb i j ≡ false → owns (s.pc i) ≡ false
  out_of j own other = elim (Bool-cases (owns (s.pc i))) [
    | inl is ↦ absurd (ground (arith, eqb_iff i j, unique i j is own))
    | inr not_it ↦ not_it
  ]

  module _ {ran : Bool} {m : Shared} {p : Pc}
      (mv : Move (commands i).0 (commands i).1 s.shared (s.pc i) ran m p) where
    after_other :
        (j : ℕ)
        → owns (s.pc j) ≡ true
        → eqb i j ≡ false
        → (m ≡ s.shared) × (owns p ≡ false) × (ran ≡ false)
    after_other j own other = Move-shut mv (locked j own) (out_of j own other)

    next_locked : (j : ℕ) → owns (update s.pc i p j) ≡ true → m.lock ≡ true
    next_locked j own = elim (Bool-cases (eqb i j)) [
      | inl same ↦ Move-locked mv (locked i) (ground arith)
      | inr other ↦
          let own_j : owns (s.pc j) ≡ true = ground arith in
          ap (λ (x : Shared). x.lock) (after_other j own_j other).0 ∙ locked j own_j
    ]

    next_unique :
        (j k : ℕ) → owns (update s.pc i p j) ≡ true → owns (update s.pc i p k) ≡ true → j ≡ k
    next_unique j k own_j own_k = elim (Bool-cases (eqb i j)) [
      | inl same_j ↦ elim (Bool-cases (eqb i k)) [
        | inl same_k ↦ ground (arith, eqb_iff i j, eqb_iff i k)
        | inr other_k ↦ absurd (ground (arith, (after_other k (ground arith) other_k).1))
      ]
      | inr other_j ↦ elim (Bool-cases (eqb i k)) [
        | inl same_k ↦ absurd (ground (arith, (after_other j (ground arith) other_j).1))
        | inr other_k ↦ unique j k (ground arith) (ground arith)
      ]
    ]

    next_fresh :
        (j : ℕ) (board : Board)
        → update s.pc i p j ≡ loaded board
        → board ≡ read_board (commands j).0.now m.file
    next_fresh j board h = elim (Bool-cases (eqb i j)) [
      | inl same ↦
          let e : i ≡ j = ground (arith, eqb_iff i j) in
          subst (λ k. board ≡ read_board (commands k).0.now m.file) e
            (Move-fresh mv board (ground arith))
      | inr other ↦
          let at : s.pc j ≡ loaded board = ground arith in
          let own : owns (s.pc j) ≡ true = ap owns at in
          rw ((after_other j own other).0) (fresh j board at)
    ]

    Move-Inv : Inv commands (record { shared = m; pc = update s.pc i p })
    Move-Inv = record { locked = next_locked; unique = next_unique; fresh = next_fresh }

pub Reach-Inv :
    {commands : ℕ → Moment × RelayCommand} {file : File} {actors history : List ℕ} {s : System}
    → Reach commands (start file) actors history s
    → Inv commands s
Reach-Inv {commands} {file} begin = Inv-start commands file
Reach-Inv {commands} (step {s} i r mv) = Move-Inv commands s (Reach-Inv r) i mv

-- However the processes interleave, and wherever they crash, at most one of them owns the lock: it is
-- under the lock, or it crashed there.
pub mutual_exclusion :
    {commands : ℕ → Moment × RelayCommand} {file : File} {actors history : List ℕ} {s : System}
    → Reach commands (start file) actors history s
    → (i j : ℕ) → owns (s.pc i) ≡ true
    → owns (s.pc j) ≡ true
    → i ≡ j
mutual_exclusion r = (Reach-Inv r).unique
