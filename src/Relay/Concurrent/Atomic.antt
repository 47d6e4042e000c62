-- ===== src/Relay/Concurrent/Atomic.antt =====
-- relay.rs: interleaved processes against `run_all`, by which commands run one after another.
use cortex_engine.Common.{
  ℕ, suc, ◌+◌, ◌≤◌, ◌≡◌, refl, sym, ap, subst, ◌∙◌, inl, inr, Bool, true, false, Bool-cases, some,
  List, [], ◌∷◌, ◌++◌, map, eqb, eqb_iff, if◌then◌else◌, append_nil, append_assoc, arith,
}
use cortex_engine.Relay.Board.{Board, Result}
use cortex_engine.Relay.Operations.{File, Moment, read_board, transaction, store}
use cortex_engine.Relay.Run.{RelayCommand, run, run_all, body}
use cortex_engine.Relay.Lock.{
  Shared, Pc, Move, waiting, refused, entered, loaded, stored, returned, crashed, creates, sleeps,
  fails_to_open, times_out, reads, stores, drops, crashes, reply,
}
use cortex_engine.Relay.Concurrent.{update, System, start, Reach, begin, step}
use cortex_engine.Relay.Concurrent.Exclusion.{Inv, Reach-Inv}

run_all-append :
    (file : File) (cs ds : List (Moment × RelayCommand))
    → run_all file (cs ++ ds) ≡ run_all (run_all file cs) ds
unfolding run_all
run_all-append file [] ds = refl
run_all-append file (c ∷ cs) ds = run_all-append (run file c).0 cs ds

-- How many times a process stands in a history.
unfoldable pub occurrences : ℕ → List ℕ → ℕ
occurrences i [] = 0
occurrences i (j ∷ js) = let rest = occurrences i js in if eqb i j then suc rest else rest

occurrences-append :
    (i : ℕ) (js ks : List ℕ) → occurrences i (js ++ ks) ≡ occurrences i js + occurrences i ks
unfolding occurrences
occurrences-append i [] ks = omega arith
occurrences-append i (j ∷ js) ks = ground (arith, occurrences-append i js ks)

-- The command of the process has not been carried out.
abbrev pub is_before : Pc → Bool
is_before (waiting n) = true
is_before (refused r) = true
is_before entered = true
is_before (loaded board) = true
is_before (stored r) = false
is_before (returned r) = false
is_before crashed = false

-- A reply is the one that the command gives on the file that the commands before it leave.
abbrev IsReplyOf : (ℕ → Moment × RelayCommand) → File → List ℕ → ℕ → Result Board → Type 0
IsReplyOf commands file history i r =
    (before : List ℕ) × (after : List ℕ) × (history ≡ before ++ i ∷ after)
    × (r ≡ (run (run_all file (map commands before)) (commands i)).1)

-- What one step does to the file, to the reply and to the process's place.
Move-run :
    {moment : Moment} {command : RelayCommand} {s m : Shared} {q p : Pc} {ran : Bool}
    → Move moment command s q ran m p
    → ((board : Board) → q ≡ loaded board → board ≡ read_board moment.now s.file)
    → (m.file ≡ (if ran then (run s.file (moment, command)).0 else s.file))
      × ((r : Result Board)
          → reply p ≡ some r
          → if ran then (r ≡ (run s.file (moment, command)).1) else (reply q ≡ some r))
      × (is_before p ≡ true → (is_before q ≡ true) × (ran ≡ false))
      × (ran ≡ true → is_before q ≡ true)
unfolding run transaction
Move-run (creates free) fresh = (refl, λ r h. h, λ h. (refl, refl), λ h. cc)
Move-run (sleeps held) fresh = (refl, λ r h. h, λ h. (refl, refl), λ h. cc)
Move-run fails_to_open fresh = (refl, λ r h. h, λ h. (refl, refl), λ h. cc)
Move-run times_out fresh = (refl, λ r h. h, λ h. (refl, refl), λ h. cc)
Move-run reads fresh = (refl, λ r h. h, λ h. (refl, refl), λ h. cc)
Move-run {moment} {command} {s} (stores {board}) fresh =
    let e = fresh board refl in
    (
      ap (λ b. (store moment (body moment.now command b) s.file).0) e,
      λ r h.
          let reply_is : (store moment (body moment.now command board) s.file).1 ≡ r = cc in
          sym reply_is ∙ ap (λ b. (store moment (body moment.now command b) s.file).1) e,
      λ h. cc,
      λ h. refl,
    )
Move-run drops fresh = (refl, λ r h. h, λ h. cc, λ h. cc)
Move-run (crashes was more) fresh = (refl, λ r h. cc, λ h. cc, λ h. cc)

-- A state in which the processes look as if the commands of the history had run one by one, each
-- under the lock from start to end.
pub record IsAtomic (commands : ℕ → Moment × RelayCommand) (file : File) (history : List ℕ)
    (s : System) : Type 0 where
  pub as_run : s.shared.file ≡ run_all file (map commands history)
  pub replies :
      (i : ℕ) (r : Result Board) → reply (s.pc i) ≡ some r → IsReplyOf commands file history i r
  pub not_yet : (i : ℕ) → is_before (s.pc i) ≡ true → occurrences i history ≡ 0
  pub once : (i : ℕ) → occurrences i history ≤ 1

IsReplyOf-append :
    (commands : ℕ → Moment × RelayCommand) (file : File) (history more : List ℕ) (i : ℕ)
    (r : Result Board)
    → IsReplyOf commands file history i r
    → IsReplyOf commands file (history ++ more) i r
IsReplyOf-append commands file history more i r (before, after, e, h) =
    (before, after ++ more, ap (λ js. js ++ more) e ∙ append_assoc before (i ∷ after) more, h)

map-append :
    (f : ℕ → Moment × RelayCommand) (js ks : List ℕ) → map f (js ++ ks) ≡ map f js ++ map f ks
map-append f [] ks = refl
map-append f (j ∷ js) ks = ap (λ rest. f j ∷ rest) (map-append f js ks)

occurrences_last :
    (i j : ℕ) (ran : Bool)
    → occurrences j (if ran then i ∷ [] else []) ≡ (if ran then (if eqb i j then 1 else 0) else 0)
unfolding occurrences
occurrences_last i j ran = ground (arith, eqb_iff i j, eqb_iff j i)

module _ (commands : ℕ → Moment × RelayCommand) (file : File) (history : List ℕ) (s : System)
    (inv : Inv commands s) (atomic : IsAtomic commands file history s) (i : ℕ) where
  open atomic use {as_run, replies, not_yet, once}

  module _ {ran : Bool} {m : Shared} {p : Pc}
      (mv : Move (commands i).0 (commands i).1 s.shared (s.pc i) ran m p) where
    next_as_run : m.file ≡ run_all file (map commands (history ++ (if ran then i ∷ [] else [])))
    unfolding run_all
    next_as_run = pick ran (Move-run mv (inv.fresh i)).0
      where
        pick :
            (b : Bool)
            → m.file ≡ (if b then (run s.shared.file (commands i)).0 else s.shared.file)
            → m.file ≡ run_all file (map commands (history ++ (if b then i ∷ [] else [])))
        pick true e =
            e
            ∙ ap (λ f. (run f (commands i)).0) as_run
            ∙ sym (
                ap (run_all file) (map-append commands history (i ∷ []))
                ∙ run_all-append file (map commands history) (commands i ∷ []))
        pick false e =
            e ∙ as_run ∙ ap (λ js. run_all file (map commands js)) (sym (append_nil history))

    next_replies :
        (j : ℕ) (r : Result Board)
        → reply (update s.pc i p j) ≡ some r
        → IsReplyOf commands file (history ++ (if ran then i ∷ [] else [])) j r
    next_replies j r h = elim (Bool-cases (eqb i j)) [
      | inl same ↦
          let e : i ≡ j = ground (arith, eqb_iff i j) in
          let at : reply p ≡ some r = ground arith in
          subst (λ k. IsReplyOf commands file (history ++ (if ran then i ∷ [] else [])) k r) e
            (pick ran ((Move-run mv (inv.fresh i)).1 r at))
      | inr other ↦
          let at : reply (s.pc j) ≡ some r = ground arith in
          IsReplyOf-append commands file history _ j r (replies j r at)
    ]
      where
        pick :
            (b : Bool)
            → (if b then (r ≡ (run s.shared.file (commands i)).1) else (reply (s.pc i) ≡ some r))
            → IsReplyOf commands file (history ++ (if b then i ∷ [] else [])) i r
        pick true e = (history, [], refl, e ∙ ap (λ f. (run f (commands i)).1) as_run)
        pick false e = IsReplyOf-append commands file history [] i r (replies i r e)

    next_not_yet :
        (j : ℕ)
        → is_before (update s.pc i p j) ≡ true
        → occurrences j (history ++ (if ran then i ∷ [] else [])) ≡ 0
    next_not_yet j h = elim (Bool-cases (eqb i j)) [
      | inl same ↦
          let e : i ≡ j = ground (arith, eqb_iff i j) in
          let moved = (Move-run mv (inv.fresh i)).2 (ground arith) in
          let none_before : occurrences j history ≡ 0 =
            subst (λ k. occurrences k history ≡ 0) e (not_yet i moved.0) in
          ground (
            arith,
            occurrences-append j history (if ran then i ∷ [] else []),
            occurrences_last i j ran,
          )
      | inr other ↦ ground (
        arith,
        occurrences-append j history (if ran then i ∷ [] else []),
        occurrences_last i j ran,
        not_yet j (ground arith),
      )
    ]

    next_once : (j : ℕ) → occurrences j (history ++ (if ran then i ∷ [] else [])) ≤ 1
    next_once j = elim (Bool-cases (eqb i j)) [
      | inl same ↦
          let e : i ≡ j = ground (arith, eqb_iff i j) in
          let none_before : ran ≡ true → occurrences j history ≡ 0 = λ h.
            subst (λ k. occurrences k history ≡ 0) e
              (not_yet i ((Move-run mv (inv.fresh i)).3 h)) in
          ground (
            arith,
            occurrences-append j history (if ran then i ∷ [] else []),
            occurrences_last i j ran,
            once j,
          )
      | inr other ↦ ground (
        arith,
        occurrences-append j history (if ran then i ∷ [] else []),
        occurrences_last i j ran,
        once j,
      )
    ]

    Move-IsAtomic :
        IsAtomic commands file
          (history ++ (if ran then i ∷ [] else []))
          (record { shared = m; pc = update s.pc i p })
    Move-IsAtomic = record {
      as_run = next_as_run;
      replies = next_replies;
      not_yet = next_not_yet;
      once = next_once;
    }

IsAtomic-start :
    (commands : ℕ → Moment × RelayCommand) (file : File) → IsAtomic commands file [] (start file)
unfolding occurrences run_all
IsAtomic-start commands file = record {
  as_run = refl;
  replies = λ i r h. cc;
  not_yet = λ i h. refl;
  once = λ i. omega arith;
}

-- However processes interleave over the file, each read, write and lock a step of its own, the file
-- is the one that `run_all` gives for the processes' commands, one after another in the order of
-- their writes; each process's reply is the one its command gives at its place in that order; a
-- process carries its command out at most once, and not at all before it writes or when it is
-- refused the lock.
pub Reach-IsAtomic :
    {commands : ℕ → Moment × RelayCommand} {file : File} {actors history : List ℕ} {s : System}
    → Reach commands (start file) actors history s
    → IsAtomic commands file history s
Reach-IsAtomic {commands} {file} begin = IsAtomic-start commands file
Reach-IsAtomic {commands} {file} (step {history} {s} i r mv) =
    Move-IsAtomic commands file history s (Reach-Inv r) (Reach-IsAtomic r) i mv
