-- ===== src/Relay/Concurrent/Progress.antt =====
-- relay.rs: how long a process may take over its command, and what a crash under the lock leaves.
use cortex_engine.Common.{
  ℕ, zero, suc, ◌+◌, ◌<◌, ◌≤◌, ◌≡◌, refl, ap, subst, ◌∙◌, ◌⊎◌, inl, inr, Bool, true, false,
  Bool-cases, List, [], ◌∷◌, ◌++◌, append_nil, eqb, eqb_iff, if◌then◌else◌, arith,
}
use cortex_engine.Relay.Operations.{File, Moment}
use cortex_engine.Relay.Run.{RelayCommand}
use cortex_engine.Relay.Lock.{
  Shared, Pc, Move, waiting, refused, entered, loaded, stored, returned, crashed, creates, sleeps,
  fails_to_open, times_out, reads, stores, drops, crashes, owns, is_over, reply, remaining,
  attempts,
}
use cortex_engine.Relay.Concurrent.{update, System, start, Reach, begin, step}
use cortex_engine.Relay.Concurrent.Exclusion.{Reach-Inv, Move-shut}
use cortex_engine.Relay.Concurrent.Atomic.{occurrences}

-- Every step of a process brings it nearer to its end.
Move-remaining :
    {moment : Moment} {command : RelayCommand} {s m : Shared} {q p : Pc} {ran : Bool}
    → Move moment command s q ran m p
    → remaining p < remaining q
unfolding remaining
Move-remaining (creates free) = omega arith
Move-remaining (sleeps held) = omega arith
Move-remaining fails_to_open = omega arith
Move-remaining times_out = omega arith
Move-remaining reads = omega arith
Move-remaining stores = omega arith
Move-remaining drops = omega arith
Move-remaining (crashes {p} was more) = pick p was more
  where
    pick : (p : Pc) → owns p ≡ true → is_over p ≡ false → remaining crashed < remaining p
    pick (waiting n) was more = cc
    pick (refused r) was more = cc
    pick entered was more = omega arith
    pick (loaded board) was more = omega arith
    pick (stored r) was more = omega arith
    pick (returned r) was more = cc
    pick crashed was more = cc

steps_taken :
    {commands : ℕ → Moment × RelayCommand} {file : File} {actors history : List ℕ} {s : System}
    → Reach commands (start file) actors history s
    → (i : ℕ) → occurrences i actors + remaining (s.pc i) ≤ attempts + 3
unfolding occurrences remaining
steps_taken begin i = omega arith
steps_taken (step {actors} {history} {s} j {p} r mv) i = elim (Bool-cases (eqb j i)) [
  | inl same ↦
      let e : j ≡ i = ground (arith, eqb_iff j i) in
      ground (
        arith,
        eqb_iff i j,
        steps_taken r i,
        subst (λ k. remaining p < remaining (s.pc k)) e (Move-remaining mv),
      )
  | inr other ↦ ground (arith, eqb_iff i j, eqb_iff j i, steps_taken r i)
]

-- A process that is not over has a step to make, whatever the lock file.
next-Move :
    (moment : Moment) (command : RelayCommand) (s : Shared) (q : Pc)
    → is_over q ≡ false
    → (ran : Bool) × (m : Shared) × (p : Pc) × Move moment command s q ran m p
next-Move moment command s (waiting zero) more = (_, _, _, times_out)
next-Move moment command s (waiting (suc n)) more = elim (Bool-cases s.lock) [
  | inl held ↦ (_, _, _, sleeps held)
  | inr free ↦ (_, _, _, creates free)
]
next-Move moment command s (refused r) more = cc
next-Move moment command s entered more = (_, _, _, reads)
next-Move moment command s (loaded board) more = (_, _, _, stores)
next-Move moment command s (stored r) more = (_, _, _, drops)
next-Move moment command s (returned r) more = cc
next-Move moment command s crashed more = cc

-- However the processes interleave, each one is over or can make a step, and it is over after at
-- most 203 steps of its own: 200 attempts at the lock and what follows them.
pub Reach-is_over :
    {commands : ℕ → Moment × RelayCommand} {file : File} {actors history : List ℕ} {s : System}
    → Reach commands (start file) actors history s
    → (i : ℕ)
    → (is_over (s.pc i) ≡ true)
      ⊎ ((occurrences i actors < attempts + 3)
          × (history' : List ℕ) × (t : System) × Reach commands
              (start file)
              (i ∷ actors)
              history'
              t)
unfolding remaining
Reach-is_over {commands} {file} {s} r i = elim (Bool-cases (is_over (s.pc i))) [
  | inl over ↦ inl over
  | inr more ↦
      let (ran, m, p, mv) = next-Move (commands i).0 (commands i).1 s.shared (s.pc i) more in
      inr (omega (arith, steps_taken r i, Move-remaining mv), _, _, step i r mv)
]

-- One step by a process that does not own the lock, while another does.
Move-reply :
    {moment : Moment} {command : RelayCommand} {s m : Shared} {q p : Pc} {ran : Bool}
    → Move moment command s q ran m p
    → owns q ≡ false
    → reply p ≡ reply q
Move-reply (creates free) out = refl
Move-reply (sleeps h) out = refl
Move-reply fails_to_open out = refl
Move-reply times_out out = refl
Move-reply reads out = cc
Move-reply stores out = cc
Move-reply drops out = cc
Move-reply (crashes was more) out = cc

-- Nothing has happened since `s` but that processes waited: `i` still owns the lock alone.
record IsStalled (i : ℕ) (s t : System) (ran : List ℕ) : Type 0 where
  same : t.shared ≡ s.shared
  stays : t.pc i ≡ crashed
  alone : (j : ℕ) → owns (t.pc j) ≡ true → i ≡ j
  quiet : ran ≡ []
  silent : (j : ℕ) → reply (t.pc j) ≡ reply (s.pc j)

module _ (commands : ℕ → Moment × RelayCommand) (i : ℕ) (s : System)
    (held : s.shared.lock ≡ true) where
  Move-IsStalled :
      {history : List ℕ} {t : System} (j : ℕ) {ran : Bool} {m : Shared} {p : Pc}
      → IsStalled i s t history
      → Move (commands j).0 (commands j).1 t.shared (t.pc j) ran m p
      → IsStalled i s
          (record { shared = m; pc = update t.pc j p })
          (history ++ (if ran then j ∷ [] else []))
  unfolding remaining
  Move-IsStalled {history} {t} j {ran} {m} {p} stalled mv = record {
    same = shut.0 ∙ same;
    stays = elim (Bool-cases (eqb j i)) [
      | inl here ↦ absurd (other (ground (arith, eqb_iff i j, eqb_iff j i)))
      | inr there ↦ ground (arith, stays)
    ];
    alone = λ k own. elim (Bool-cases (eqb j k)) [
      | inl here ↦ absurd (ground (arith, shut.1))
      | inr there ↦ alone k (ground arith)
    ];
    quiet = rw (shut.2) (append_nil history ∙ quiet);
    silent = λ k. elim (Bool-cases (eqb j k)) [
      | inl here ↦
          let e : j ≡ k = ground (arith, eqb_iff j k) in
          subst (λ n. reply (update t.pc j p n) ≡ reply (s.pc n)) e
            (ground (arith, eqb_iff j j, Move-reply mv out, silent j))
      | inr there ↦ ground (arith, silent k)
    ];
  }
    where
      open stalled use {same, stays, alone, quiet, silent}

      other : i ≡ j → ⊥
      other e =
          let here : t.pc j ≡ crashed = subst (λ k. t.pc k ≡ crashed) e stays in
          omega (arith, Move-remaining mv, ap remaining here)

      out : owns (t.pc j) ≡ false
      out = elim (Bool-cases (owns (t.pc j))) [
        | inl own ↦ absurd (other (alone j own))
        | inr is ↦ is
      ]

      shut : (m ≡ t.shared) × (owns p ≡ false) × (ran ≡ false)
      shut = Move-shut mv (ap (λ (x : Shared). x.lock) same ∙ held) out

  Reach-IsStalled :
      {actors history : List ℕ} {t : System}
      → IsStalled i s s []
      → Reach commands s actors history t
      → IsStalled i s t history
  Reach-IsStalled stalled begin = stalled
  Reach-IsStalled stalled (step j r mv) = Move-IsStalled j (Reach-IsStalled stalled r) mv

-- A process that crashes under the lock leaves the board as it is for good: whatever steps follow,
-- the file does not change, the lock file stays, no process gets in and no command is carried out or
-- answered any more.
pub crashed_holder :
    {commands : ℕ → Moment × RelayCommand} {file : File} {actors history later ran : List ℕ}
    {s t : System}
    → Reach commands (start file) actors history s
    → (i : ℕ) → s.pc i ≡ crashed
    → Reach commands s later ran t
    → (t.shared ≡ record s.shared { lock = true })
      × (ran ≡ [])
      × ((j : ℕ) → (owns (t.pc j) ≡ true → i ≡ j) × (reply (t.pc j) ≡ reply (s.pc j)))
crashed_holder {commands} {s} r i h later =
    let inv = Reach-Inv r in
    let own = ap owns h in
    let held = inv.locked i own in
    let stalled =
      Reach-IsStalled commands i s held
        (record {
          same = refl;
          stays = h;
          alone = λ j k. inv.unique i j own k;
          quiet = refl;
          silent = λ j. refl;
        })
        later in
    (stalled.same ∙ ground (arith, held), stalled.quiet, λ j. (stalled.alone j, stalled.silent j))
