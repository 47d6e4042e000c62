-- ===== src/Relay/Claims.antt =====
-- relay.rs, `claim_files`: the claims of the lanes, and their conflicts.
use cortex_engine.Common.{
  ℕ, ◌≡◌, refl, ◌≢◌, inl, inr, String, Bool, true, false, some, List, [], ◌∷◌, ◌++◌, ◌==◌, arith,
  List-cases, contains, eq_iff, eq_refl, Bool-cases,
}
use cortex_engine.Common.Map.{Map, lookup, lookup-insert}
use cortex_engine.Relay.Board.{Lane, Board, ok}
use cortex_engine.Relay.Paths.{normalize_files}
use cortex_engine.Relay.Operations.{
  claim_files, find_file_claim_conflicts, conflicts_in, lane_conflicts, lane_or_default, with_lane,
  acquire, admit, lock_lane,
}

append_eq_nil {ℓ} : {A : Type ℓ} (xs ys : List A) → xs ++ ys ≡ [] → ys ≡ []
append_eq_nil [] ys h = h
append_eq_nil (x ∷ xs) ys h = absurd (cc)

-- No path of the list is among the others.
abbrev pub IsDisjoint : List String → List String → Type 0
IsDisjoint xs ys = (path : String) → contains path xs ≡ true → contains path ys ≡ false

lane_conflicts_free :
    (owner : String) (requested paths : List String) (path : String)
    → lane_conflicts owner requested paths ≡ []
    → contains path paths ≡ true
    → contains path requested ≡ false
unfolding lane_conflicts contains
lane_conflicts_free owner requested [] path h m = absurd (cc)
lane_conflicts_free owner requested (p ∷ ps) path h m =
    ground (arith, eq_iff p path, lane_conflicts_free owner requested ps path)

conflicts_free :
    (lane_id : String) (requested : List String) (lanes : Map Lane) (other : String) (lane : Lane)
    (path : String)
    → conflicts_in lane_id requested lanes ≡ []
    → lookup other lanes ≡ some lane
    → lane_id ≢ other
    → lane.status ≡ "BUSY"
    → contains path (normalize_files lane.files_to_modify) ≡ true
    → contains path requested ≡ false
unfolding conflicts_in lookup
conflicts_free lane_id requested [] other lane path h e ne busy m = absurd (cc)
conflicts_free lane_id requested ((o, l) ∷ lanes) other lane path h e ne busy m =
    elim (Bool-cases (o == other)) [
      | inl here ↦ ground (
        arith,
        eq_iff o other,
        eq_iff o lane_id,
        eq_iff l.status "BUSY",
        lane_conflicts_free o requested (normalize_files lane.files_to_modify) path,
      )
      | inr there ↦
          conflicts_free lane_id requested lanes other lane path
            (append_eq_nil _ (conflicts_in lane_id requested lanes) h) (rw there at e) ne busy m
    ]

module _ (lane_id : String) (files : List String) (board board' : Board) (write : Bool) where
  claim_files_shape :
      claim_files lane_id files board ≡ ok (board', write)
      → (find_file_claim_conflicts board lane_id (normalize_files files) ≡ [])
        × (board'
            ≡ with_lane board lane_id (record (lane_or_default board lane_id) {
              files_to_modify = normalize_files files;
            }))
  unfolding claim_files
  claim_files_shape h =
      elim (List-cases (find_file_claim_conflicts board lane_id (normalize_files files))) [
        | inl none_found ↦ (none_found, ground arith)
        | inr (c, cs, some_found) ↦ absurd (ground arith)
      ]

find_free :
    (lane_id : String) (requested : List String) (board : Board) (other : String) (lane : Lane)
    (path : String)
    → find_file_claim_conflicts board lane_id requested ≡ []
    → lookup other board.lanes ≡ some lane
    → lane_id ≢ other
    → lane.status ≡ "BUSY"
    → contains path (normalize_files lane.files_to_modify) ≡ true
    → contains path requested ≡ false
unfolding find_file_claim_conflicts contains
find_free lane_id [] board other lane path h e ne busy m = refl
find_free lane_id (r ∷ rs) board other lane path h e ne busy m =
    conflicts_free lane_id (r ∷ rs) board.lanes other lane path h e ne busy m

-- A claim that succeeds is disjoint from the claims of every other lane that is busy; it replaces
-- the lane's earlier claims, and leaves every other lane alone.
pub claim_files-IsDisjoint :
    (lane_id : String) (files : List String) (board board' : Board) (write : Bool)
    → claim_files lane_id files board ≡ ok (board', write)
    → ((other : String) (lane : Lane)
        → lookup other board.lanes ≡ some lane
        → lane_id ≢ other
        → lane.status ≡ "BUSY"
        → IsDisjoint (normalize_files lane.files_to_modify) (normalize_files files))
      × ((lane_or_default board' lane_id).files_to_modify ≡ normalize_files files)
      × ((other : String) → lane_id ≢ other → lookup other board'.lanes ≡ lookup other board.lanes)
claim_files-IsDisjoint lane_id files board board' write h =
    let (free, e) = claim_files_shape lane_id files board board' write h in
    (
      λ other lane f ne busy path m.
          find_free lane_id (normalize_files files) board other lane path free f ne busy m,
      rw (e, lookup-insert, eq_refl),
      λ other ne. rw (e, lookup-insert) (ground (arith, eq_iff lane_id other)),
    )

-- `acquire` does not look at claims: an idle lane whose reserved paths another busy lane has reserved
-- too can be acquired, and then both lanes are busy and both claim the path.
pub acquire_ignores_claims :
    (now : ℕ) (agent_id task_name lane_id other path : String) (board : Board) (lane busy : Lane)
    → lane_id ≢ other
    → lookup lane_id board.lanes ≡ some lane
    → lane.status ≡ "IDLE"
    → contains path (normalize_files lane.files_to_modify) ≡ true
    → lookup other board.lanes ≡ some busy
    → busy.status ≡ "BUSY"
    → contains path (normalize_files busy.files_to_modify) ≡ true
    → (board' : Board) × (lane' : Lane) × (acquire now agent_id task_name lane_id board
        ≡ ok (board', true))
      × (lookup lane_id board'.lanes ≡ some lane')
      × (lane'.status ≡ "BUSY")
      × (contains path lane'.files_to_modify ≡ true)
      × (lookup other board'.lanes ≡ some busy)
unfolding acquire lock_lane
acquire_ignores_claims now agent_id task_name lane_id other path board lane busy ne e free m f b
      m' =
    let locked = lock_lane now agent_id task_name lane in
    (
      with_lane board lane_id locked,
      locked,
      rw (e, acquire) (rw (free, admit) refl),
      rw (lookup-insert, eq_refl),
      refl,
      m,
      rw lookup-insert (ground (arith, eq_iff lane_id other)),
    )
