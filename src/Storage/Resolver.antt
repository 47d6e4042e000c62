-- ===== src/Storage/Resolver.antt =====
-- storage/src/resolver.rs: edges whose target is only a name are pointed at the one node that fits.
-- The source splits its IN lists into batches of 900, and keeps candidates in hash maps: neither the
-- batches nor the order of the candidates change how many match.
pub mod Matching
pub mod Soundness
pub mod Effect
use cortex_engine.Common.{
  ℕ, String, Bool, true, false, ◌&&◌, ◌||◌, not, Option, none, some, List, [], ◌∷◌, ◌++◌, ◌==◌,
  starts_with, if◌then◌else◌, any, filter, map, contains, is_some, eqb, is_empty,
}
use cortex_engine.Common.Chars.{to_ascii_lowercase}
use cortex_engine.Common.Map.{Map}
use cortex_engine.Storage.Tables.{NodeRow, EdgeRow, Db, node_with_id}
use cortex_engine.Storage.Write.{has_triple}
use Matching.{Candidate, candidates_of, lookup_by_name, lookup_by_fqn, collect_targets, resolve_one}

-- `LIKE '__unresolved%'`: each `_` is any one character, and letters match in either case.
unfoldable pub like_unresolved : String → Bool
like_unresolved (String.◌∷◌ c (String.◌∷◌ d s)) = starts_with (to_ascii_lowercase s) "unresolved"
like_unresolved s = false

abbrev pub is_unresolved : EdgeRow → Bool
is_unresolved edge = edge.resolution_status == "unresolved" || like_unresolved edge.target_id

unfoldable pub fetch_unresolved_edges : Db → List EdgeRow
fetch_unresolved_edges db = filter is_unresolved db.edges

-- The language of an edge's source, by the join of `source_language_map`.
unfoldable pub source_language : Db → EdgeRow → Option String
source_language db edge = elim (node_with_id edge.source_id db.nodes) [
  | none ↦ none
  | some row ↦ some row.language
]

-- What is to be written for the edges, in their order: a target, or that the edge is ambiguous.
pub record Updates : Type 0 where
  pub resolved : List (String × ℕ)
  pub ambiguous : List ℕ

abbrev add_update : EdgeRow → List Candidate → Updates → Updates
add_update edge [] updates = updates
add_update edge (c ∷ []) updates = record updates { resolved = (c.id, edge.id) ∷ updates.resolved }
add_update edge (c ∷ d ∷ cs) updates = record updates { ambiguous = edge.id ∷ updates.ambiguous }

-- `UPDATE OR IGNORE edges SET target_id = ?, resolution_status = 'resolved' WHERE id = ?`: the row is
-- left as it is where another one has the new triple.
unfoldable pub set_target : String → ℕ → List EdgeRow → List EdgeRow → List EdgeRow
set_target target id all [] = []
set_target target id all (row ∷ rows) =
    (if eqb row.id id
        && not (
            any
              (λ (other : EdgeRow).
                not (eqb other.id id) && has_triple row.source_id target row.edge_type other)
              all)
      then record row { target_id = target; resolution_status = "resolved" }
      else row)
    ∷ set_target target id all rows

-- `UPDATE OR IGNORE edges SET resolution_status = ? WHERE id = ?`.
unfoldable pub set_status : String → ℕ → List EdgeRow → List EdgeRow
set_status status id [] = []
set_status status id (row ∷ rows) =
    (if eqb row.id id then record row { resolution_status = status } else row)
    ∷ set_status status id rows

unfoldable pub set_targets : List (String × ℕ) → List EdgeRow → List EdgeRow
unfolding set_target
set_targets [] rows = rows
set_targets ((target, id) ∷ updates) rows = set_targets updates (set_target target id rows rows)

unfoldable pub set_statuses : List ℕ → List EdgeRow → List EdgeRow
unfolding set_status
set_statuses [] rows = rows
set_statuses (id ∷ ids) rows = set_statuses ids (set_status "ambiguous" id rows)

unfoldable pub apply_updates : Updates → Db → Db
unfolding set_targets set_statuses
apply_updates updates db = record db {
  edges = set_statuses updates.ambiguous (set_targets updates.resolved db.edges);
}

module _ (db : Db) (by_name by_fqn : Map (List Candidate)) where
  unfoldable pub plan_updates : List EdgeRow → Updates
  plan_updates [] = record { resolved = []; ambiguous = [] }
  plan_updates (edge ∷ edges) =
      add_update edge (resolve_one edge (source_language db edge) by_name by_fqn)
        (plan_updates edges)

unfoldable pub resolve_unresolved_edges : Db → Db
unfolding fetch_unresolved_edges source_language plan_updates apply_updates
resolve_unresolved_edges db =
    let unresolved = fetch_unresolved_edges db in
    let (names, fqns) = collect_targets unresolved in
    let candidates = candidates_of names fqns db.nodes in
    apply_updates
      (plan_updates db (lookup_by_name candidates) (lookup_by_fqn candidates) unresolved) db
