-- ===== src/Query/Known.antt =====
-- mcp/src/query_code.rs: lemmas on the neighbours that the queries return.
use cortex_engine.Common.{
  ℕ, ◌≡◌, refl, sym, subst, String, Bool, true, false, ◌||◌, Option, none, some, List, [], ◌∷◌,
  ◌++◌, ◌==◌, if◌then◌else◌, is_some, any, arith, eq_iff, All, All-append, Bool-cases, Option-cases,
  inl, inr,
}
use cortex_engine.Storage.Tables.{NodeRow, EdgeRow, Db, node_with_id}
use cortex_engine.Query.Nodes.{
  Node, node_from_row, get_node_by_id, row_with_fqn, get_node_by_fqn, sources_of, get_callers,
  CalleeRow, same_callee_row, targets_of, callee_rows, distinct_rows, nodes_of_rows, get_callees,
  GraphHelper, nodes_of_fqns, sql_neighbors, choose_neighbors, graph_or_sql_neighbors,
  graph_direction,
}
use cortex_engine.Query.Impact.Laws.{IsAmong}

-- The symbol's row is in the database.
abbrev pub IsKnown : Db → Node → Type 0
IsKnown db n = is_some (node_with_id n.id db.nodes) ≡ true

pub get_node_by_id-known :
    (db : Db) (n : Node) → IsKnown db n → (m : Node) × (get_node_by_id db n.id ≡ some m)
unfolding get_node_by_id
get_node_by_id-known db n h = elim (Option-cases (node_with_id n.id db.nodes)) [
  | inl e ↦ absurd (ground (arith, h, e))
  | inr (row, e) ↦ (node_from_row row, rw e refl)
]

rows-IsKnown :
    (db : Db) (rows : List NodeRow)
    → ((id : String)
        → is_some (node_with_id id rows) ≡ true
        → is_some (node_with_id id db.nodes) ≡ true)
    → All (λ (row : NodeRow). IsKnown db (node_from_row row)) rows
unfolding node_with_id
rows-IsKnown db [] sub = tt
rows-IsKnown db (row ∷ rows) sub = (
  sub row.id (ground (arith, eq_iff row.id row.id)),
  rows-IsKnown db rows (λ id h. sub id (ground (arith, eq_iff row.id id))),
)

pub row_with_fqn-known :
    (fqn : String) (rows : List NodeRow) (row : NodeRow)
    → row_with_fqn fqn rows ≡ some row
    → is_some (node_with_id row.id rows) ≡ true
unfolding row_with_fqn node_with_id
row_with_fqn-known fqn [] row h = absurd (ground (arith, h))
row_with_fqn-known fqn (r ∷ rows) row h = elim (Bool-cases (r.fqn == fqn)) [
  | inl e ↦
      let same : r ≡ row = ground (arith, h, e) in
      subst (λ (x : NodeRow). is_some (node_with_id x.id (r ∷ rows)) ≡ true) same
        (ground (arith, eq_iff r.id r.id))
  | inr e ↦
      let later = row_with_fqn-known fqn rows row (ground (arith, h, e)) in ground (arith, later)
]

pub get_node_by_fqn-IsKnown :
    (db : Db) (fqn : String) (n : Node) → get_node_by_fqn db fqn ≡ some n → IsKnown db n
unfolding get_node_by_fqn
get_node_by_fqn-IsKnown db fqn n h = elim (Option-cases (row_with_fqn fqn db.nodes)) [
  | inl e ↦ absurd (ground (arith, h, e))
  | inr (row, e) ↦
      let same : node_from_row row ≡ n = ground (arith, h, e) in
      subst (IsKnown db) same (row_with_fqn-known fqn db.nodes row e)
]

node_with_id-known :
    (id : String) (rows : List NodeRow) (row : NodeRow)
    → node_with_id id rows ≡ some row
    → row.id ≡ id
unfolding node_with_id
node_with_id-known id [] row h = absurd (ground (arith, h))
node_with_id-known id (r ∷ rows) row h =
    ground (arith, h, node_with_id-known id rows row, eq_iff r.id id)

get_node_by_id_self :
    (db : Db) (id : String) (n : Node) → get_node_by_id db id ≡ some n → IsKnown db n
unfolding get_node_by_id
get_node_by_id_self db id n h = elim (Option-cases (node_with_id id db.nodes)) [
  | inl e ↦ absurd (ground (arith, h, e))
  | inr (row, e) ↦
      let same : row.id ≡ id = node_with_id-known id db.nodes row e in
      let from : node_from_row row ≡ n = ground (arith, h, e) in
      subst (IsKnown db) from
        (subst (λ k. is_some (node_with_id k db.nodes) ≡ true) (sym same) (ground (arith, e)))
]

module _ (db : Db) where
  sources_of-IsKnown :
      (wanted : EdgeRow → Bool) (edges : List EdgeRow)
      → All (IsKnown db) (sources_of db wanted edges)
  unfolding sources_of
  sources_of-IsKnown wanted [] = tt
  sources_of-IsKnown wanted (edge ∷ edges) =
      pick (wanted edge) (get_node_by_id db edge.source_id) refl (sources_of-IsKnown wanted edges)
    where
      pick :
          (b : Bool) (o : Option Node)
          → get_node_by_id db edge.source_id ≡ o
          → All (IsKnown db) (sources_of db wanted edges)
          → All (IsKnown db) (
              if b
              then (elim o [
                | none ↦ sources_of db wanted edges
                | some node ↦ node ∷ sources_of db wanted edges
              ])
              else sources_of db wanted edges)
      pick false o e h = h
      pick true none e h = h
      pick true (some node) e h = (get_node_by_id_self db edge.source_id node e, h)

  fqns-IsKnown : (fqns : List String) → All (IsKnown db) (nodes_of_fqns db fqns)
  unfolding nodes_of_fqns
  fqns-IsKnown [] = tt
  fqns-IsKnown (fqn ∷ fqns) = pick (get_node_by_fqn db fqn) refl (fqns-IsKnown fqns)
    where
      pick :
          (o : Option Node)
          → get_node_by_fqn db fqn ≡ o
          → All (IsKnown db) (nodes_of_fqns db fqns)
          → All
              (IsKnown db)
              (elim o [ none ↦ nodes_of_fqns db fqns | some n ↦ n ∷ nodes_of_fqns db fqns ])
      pick none e h = h
      pick (some n) e h = (get_node_by_fqn-IsKnown db fqn n e, h)

  abbrev IsKnownRow : CalleeRow → Type 0
  IsKnownRow row = IsKnown db row.node

  targets_of-IsKnown :
      (edge : EdgeRow) (rows : List NodeRow)
      → All (λ (row : NodeRow). IsKnown db (node_from_row row)) rows
      → All IsKnownRow (targets_of edge rows)
  unfolding targets_of
  targets_of-IsKnown edge [] h = tt
  targets_of-IsKnown edge (row ∷ rows) (k, h) = pick _ (targets_of-IsKnown edge rows h)
    where
      pick :
          (b : Bool)
          → All IsKnownRow (targets_of edge rows)
          → All IsKnownRow (
              if b
              then record {
                node = node_from_row row;
                edge_type = edge.edge_type;
                call_site_line = edge.call_site_line;
              }
                ∷ targets_of edge rows
              else targets_of edge rows)
      pick true later = (k, later)
      pick false later = later

  callee_rows-IsKnown :
      (id : String) (edges : List EdgeRow) → All IsKnownRow (callee_rows db id edges)
  unfolding callee_rows
  callee_rows-IsKnown id [] = tt
  callee_rows-IsKnown id (edge ∷ edges) = pick (edge.source_id == id) (callee_rows-IsKnown id edges)
    where
      pick :
          (b : Bool)
          → All IsKnownRow (callee_rows db id edges)
          → All IsKnownRow (
              if b
              then targets_of edge db.nodes ++ callee_rows db id edges
              else callee_rows db id edges)
      pick true h =
          All-append IsKnownRow _ _
            (targets_of-IsKnown edge db.nodes (rows-IsKnown db db.nodes (λ i k. k))) h
      pick false h = h

  distinct_rows-IsKnown :
      (seen rows : List CalleeRow)
      → All IsKnownRow rows
      → All (IsKnown db) (nodes_of_rows (distinct_rows seen rows))
  unfolding distinct_rows nodes_of_rows
  distinct_rows-IsKnown seen [] h = tt
  distinct_rows-IsKnown seen (row ∷ rows) (k, h) =
      pick (any (same_callee_row row) seen) (distinct_rows-IsKnown seen rows h)
        (distinct_rows-IsKnown (row ∷ seen) rows h)
    where
      pick :
          (b : Bool)
          → All (IsKnown db) (nodes_of_rows (distinct_rows seen rows))
          → All (IsKnown db) (nodes_of_rows (distinct_rows (row ∷ seen) rows))
          → All (IsKnown db) (
              nodes_of_rows
                (if b then distinct_rows seen rows else row ∷ distinct_rows (row ∷ seen) rows))
      pick true s t = s
      pick false s t = (k, t)

  sql_neighbors-IsKnown : (id direction : String) → All (IsKnown db) (sql_neighbors db id direction)
  unfolding get_callers get_callees
  sql_neighbors-IsKnown id direction =
      All-append (IsKnown db) _ _ (callers _)
        (callees (direction == "callees" || direction == "both"))
    where
      callers : (b : Bool) → All (IsKnown db) (if b then get_callers db id else [])
      callers true = sources_of-IsKnown _ db.edges
      callers false = tt

      callees : (b : Bool) → All (IsKnown db) (if b then get_callees db id else [])
      callees true = distinct_rows-IsKnown [] _ (callee_rows-IsKnown id db.edges)
      callees false = tt

  choose_neighbors-IsKnown :
      (id direction : String) (o : Option (List String))
      → All (IsKnown db) (choose_neighbors db id direction o)
  choose_neighbors-IsKnown id direction none = sql_neighbors-IsKnown id direction
  choose_neighbors-IsKnown id direction (some []) = sql_neighbors-IsKnown id direction
  choose_neighbors-IsKnown id direction (some (fqn ∷ fqns)) = fqns-IsKnown (fqn ∷ fqns)

  pub neighbors-IsKnown :
      (helper : GraphHelper) (direction : String) (limit : ℕ) (node : Node)
      → All (IsKnown db) (graph_or_sql_neighbors helper db direction limit node)
  unfolding graph_or_sql_neighbors
  neighbors-IsKnown helper direction limit node =
      choose_neighbors-IsKnown node.id direction (helper node.fqn (graph_direction direction) limit)

pub All-IsAmong : (P : Node → Type 0) (ns : List Node) (n : Node) → All P ns → IsAmong n ns → P n
unfolding IsAmong
All-IsAmong P [] n h k = absurd k
All-IsAmong P (m ∷ ms) n (p, h) (inl e) = subst P (sym e) p
All-IsAmong P (m ∷ ms) n (p, h) (inr k) = All-IsAmong P ms n h k
