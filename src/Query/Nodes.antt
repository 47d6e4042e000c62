-- ===== src/Query/Nodes.antt =====
-- mcp/src/storage_tools.rs and query_code.rs: symbols and their neighbours. An error of SQLite itself
-- is not modelled.
use cortex_engine.Common.{
  ℕ, String, Bool, true, false, ◌&&◌, ◌||◌, Option, none, some, List, [], ◌∷◌, ◌++◌, ◌==◌, ◌+++◌,
  if◌then◌else◌, any, eqb, filter_map, map_option,
}
use cortex_engine.Storage.Records.{unresolved_name_prefix}
use cortex_engine.Storage.Tables.{NodeRow, EdgeRow, Db, node_with_id}

pub record Node : Type 0 where
  pub id : String
  pub node_type : String
  pub name : String
  pub fqn : String
  pub file_path : String
  pub start_line : ℕ
  pub language : String

abbrev pub node_from_row : NodeRow → Node
node_from_row row = record {
  id = row.id;
  node_type = row.node_type;
  name = row.name;
  fqn = row.fqn;
  file_path = row.file_path;
  start_line = row.start_line;
  language = row.language;
}

unfoldable pub get_node_by_id : Db → String → Option Node
get_node_by_id db id = map_option node_from_row (node_with_id id db.nodes)

-- `SELECT * FROM nodes WHERE fqn = ?`, of which the first row is read.
unfoldable pub row_with_fqn : String → List NodeRow → Option NodeRow
row_with_fqn fqn [] = none
row_with_fqn fqn (row ∷ rows) = if row.fqn == fqn then some row else row_with_fqn fqn rows

unfoldable pub get_node_by_fqn : Db → String → Option Node
unfolding row_with_fqn
get_node_by_fqn db fqn = map_option node_from_row (row_with_fqn fqn db.nodes)

-- An edge into the node, or into its name while the edge is unresolved.
unfoldable pub targets_node : String → Option NodeRow → EdgeRow → Bool
targets_node id none edge = edge.target_id == id
targets_node id (some row) edge =
    edge.target_id == id || edge.target_id == (unresolved_name_prefix +++ row.name)

-- The join of the edges with the nodes that they lead from, in the order of the edges.
unfoldable pub sources_of : Db → (EdgeRow → Bool) → List EdgeRow → List Node
unfolding get_node_by_id
sources_of db wanted [] = []
sources_of db wanted (edge ∷ edges) =
    let rest = sources_of db wanted edges in
    if wanted edge
    then (elim (get_node_by_id db edge.source_id) [ none ↦ rest | some node ↦ node ∷ rest ])
    else rest

unfoldable pub get_callers : Db → String → List Node
unfolding sources_of targets_node
get_callers db id = sources_of db (targets_node id (node_with_id id db.nodes)) db.edges

-- What a row of the query for callees is told apart by: the node, the edge's type and its line.
pub record CalleeRow : Type 0 where
  pub node : Node
  pub edge_type : String
  pub call_site_line : Option ℕ

abbrev same_line : Option ℕ → Option ℕ → Bool
same_line none none = true
same_line none (some n) = false
same_line (some m) none = false
same_line (some m) (some n) = eqb m n

abbrev pub same_callee_row : CalleeRow → CalleeRow → Bool
same_callee_row r s =
    r.node.id == s.node.id
    && (r.edge_type == s.edge_type && same_line r.call_site_line s.call_site_line)

-- The nodes that one edge leads to.
unfoldable pub targets_of : EdgeRow → List NodeRow → List CalleeRow
targets_of edge [] = []
targets_of edge (row ∷ rows) =
    let rest = targets_of edge rows in
    if row.id == edge.target_id || edge.target_id == (unresolved_name_prefix +++ row.name)
    then record {
      node = node_from_row row;
      edge_type = edge.edge_type;
      call_site_line = edge.call_site_line;
    }
      ∷ rest
    else rest

unfoldable pub callee_rows : Db → String → List EdgeRow → List CalleeRow
unfolding targets_of
callee_rows db id [] = []
callee_rows db id (edge ∷ edges) =
    let rest = callee_rows db id edges in
    if edge.source_id == id then targets_of edge db.nodes ++ rest else rest

-- `SELECT DISTINCT`: the first of equal rows.
unfoldable pub distinct_rows : List CalleeRow → List CalleeRow → List CalleeRow
distinct_rows seen [] = []
distinct_rows seen (row ∷ rows) =
    let skipped = distinct_rows seen rows in
    let kept = distinct_rows (row ∷ seen) rows in
    if any (same_callee_row row) seen then skipped else row ∷ kept

unfoldable pub nodes_of_rows : List CalleeRow → List Node
nodes_of_rows [] = []
nodes_of_rows (row ∷ rows) = row.node ∷ nodes_of_rows rows

unfoldable pub get_callees : Db → String → List Node
unfolding callee_rows distinct_rows nodes_of_rows
get_callees db id = nodes_of_rows (distinct_rows [] (callee_rows db id db.edges))

unfoldable pub graph_direction : String → String
graph_direction value = if value == "callers" || value == "callees" then value else "both"

-- The graph helper, a program of its own, and what it answers: qualified names, or an error.
abbrev pub GraphHelper : Type 0
GraphHelper = String → String → ℕ → Option (List String)

unfoldable pub nodes_of_fqns : Db → List String → List Node
unfolding get_node_by_fqn
nodes_of_fqns db fqns = filter_map (get_node_by_fqn db) fqns

abbrev pub sql_neighbors : Db → String → String → List Node
sql_neighbors db id direction =
    (if direction == "callers" || direction == "both" then get_callers db id else [])
    ++ (if direction == "callees" || direction == "both" then get_callees db id else [])

-- The helper's answer where it has one, and the edges of the database otherwise.
abbrev pub choose_neighbors : Db → String → String → Option (List String) → List Node
choose_neighbors db id direction none = sql_neighbors db id direction
choose_neighbors db id direction (some []) = sql_neighbors db id direction
choose_neighbors db id direction (some (fqn ∷ fqns)) = nodes_of_fqns db (fqn ∷ fqns)

unfoldable pub graph_or_sql_neighbors : GraphHelper → Db → String → ℕ → Node → List Node
unfolding graph_direction get_callers get_callees nodes_of_fqns
graph_or_sql_neighbors helper db direction limit node =
    choose_neighbors db node.id direction (helper node.fqn (graph_direction direction) limit)
