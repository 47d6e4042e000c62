-- ===== src/Query/Path/Answer.antt =====
-- mcp/src/query_code.rs: the answer to a question for an execution path.
use cortex_engine.Common.{ℕ, ◌≡◌, ◌≢◌, refl, String, Option, some, [], ◌∷◌, unwrap_or, arith}
use cortex_engine.Storage.Tables.{Db}
use cortex_engine.Query.Nodes.{
  Node, GraphHelper, get_node_by_fqn, get_node_by_id, graph_or_sql_neighbors,
}
use cortex_engine.Query.Known.{
  IsKnown, get_node_by_id-known, get_node_by_fqn-IsKnown, neighbors-IsKnown, All-IsAmong,
}
use cortex_engine.Query.Path.{
  Found, path_loop, start_path, answer, call_find_execution_path, default_logic_max_depth,
  default_logic_max_nodes,
}
use cortex_engine.Query.Path.Laws.{Route, IsOutcome, search-Ends, path_loop-IsOutcome}

-- For two symbols that exist, the search ends, and never panics: what it finds is a path from the
-- first symbol to the second, of at most `max_depth` calls, each to a callee of the one before; or
-- it reports that it found none.
pub call_find_execution_path_sound :
    (helper : GraphHelper) (db : Db) (from_fqn to_fqn : String) (max_depth max_nodes : Option ℕ)
    (start goal : Node)
    → get_node_by_fqn db from_fqn ≡ some start
    → get_node_by_fqn db to_fqn ≡ some goal
    → let limit = unwrap_or max_nodes default_logic_max_nodes in
      let depth = unwrap_or max_depth default_logic_max_depth in
      let callees_of = graph_or_sql_neighbors helper db "callees" limit in
      (fuel : ℕ) × (r : Found) × (call_find_execution_path fuel helper db from_fqn to_fqn max_depth
          max_nodes
        ≡ answer db limit r)
      × (r ≢ Found.out_of_fuel)
      × IsOutcome (get_node_by_id db) callees_of goal.id depth limit start r
unfolding call_find_execution_path
call_find_execution_path_sound helper db from_fqn to_fqn max_depth max_nodes start goal h k =
    let limit = unwrap_or max_nodes default_logic_max_nodes in
    let depth = unwrap_or max_depth default_logic_max_depth in
    let callees_of = graph_or_sql_neighbors helper db "callees" limit in
    let (fuel, ends) =
      search-Ends (get_node_by_id db) callees_of goal.id depth limit limit ((start.id ∷ []) ∷ [])
        (start_path start) (omega arith) in
    (
      fuel,
      path_loop (get_node_by_id db) callees_of goal.id depth limit fuel (start_path start),
      rw (h, k, call_find_execution_path) refl,
      ends,
      path_loop-IsOutcome (get_node_by_id db) callees_of goal.id depth limit start
          (get_node_by_id-known db start (get_node_by_fqn-IsKnown db from_fqn start h))
          (λ node callee a. get_node_by_id-known db callee (
            All-IsAmong (IsKnown db) (callees_of node) callee
              (neighbors-IsKnown db helper "callees" limit node) a))
          fuel ((start.id ∷ []) ∷ []) (start_path start) ((Route.begin, omega arith), tt),
    )
