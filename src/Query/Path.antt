-- ===== src/Query/Path.antt =====
-- mcp/src/query_code.rs: `call_find_execution_path`, a breadth-first search over paths of callees.
pub mod Laws
pub mod Answer
use cortex_engine.Common.{
  ℕ, zero, suc, ◌+◌, ◌-◌, ◌%◌, ◌^◌, String, Bool, true, false, ◌||◌, Option, none, some, List, [],
  ◌∷◌, ◌++◌, ◌==◌, if◌then◌else◌, leb, length, map, contains, unwrap_or, last_or, filter_map,
  map_option,
}
use cortex_engine.Storage.Tables.{Db}
use cortex_engine.Query.Nodes.{
  Node, GraphHelper, get_node_by_fqn, get_node_by_id, graph_or_sql_neighbors,
}

abbrev pub default_logic_max_depth : ℕ
default_logic_max_depth = 6

abbrev pub default_logic_max_nodes : ℕ
default_logic_max_nodes = 200

pub record PathSearch : Type 0 where
  pub queue : List (List String)
  pub visited : List String
  pub total_seen : ℕ
  pub truncated : Bool

-- How the loop ends: with a path of identifiers, with none, with the panic of `unwrap` on a symbol
-- that the database does not have, or out of fuel.
pub data Found : Type 0 where
  found : List String → PathSearch → Found
  not_found : PathSearch → Found
  panicked : Found
  out_of_fuel : Found

-- The paths that a turn adds, one for each callee.
unfoldable pub extend_path : List String → List Node → List (List String)
extend_path path [] = []
extend_path path (callee ∷ callees) = (path ++ callee.id ∷ []) ∷ extend_path path callees

module _ (node_of : String → Option Node) (callees_of : Node → List Node) where
  module _ (end : String) (max_depth max_nodes : ℕ) where
    -- `while let Some(path) = queue.pop_front()`, on fuel; `total_seen` is a u32.
    unfoldable pub path_loop : ℕ → PathSearch → Found
    unfolding extend_path
    path_loop zero s = Found.out_of_fuel
    path_loop (suc fuel) s = elim s.queue [
      | [] ↦ Found.not_found s
      | path ∷ queue ↦
          let current = last_or "" path in
          let cut = path_loop fuel (record s { queue = queue; truncated = true }) in
          let skipped = path_loop fuel (record s { queue = queue }) in
          let full =
            path_loop fuel
              (record s { queue = queue; visited = current ∷ s.visited; truncated = true }) in
          let expand = λ (node : Node). path_loop fuel (record s {
            queue = queue ++ extend_path path (callees_of node);
            visited = current ∷ s.visited;
            total_seen = (s.total_seen + length (callees_of node)) % 2 ^ 32;
          }) in
          if current == end
          then Found.found path s
          else if leb max_depth (length path - 1)
          then cut
          else if contains current s.visited
          then skipped
          else if leb max_nodes (suc (length s.visited))
          then full
          else (elim (node_of current) [ none ↦ Found.panicked | some node ↦ expand node ])
    ]

abbrev pub start_path : Node → PathSearch
start_path start = record {
  queue = (start.id ∷ []) ∷ [];
  visited = [];
  total_seen = 1;
  truncated = false;
}

pub record ExecutionPath : Type 0 where
  pub path : List String
  pub truncated : Bool
  pub limit : ℕ
  pub returned_count : ℕ
  pub total_seen : ℕ

pub data PathAnswer : Type 0 where
  symbols_not_found : PathAnswer
  execution_path : ExecutionPath → PathAnswer
  panic : PathAnswer
  no_fuel : PathAnswer

-- The qualified names of the path's nodes.
abbrev pub path_fqns : Db → List String → List String
path_fqns db path = filter_map (λ id. map_option (λ (n : Node). n.fqn) (get_node_by_id db id)) path

abbrev pub answer : Db → ℕ → Found → PathAnswer
answer db limit (Found.found path s) = PathAnswer.execution_path (record {
  path = path_fqns db path;
  truncated = false;
  limit = limit;
  returned_count = length (path_fqns db path);
  total_seen = s.total_seen;
})
answer db limit (Found.not_found s) = PathAnswer.execution_path (record {
  path = [];
  truncated = s.truncated;
  limit = limit;
  returned_count = 0;
  total_seen = s.total_seen;
})
answer db limit Found.panicked = PathAnswer.panic
answer db limit Found.out_of_fuel = PathAnswer.no_fuel

unfoldable pub call_find_execution_path :
    ℕ → GraphHelper → Db → String → String → Option ℕ → Option ℕ → PathAnswer
unfolding path_loop
call_find_execution_path fuel helper db from_fqn to_fqn max_depth max_nodes =
    let limit = unwrap_or max_nodes default_logic_max_nodes in
    let depth = unwrap_or max_depth default_logic_max_depth in
    elim (get_node_by_fqn db from_fqn) [
      | none ↦ PathAnswer.symbols_not_found
      | some start ↦ elim (get_node_by_fqn db to_fqn) [
        | none ↦ PathAnswer.symbols_not_found
        | some goal ↦ answer db limit (
            path_loop (get_node_by_id db) (graph_or_sql_neighbors helper db "callees" limit) goal.id
              depth limit fuel (start_path start))
      ]
    ]
