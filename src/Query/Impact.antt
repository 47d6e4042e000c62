-- ===== src/Query/Impact.antt =====
-- mcp/src/query_code.rs: `call_get_impact_graph`, a breadth-first search from one symbol. The sets and
-- the map of the source are lists; the order of the answer is that of discovery.
pub mod Laws
use cortex_engine.Common.{
  ℕ, zero, suc, ◌+◌, ◌%◌, ◌^◌, String, Bool, true, false, ◌||◌, Option, none, some, List, [], ◌∷◌,
  ◌++◌, ◌==◌, ◌+++◌, if◌then◌else◌, any, leb, length, map, contains, unwrap_or,
}
use cortex_engine.Storage.Tables.{Db}
use cortex_engine.Query.Nodes.{Node, GraphHelper, get_node_by_fqn, graph_or_sql_neighbors}

abbrev pub default_impact_direction : String
default_impact_direction = "both"

abbrev pub default_impact_max_depth : ℕ
default_impact_max_depth = 2

abbrev pub default_impact_max_nodes : ℕ
default_impact_max_nodes = 50

pub record Search : Type 0 where
  pub visited : List String
  pub queue : List (Node × ℕ)
  pub impact_nodes : List Node
  pub total_seen : ℕ
  pub truncated : Bool

-- `impact_nodes.contains_key(id)`.
abbrev pub has_node : String → List Node → Bool
has_node id nodes = any (λ (n : Node). n.id == id) nodes

-- The body of the loop over the neighbours; `total_seen` is a u32.
unfoldable pub see_neighbor : ℕ → ℕ → Node → Search → Search
see_neighbor max_nodes depth neighbor s =
    if has_node neighbor.id s.impact_nodes
    then s
    else if leb max_nodes (length s.impact_nodes)
    then record s { total_seen = (s.total_seen + 1) % 2 ^ 32; truncated = true }
    else record s {
      total_seen = (s.total_seen + 1) % 2 ^ 32;
      queue = s.queue ++ (neighbor, depth + 1) ∷ [];
      impact_nodes = s.impact_nodes ++ neighbor ∷ [];
    }

unfoldable pub see_neighbors : ℕ → ℕ → List Node → Search → Search
unfolding see_neighbor
see_neighbors max_nodes depth [] s = s
see_neighbors max_nodes depth (neighbor ∷ neighbors) s =
    see_neighbors max_nodes depth neighbors (see_neighbor max_nodes depth neighbor s)

module _ (neighbors_of : Node → List Node) (max_depth max_nodes : ℕ) where
  -- One turn of the loop, for the node that was taken from the queue.
  unfoldable pub visit : Node → ℕ → Search → Search
  unfolding see_neighbors
  visit current depth s =
      if leb max_depth depth || contains current.id s.visited
      then s
      else see_neighbors max_nodes depth (neighbors_of current)
          (record s { visited = current.id ∷ s.visited })

  -- `while let Some(..) = queue.pop_front()`, on fuel.
  unfoldable pub search_loop : ℕ → Search → Option Search
  unfolding visit
  search_loop zero s = none
  search_loop (suc fuel) s = elim s.queue [
    | [] ↦ some s
    | (current, depth) ∷ queue ↦ search_loop fuel (visit current depth (record s { queue = queue }))
  ]

abbrev pub start_search : Node → Search
start_search root = record {
  visited = [];
  queue = (root, 0) ∷ [];
  impact_nodes = root ∷ [];
  total_seen = 1;
  truncated = false;
}

pub record ImpactGraph : Type 0 where
  pub fqn : String
  pub impact_nodes : List String
  pub truncated : Bool
  pub limit : ℕ
  pub returned_count : ℕ
  pub total_seen : ℕ

pub data Impact : Type 0 where
  symbol_not_found : String → Impact
  impact_graph : ImpactGraph → Impact
  out_of_fuel : Impact

abbrev pub report : String → ℕ → Option Search → Impact
report fqn max_nodes none = Impact.out_of_fuel
report fqn max_nodes (some s) = Impact.impact_graph (record {
  fqn = fqn;
  impact_nodes = map (λ (n : Node). n.fqn) s.impact_nodes;
  truncated = s.truncated;
  limit = max_nodes;
  returned_count = length (map (λ (n : Node). n.fqn) s.impact_nodes);
  total_seen = s.total_seen;
})

unfoldable pub call_get_impact_graph :
    GraphHelper → Db → String → Option String → Option ℕ → Option ℕ → Impact
unfolding search_loop
call_get_impact_graph helper db fqn direction max_depth max_nodes =
    let direction = unwrap_or direction default_impact_direction in
    let max_depth = unwrap_or max_depth default_impact_max_depth in
    let max_nodes = unwrap_or max_nodes default_impact_max_nodes in
    elim (get_node_by_fqn db fqn) [
      | none ↦ Impact.symbol_not_found fqn
      | some root ↦ report fqn max_nodes (
          search_loop (graph_or_sql_neighbors helper db direction max_nodes) max_depth max_nodes
            (max_nodes + 2) (start_search root))
    ]
