-- ===== src/Query/Tests.antt =====
-- A small graph, and the theorems applied to it.
use cortex_engine.Common.{
  ℕ, ◌≡◌, ◌≢◌, refl, String, none, some, [], ◌∷◌, All, is_distinct, map, length, true, false, ◌≤◌,
  ◌⊎◌, contains,
}
use cortex_engine.Storage.Records.{default_confidence}
use cortex_engine.Storage.Tables.{NodeRow, EdgeRow, Db, node_with_id}
use cortex_engine.Query.Nodes.{
  Node, GraphHelper, node_from_row, get_node_by_fqn, get_node_by_id, graph_or_sql_neighbors,
  get_callees, row_with_fqn, callee_rows, targets_of, distinct_rows, nodes_of_rows,
}
use cortex_engine.Query.Impact.{Search, call_get_impact_graph, report}
use cortex_engine.Query.Impact.Laws.{IsFound, IsInReach, call_get_impact_graph_sound}
use cortex_engine.Query.Path.{Found, PathAnswer, answer, call_find_execution_path}
use cortex_engine.Query.Path.Laws.{IsOutcome}
use cortex_engine.Query.Path.Answer.{call_find_execution_path_sound}

abbrev row : String → String → NodeRow
row id name = record {
  node = record {
    id = id;
    node_type = "function";
    name = name;
    fqn = name;
    file_path = "a.py";
    start_line = 1;
    end_line = 2;
    signature = none;
    return_type = none;
    docstring = none;
    is_exported = none;
    is_async = none;
    is_test = none;
    raw_body = "";
    skeleton_standard = none;
    skeleton_minimal = none;
    language = "python";
  };
  module_name = "unknown";
  workspace_id = "default";
  category = "SOURCE";
}

abbrev edge : ℕ → String → String → EdgeRow
edge id source target = record {
  id = id;
  source_id = source;
  target_id = target;
  edge_type = "calls";
  target_name = none;
  target_kind_hint = none;
  target_fqn_hint = none;
  resolution_status = "resolved";
  resolution_confidence = default_confidence;
  call_site_line = none;
  confidence = default_confidence;
}

-- 1 → 2 → 3, and 3 → 1 by its name.
abbrev db : Db
db = record {
  nodes = row "1" "main" ∷ row "2" "run" ∷ row "3" "helper" ∷ [];
  edges = edge 1 "1" "2" ∷ edge 2 "2" "3" ∷ edge 3 "3" "__unresolved__::main" ∷ [];
  file_cache = [];
  next_edge = 4;
}

abbrev no_helper : GraphHelper
no_helper fqn direction limit = none

abbrev main : Node
main = node_from_row (row "1" "main")

abbrev helper : Node
helper = node_from_row (row "3" "helper")

main_found : get_node_by_fqn db "main" ≡ some main
unfolding get_node_by_fqn row_with_fqn
main_found = refl

helper_found : get_node_by_fqn db "helper" ≡ some helper
unfolding get_node_by_fqn row_with_fqn
helper_found = refl

callees_of_main : map (λ (n : Node). n.fqn) (get_callees db "1") ≡ "run" ∷ []
unfolding get_callees callee_rows targets_of distinct_rows nodes_of_rows
callees_of_main = refl

path_from_main :
    call_find_execution_path 10 no_helper db "main" "helper" none none
    ≡ PathAnswer.execution_path (record {
      path = "main" ∷ "run" ∷ "helper" ∷ [];
      truncated = false;
      limit = 200;
      returned_count = 3;
      total_seen = 3;
    })
unfolding call_find_execution_path get_node_by_fqn contains get_node_by_id node_with_id
    graph_or_sql_neighbors
path_from_main = refl

call_get_impact_graph_sound_example :
    (r : Search) × (call_get_impact_graph no_helper db "main" (some "callees") (some 1) none
      ≡ report "main" 50 (some r))
    × All
        (IsFound 50 (IsInReach (graph_or_sql_neighbors no_helper db "callees" 50) 1 50 main))
        r.impact_nodes
    × (is_distinct (map (λ (n : Node). n.id) r.impact_nodes) ≡ true)
    × (length r.impact_nodes ≤ 50 ⊎ length r.impact_nodes ≤ 1)
call_get_impact_graph_sound_example =
    call_get_impact_graph_sound no_helper db "main" (some "callees") (some 1) none main main_found

call_find_execution_path_sound_example :
    (fuel : ℕ) × (r : Found) × (call_find_execution_path fuel no_helper db "main" "helper" none none
      ≡ answer db 200 r)
    × (r ≢ Found.out_of_fuel)
    × IsOutcome
        (get_node_by_id db)
        (graph_or_sql_neighbors no_helper db "callees" 200)
        "3"
        6
        200
        main
        r
call_find_execution_path_sound_example =
    call_find_execution_path_sound no_helper db "main" "helper" none none main helper main_found
      helper_found
