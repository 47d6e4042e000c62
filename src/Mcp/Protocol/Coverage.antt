-- ===== src/Mcp/Protocol/Coverage.antt =====
-- protocol.rs against catalog.rs: the tools that are offered and the tools that are called.
use cortex_engine.Common.{
  ◌≡◌, refl, sym, ◌∙◌, String, Bool, true, Bool-cases, inl, inr, some, List, [], ◌∷◌, ◌==◌, all,
  any, contains, option_eq, is_some, arith, subst, eq_iff,
}
use cortex_engine.Common.Map.{Map, insert, lookup}
use cortex_engine.Mcp.Json.{Json, get, get_str, object, insert_all}
use cortex_engine.Mcp.Catalog.{list_tools}
use cortex_engine.Mcp.Catalog.Builders.{tool}
use cortex_engine.Mcp.Catalog.Context.{
  get_index_status_tool, search_context_tool, search_deep_context_tool, get_session_context_tool,
  sync_session_memory_tool,
}
use cortex_engine.Mcp.Catalog.Code.{
  get_file_outline_tool, read_file_with_hash_tool, resolve_symbol_tool, get_impact_graph_tool,
  find_execution_path_tool, get_file_git_history_tool, replace_exact_text_tool,
}
use cortex_engine.Mcp.Catalog.Notes.{
  write_memory_tool, consolidate_memory_tool, read_memory_tool, save_observation_tool,
  search_memory_tool, create_task_contract_tool, manage_todo_tool,
}
use package.cortex_engine.Mcp.Protocol.{Call, arms, dispatch_native_tool}

abbrev keys : Map Call → List String
keys [] = []
keys ((k, v) ∷ m) = k ∷ keys m

is_some-lookup : (k : String) (m : Map Call) → is_some (lookup k m) ≡ contains k (keys m)
unfolding lookup contains
is_some-lookup k [] = refl
is_some-lookup k ((j, v) ∷ m) = ground (arith, is_some-lookup k m)

-- A list whose texts are all in another.
contains-all :
    (k : String) (xs ys : List String)
    → all (λ x. contains x ys) xs ≡ true
    → contains k xs ≡ true
    → contains k ys ≡ true
unfolding contains
contains-all k [] ys h m = cc
contains-all k (x ∷ xs) ys h m = elim (Bool-cases (x == k)) [
  | inl same ↦ subst (λ r. contains r ys ≡ true) ((eq_iff x k).0 same) (ground (arith, h))
  | inr other ↦ contains-all k xs ys (ground (arith, h)) (ground (arith, m, other))
]

contains-same :
    (k : String) (xs ys : List String)
    → all (λ x. contains x ys) xs ≡ true
    → all (λ y. contains y xs) ys ≡ true
    → contains k xs ≡ contains k ys
contains-same k xs ys h h' = ground (arith, contains-all k xs ys h, contains-all k ys xs h')

tool_names : List String
tool_names =
    "get_index_status" ∷ "search_context" ∷ "search_deep_context" ∷ "get_file_outline"
    ∷ "read_file_with_hash" ∷ "resolve_symbol" ∷ "get_impact_graph" ∷ "find_execution_path"
    ∷ "get_file_git_history" ∷ "replace_exact_text" ∷ "get_session_context" ∷ "sync_session_memory"
    ∷ "write_memory" ∷ "consolidate_memory" ∷ "read_memory" ∷ "save_observation" ∷ "search_memory"
    ∷ "create_task_contract" ∷ "manage_todo" ∷ []

-- The tool of the catalogue has the name.
abbrev pub has_name : String → Json → Bool
has_name name t = option_eq (get_str "name" t) (some name)

offered : (name : String) → any (has_name name) list_tools ≡ contains name tool_names
unfolding list_tools get_str get tool object insert_all insert lookup contains tool_names
    get_index_status_tool search_context_tool search_deep_context_tool get_file_outline_tool
    read_file_with_hash_tool resolve_symbol_tool get_impact_graph_tool find_execution_path_tool
    get_file_git_history_tool replace_exact_text_tool get_session_context_tool
    sync_session_memory_tool write_memory_tool consolidate_memory_tool read_memory_tool
    save_observation_tool search_memory_tool create_task_contract_tool manage_todo_tool
offered name = refl

called : (name : String) (args : Json) → contains name (keys (arms args)) ≡ contains name tool_names
unfolding arms contains tool_names
called name args = contains-same name (keys (arms args)) tool_names refl refl

-- A tool is called under a name just where the catalogue offers one of that name, whatever the
-- arguments are.
pub dispatch_native_tool_offered :
    (name : String) (args : Json)
    → is_some (dispatch_native_tool name args) ≡ any (has_name name) list_tools
unfolding dispatch_native_tool
dispatch_native_tool_offered name args =
    is_some-lookup name (arms args) ∙ called name args ∙ sym (offered name)
