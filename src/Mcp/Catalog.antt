-- ===== src/Mcp/Catalog.antt =====
-- catalog.rs: the tools that the server offers, with the schemas of their arguments.
pub mod Builders
pub mod Context
pub mod Code
pub mod Notes
use cortex_engine.Common.{List, [], ◌∷◌}
use cortex_engine.Mcp.Json.{Json}
use cortex_engine.Mcp.Catalog.Context.{
  get_index_status_tool, search_context_tool, search_deep_context_tool, get_session_context_tool,
  sync_session_memory_tool,
}
use cortex_engine.Mcp.Catalog.Code.{
  get_file_outline_tool, read_file_with_hash_tool, resolve_symbol_tool, get_impact_graph_tool,
  find_execution_path_tool, get_file_git_history_tool, replace_exact_text_tool,
}
use cortex_engine.Mcp.Catalog.Notes.{
  write_memory_tool, consolidate_memory_tool, read_memory_tool, save_observation_tool,
  search_memory_tool, create_task_contract_tool, manage_todo_tool,
}

unfoldable pub list_tools : List Json
list_tools =
    get_index_status_tool ∷ search_context_tool ∷ search_deep_context_tool ∷ get_file_outline_tool
    ∷ read_file_with_hash_tool ∷ resolve_symbol_tool ∷ get_impact_graph_tool
    ∷ find_execution_path_tool ∷ get_file_git_history_tool ∷ replace_exact_text_tool
    ∷ get_session_context_tool ∷ sync_session_memory_tool ∷ write_memory_tool
    ∷ consolidate_memory_tool ∷ read_memory_tool ∷ save_observation_tool ∷ search_memory_tool
    ∷ create_task_contract_tool ∷ manage_todo_tool ∷ []
