-- ===== src/Mcp/Tests.antt =====
-- A server with a counter for its state, and messages to it.
use cortex_engine.Common.{ℕ, ◌+◌, ◌≡◌, refl, none, some, [], ◌∷◌, any, is_some}
use cortex_engine.Common.Map.{insert, lookup}
use cortex_engine.Mcp.Json.{Json, natural, text, object, get, get_str, insert_all}
use cortex_engine.Mcp.Catalog.{list_tools}
use cortex_engine.Mcp.Protocol.{
  answered, Server, handle_message, dispatch_native_tool, get_impact_graph,
}
use cortex_engine.Mcp.Protocol.Coverage.{has_name, dispatch_native_tool_offered}
use cortex_engine.Mcp.Protocol.Replies.{handle_message-IsAnswer}

-- Each call adds one to the state.
abbrev counting : Server ℕ
counting = record {
  perform = λ call n. (n + 1, answered (natural n));
  print = λ v. "";
  print_pretty = λ v. "";
  parse = λ line. none;
  to_lowercase = λ s. s;
}

abbrev status_call : Json
status_call = object (
    ("id", natural 4)
    ∷ ("method", text "tools/call")
    ∷ ("params", object (("name", text "get_index_status") ∷ []))
    ∷ [])

abbrev notification : Json
notification = object (("method", text "tools/call") ∷ [])

program : Unit {0}
unfolding handle_message object get get_str insert_all insert lookup
program = tt

counted : (handle_message counting status_call 7).0 ≡ 8
unfolding program
counted = refl

wraps :
    dispatch_native_tool "get_impact_graph" (object (("max_nodes", natural 4294967297) ∷ []))
    ≡ some (get_impact_graph "" none none (some 1))
unfolding program dispatch_native_tool
wraps = refl

handle_message-IsAnswer_example : handle_message counting notification 7 ≡ (7, none)
unfolding program
handle_message-IsAnswer_example = handle_message-IsAnswer counting notification 7

dispatch_native_tool_offered_example :
    is_some (dispatch_native_tool "drop_tables" (object []))
    ≡ any (has_name "drop_tables") list_tools
dispatch_native_tool_offered_example = dispatch_native_tool_offered "drop_tables" (object [])
