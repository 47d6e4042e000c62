-- ===== src/Mcp/Protocol.antt =====
-- protocol.rs: JSON-RPC messages, and the call of a tool.
pub mod Replies
pub mod Coverage
use cortex_engine.Common.{
  ℕ, ◌%◌, ◌^◌, String, Bool, true, Option, none, some, List, [], ◌∷◌, ◌==◌, ◌+++◌, if◌then◌else◌,
  text_is_empty, map_option, unwrap_or,
}
use cortex_engine.Common.Map.{lookup}
use cortex_engine.Mcp.Json.{
  Json, null, boolean, natural, other_number, text, array, record_of, as_object, as_str, get,
  get_str, get_u64, object, array_of,
}
use cortex_engine.Mcp.Catalog.{list_tools}
use cortex_engine.Mcp.Guards.{arg_str, before_tool_call, Check, refused, allowed}

abbrev pub protocol_version : String
protocol_version = "2025-11-25"

abbrev pub server_name : String
server_name = "Cortex-Hooks"

abbrev pub server_version : String
server_version = "3.8.0"

abbrev pub jsonrpc_version : String
jsonrpc_version = "2.0"

abbrev pub method_not_found : Json
method_not_found = other_number "-32601"

-- A call of a tool with its arguments as they are read from the message.
pub data Call : Type 0 where
  get_index_status : Call
  read_file_with_hash : String → Call
  get_file_outline : String → Option String → Call
  resolve_symbol : String → Option String → Option String → Option ℕ → Call
  get_impact_graph : String → Option String → Option ℕ → Option ℕ → Call
  find_execution_path : String → String → Option ℕ → Option ℕ → Call
  get_session_context : Option ℕ → Call
  search_context : String → Option ℕ → Call
  search_deep_context : String → Option ℕ → Call
  get_file_git_history : String → Option ℕ → Call
  replace_exact_text : String → String → String → Call
  sync_session_memory : String → Call
  write_memory : Json → Call
  consolidate_memory : Json → Call
  read_memory : String → Call
  save_observation : String → Call
  search_memory : String → Option String → Call
  create_task_contract : Json → Call
  manage_todo : Json → Call

-- `required_str`: "" where the argument is missing or no text.
unfoldable pub required_str : Json → String → String
unfolding arg_str
required_str args key = arg_str args key

-- A number as a `usize` of 64 bits, and cut to a `u32`.
abbrev pub get_usize : String → Json → Option ℕ
get_usize key args = get_u64 key args

abbrev pub get_u32 : String → Json → Option ℕ
get_u32 key args = map_option (λ n. n % 2 ^ 32) (get_u64 key args)

-- The arms of the match.
unfoldable pub arms : Json → List (String × Call)
unfolding required_str get_str get_u64
arms args =
    ("get_index_status", get_index_status)
    ∷ ("read_file_with_hash", read_file_with_hash (required_str args "file_path"))
    ∷ ("get_file_outline", get_file_outline (required_str args "file_path") (get_str "detail" args))
    ∷ (
      "resolve_symbol",
      resolve_symbol (required_str args "name") (get_str "file_path" args) (get_str "language" args)
          (get_usize "limit" args),
    )
    ∷ (
      "get_impact_graph",
      get_impact_graph (required_str args "fqn") (get_str "direction" args)
          (get_u32 "max_depth" args) (get_u32 "max_nodes" args),
    )
    ∷ (
      "find_execution_path",
      find_execution_path (required_str args "from_fqn") (required_str args "to_fqn")
          (get_u32 "max_depth" args) (get_u32 "max_nodes" args),
    )
    ∷ ("get_session_context", get_session_context (get_u32 "token_budget" args))
    ∷ ("search_context", search_context (required_str args "query") (get_usize "token_budget" args))
    ∷ (
      "search_deep_context",
      search_deep_context (required_str args "query") (get_usize "limit" args),
    )
    ∷ (
      "get_file_git_history",
      get_file_git_history (required_str args "file_path") (get_usize "limit" args),
    )
    ∷ (
      "replace_exact_text",
      replace_exact_text (required_str args "file_path") (required_str args "old_content")
          (required_str args "new_content"),
    )
    ∷ ("sync_session_memory", sync_session_memory (required_str args "task_desc"))
    ∷ ("write_memory", write_memory args)
    ∷ ("consolidate_memory", consolidate_memory args)
    ∷ ("read_memory", read_memory (required_str args "key"))
    ∷ ("save_observation", save_observation (required_str args "content"))
    ∷ ("search_memory", search_memory (required_str args "query") (get_str "category" args))
    ∷ ("create_task_contract", create_task_contract args)
    ∷ ("manage_todo", manage_todo args)
    ∷ []

unfoldable pub dispatch_native_tool : String → Json → Option Call
unfolding arms
dispatch_native_tool name args = lookup name (arms args)

unfoldable pub response_ok : Json → Json → Json
unfolding object
response_ok id result =
    object (("jsonrpc", text jsonrpc_version) ∷ ("id", id) ∷ ("result", result) ∷ [])

unfoldable pub response_error : Json → Json → String → Json
unfolding object
response_error id code message = object (
    ("jsonrpc", text jsonrpc_version)
    ∷ ("id", id)
    ∷ ("error", object (("code", code) ∷ ("message", text message) ∷ []))
    ∷ [])

abbrev content_of : String → Json
content_of s = array_of (object (("type", text "text") ∷ ("text", text s) ∷ []) ∷ [])

unfoldable pub error_text_response : Json → String → Json
unfolding response_ok
error_text_response id s =
    response_ok id (object (("isError", boolean true) ∷ ("content", content_of s) ∷ []))

unfoldable pub initialize_result : Json
unfolding object
initialize_result = object (
    ("protocolVersion", text protocol_version)
    ∷ ("capabilities", object (("tools", object []) ∷ []))
    ∷ ("serverInfo", object (("name", text server_name) ∷ ("version", text server_version) ∷ []))
    ∷ [])

abbrev pub with_warning : String → Option String → String
with_warning s none = s
with_warning s (some warning) = if text_is_empty s then s +++ warning else s +++ ("\n" +++ warning)

-- What a tool answers.
pub data Outcome : Type 0 where
  answered : Json → Outcome
  failed : String → Outcome

-- The server: its state `S` is all that the tools read and write. The printers of JSON and the parser
-- are the library's.
pub record Server {ℓ} (S : Type ℓ) : Type ℓ where
  pub perform : Call → S → S × Outcome
  pub print : Json → String
  pub print_pretty : Json → String
  pub parse : String → Option Json
  pub to_lowercase : String → String

module _ {ℓ} {S : Type ℓ} (server : Server S) where
  abbrev pub text_of : Json → String
  text_of null = server.print_pretty null
  text_of (boolean b) = server.print_pretty (boolean b)
  text_of (natural n) = server.print_pretty (natural n)
  text_of (other_number n) = server.print_pretty (other_number n)
  text_of (text s) = s
  text_of (array vs) = server.print_pretty (array vs)
  text_of (record_of fs) = server.print_pretty (record_of fs)

  unfoldable pub text_response : Json → Json → Option String → Json
  unfolding response_ok
  text_response id value hook_warning =
      response_ok id
        (object (("content", content_of (with_warning (text_of value) hook_warning)) ∷ []))

  -- The response to what the tool has answered.
  abbrev pub respond : Json → Option String → S × Outcome → S × Option Json
  respond id warning (s, answered value) = (s, some (text_response id value warning))
  respond id warning (s, failed message) =
      (s, some (error_text_response id ("Error: " +++ message)))

  abbrev pub call_tool : Json → String → Json → S → Check → S × Option Json
  call_tool id name args s (refused message) =
      (s, some (error_text_response id ("Error: " +++ message)))
  call_tool id name args s (allowed warning) = elim (dispatch_native_tool name args) [
    | none ↦ (s, some (response_error id method_not_found ("Unknown tool: " +++ name)))
    | some call ↦ respond id warning (server.perform call s)
  ]

  -- With no id, the tool is not called.
  unfoldable pub dispatch_tools_call : Option Json → Json → S → S × Option Json
  unfolding text_response error_text_response response_error dispatch_native_tool get_str get
      before_tool_call
  dispatch_tools_call none params s = (s, none)
  dispatch_tools_call (some id) params s = elim (get_str "name" params) [
    | none ↦ (s, some (error_text_response id "Error: missing tool name"))
    | some name ↦
        let args = unwrap_or (get "arguments" params) (object []) in
        call_tool id name args s (before_tool_call server.print server.to_lowercase name args)
  ]

  unfoldable pub answer_method : String → Option Json → Json → S → S × Option Json
  unfolding dispatch_tools_call initialize_result
  answer_method method id params s =
      if method == "initialize"
      then (s, map_option (λ i. response_ok i initialize_result) id)
      else if method == "tools/list"
      then (s, map_option (λ i. response_ok i (object (("tools", array_of list_tools) ∷ []))) id)
      else if method == "tools/call"
      then dispatch_tools_call id params s
      else (s, map_option (λ i. response_ok i (object [])) id)

  -- A message that is no object or has no method is not answered.
  unfoldable pub handle_message : Json → S → S × Option Json
  unfolding answer_method get_str get
  handle_message message s = elim (get_str "method" message) [
    | none ↦ (s, none)
    | some method ↦
        answer_method method (get "id" message) (unwrap_or (get "params" message) (object [])) s
  ]

  unfoldable pub handle_line : String → S → S × Option Json
  unfolding handle_message
  handle_line line s = elim (server.parse line) [
    | none ↦ (s, none)
    | some message ↦ handle_message message s
  ]

  abbrev written : Option Json → List Json → List Json
  written none responses = responses
  written (some response) responses = response ∷ responses

  -- The responses to the lines, in their order; errors of input and output are not modelled.
  unfoldable pub run_stdio : List String → S → S × List Json
  unfolding handle_line
  run_stdio [] s = (s, [])
  run_stdio (line ∷ lines) s =
      let one = handle_line line s in
      let rest = run_stdio lines one.0 in (rest.0, written one.1 rest.1)
