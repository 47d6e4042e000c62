-- ===== src/Mcp/Protocol/Replies.antt =====
-- protocol.rs: which messages are answered, and with what.
use cortex_engine.Common.{
  ◌≡◌, refl, String, Bool, true, false, Option, none, some, [], ◌∷◌, ◌==◌, if◌then◌else◌, is_some,
  not, map_option, unwrap_or, ◌+++◌,
}
use cortex_engine.Common.Map.{insert, lookup}
use cortex_engine.Mcp.Json.{Json, text, array_of, get, get_str, object, insert_all}
use cortex_engine.Mcp.Guards.{before_tool_call, Check, refused, allowed}
use cortex_engine.Mcp.Catalog.{list_tools}
use package.cortex_engine.Mcp.Protocol.{
  jsonrpc_version, method_not_found, initialize_result, Call, dispatch_native_tool, response_ok,
  response_error, error_text_response, Outcome, answered, failed, Server, text_response, respond,
  call_tool, dispatch_tools_call, answer_method, handle_message,
}

-- A JSON-RPC response to the request with this id: it has a result or an error, and not both.
abbrev pub IsResponse : Json → Json → Type 0
IsResponse id response =
    (get "jsonrpc" response ≡ some (text jsonrpc_version))
    × (get "id" response ≡ some id)
    × (is_some (get "result" response) ≡ not (is_some (get "error" response)))

response_ok-IsResponse : (id result : Json) → IsResponse id (response_ok id result)
unfolding response_ok get object insert_all insert lookup
response_ok-IsResponse id result = (refl, refl, refl)

response_error-IsResponse :
    (id code : Json) (message : String) → IsResponse id (response_error id code message)
unfolding response_error get object insert_all insert lookup
response_error-IsResponse id code message = (refl, refl, refl)

error_text_response-IsResponse : (id : Json) (s : String) → IsResponse id (error_text_response id s)
unfolding error_text_response
error_text_response-IsResponse id s = response_ok-IsResponse id _

module _ {S : Type 0} (server : Server S) where
  -- What a message with the optional id comes to: a response exactly where there is an id, and
  -- otherwise nothing at all.
  abbrev pub IsAnswer : Option Json → S → S × Option Json → Type 0
  IsAnswer none s result = result ≡ (s, none)
  IsAnswer (some id) s result = (r : Json) × (result.1 ≡ some r) × IsResponse id r

  respond-IsAnswer :
      (id : Json) (warning : Option String) (s : S) (result : S × Outcome)
      → IsAnswer (some id) s (respond server id warning result)
  unfolding text_response
  respond-IsAnswer id warning s (s', answered value) = (_, refl, response_ok-IsResponse id _)
  respond-IsAnswer id warning s (s', failed message) =
      (_, refl, error_text_response-IsResponse id _)

  call_tool-IsAnswer :
      (id : Json) (name : String) (args : Json) (s : S) (check : Check)
      → IsAnswer (some id) s (call_tool server id name args s check)
  call_tool-IsAnswer id name args s (refused message) =
      (_, refl, error_text_response-IsResponse id _)
  call_tool-IsAnswer id name args s (allowed warning) = pick (dispatch_native_tool name args)
    where
      pick :
          (call : Option Call)
          → IsAnswer (some id) s (elim call [
            | none ↦ (s, some (response_error id method_not_found ("Unknown tool: " +++ name)))
            | some c ↦ respond server id warning (server.perform c s)
          ])
      pick none = (_, refl, response_error-IsResponse id _ _)
      pick (some c) = respond-IsAnswer id warning s (server.perform c s)

  dispatch_tools_call-IsAnswer :
      (id : Option Json) (params : Json) (s : S)
      → IsAnswer id s (dispatch_tools_call server id params s)
  unfolding dispatch_tools_call
  dispatch_tools_call-IsAnswer none params s = refl
  dispatch_tools_call-IsAnswer (some id) params s = pick (get_str "name" params)
    where
      args : Json
      args = unwrap_or (get "arguments" params) (object [])

      pick :
          (name : Option String)
          → IsAnswer (some id) s (elim name [
            | none ↦ (s, some (error_text_response id "Error: missing tool name"))
            | some n ↦
                call_tool server id n args s
                  (before_tool_call server.print server.to_lowercase n args)
          ])
      pick none = (
        error_text_response id "Error: missing tool name",
        refl,
        error_text_response-IsResponse id "Error: missing tool name",
      )
      pick (some n) =
          call_tool-IsAnswer id n args s (before_tool_call server.print server.to_lowercase n args)

  result-IsAnswer :
      (id : Option Json) (result : Json) (s : S)
      → IsAnswer id s (s, map_option (λ i. response_ok i result) id)
  result-IsAnswer none result s = refl
  result-IsAnswer (some id) result s = (_, refl, response_ok-IsResponse id result)

  answer_method-IsAnswer :
      (method : String) (id : Option Json) (params : Json) (s : S)
      → IsAnswer id s (answer_method server method id params s)
  unfolding answer_method
  answer_method-IsAnswer method id params s =
      pick (method == "initialize") (method == "tools/list") (method == "tools/call")
    where
      pick :
          (a b c : Bool)
          → IsAnswer id s (
              if a
              then (s, map_option (λ i. response_ok i initialize_result) id)
              else if b
              then (
                s,
                map_option (λ i. response_ok i (object (("tools", array_of list_tools) ∷ []))) id,
              )
              else if c
              then dispatch_tools_call server id params s
              else (s, map_option (λ i. response_ok i (object [])) id))
      pick true b c = result-IsAnswer id _ s
      pick false true c = result-IsAnswer id _ s
      pick false false true = dispatch_tools_call-IsAnswer id params s
      pick false false false = result-IsAnswer id _ s

-- The id under which a message is to be answered: a message with no method is not a request.
abbrev pub request_id : Json → Option Json
request_id message = if is_some (get_str "method" message) then get "id" message else none

-- A message with a method and an id gets one response: it has the version of JSON-RPC, the same id,
-- and either a result or an error. Any other message gets none and leaves the state as it was: without
-- an id, no tool is called.
pub handle_message-IsAnswer :
    {S : Type 0} (server : Server S) (message : Json) (s : S)
    → IsAnswer server (request_id message) s (handle_message server message s)
unfolding handle_message
handle_message-IsAnswer server message s = pick (get_str "method" message)
  where
    pick :
        (method : Option String)
        → IsAnswer server (if is_some method then get "id" message else none) s (elim method [
          | none ↦ (s, none)
          | some m ↦
              answer_method server m
                (get "id" message)
                (unwrap_or (get "params" message) (object []))
                s
        ])
    pick none = refl
    pick (some m) = answer_method-IsAnswer server m (get "id" message) _ s
