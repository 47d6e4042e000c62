-- ===== src/Mcp/Guards.antt =====
-- hooks.rs: what is checked before a tool runs, and the rules that its arguments bring to mind.
use cortex_engine.Common.{
  String, ◌&&◌, ◌||◌, not, Option, none, some, List, [], ◌∷◌, ◌++◌, ◌==◌, ◌+++◌, if◌then◌else◌, len,
  ltb, contains, join, text_is_empty, find?, is_some, unwrap_or,
}
use cortex_engine.Common.Chars.{trim}
use cortex_engine.Mcp.Json.{Json, get_str}

unfoldable pub arg_str : Json → String → String
unfolding get_str
arg_str args key = unwrap_or (get_str key args) ""

abbrev pub keyword_rules : List (String × String)
keyword_rules =
    ("deslop", "rule::ai-slop-cleaner")
    ∷ ("refactor", "rule::ai-slop-cleaner")
    ∷ ("cleanup", "rule::ai-slop-cleaner")
    ∷ ("deep dive", "protocol::deep-dive")
    ∷ ("trace", "protocol::deep-dive")
    ∷ ("why", "protocol::deep-dive")
    ∷ ("계획", "protocol::progress-tracking")
    ∷ ("진행", "protocol::progress-tracking")
    ∷ ("추적", "protocol::progress-tracking")
    ∷ ("plan", "protocol::progress-tracking")
    ∷ ("track", "protocol::progress-tracking")
    ∷ []

-- The rules whose keyword is in the text, each once.
unfoldable pub matched_rules : String → List String → List (String × String) → List String
matched_rules content matched [] = matched
matched_rules content matched ((keyword, rule) ∷ rules) =
    if is_some (find? content keyword) && not (contains rule matched)
    then matched_rules content (matched ++ rule ∷ []) rules
    else matched_rules content matched rules

abbrev pub warning_of : List String → Option String
warning_of [] = none
warning_of (rule ∷ rules) =
    some ("Info: Keywords detected. You should check these rules: " +++ join ", " (rule ∷ rules))

-- `print` writes JSON on one line, and `to_lowercase` is the standard library's table.
module _ (print : Json → String) (to_lowercase : String → String) where
  unfoldable pub keyword_warning : Json → Option String
  unfolding matched_rules
  keyword_warning args = warning_of (matched_rules (to_lowercase (print args)) [] keyword_rules)

-- What a check of the arguments refuses, if anything.
unfoldable pub refusal : String → Json → Option String
unfolding arg_str
refusal tool_name args =
    if tool_name == "replace_exact_text"
    then (if text_is_empty (arg_str args "file_path")
          || text_is_empty (arg_str args "old_content")
          || text_is_empty (arg_str args "new_content")
        then some "Missing required parameters for replace_exact_text."
        else if ltb (len (trim (arg_str args "old_content"))) 5
        then some "old_content is too short. Risk of ambiguous replacement."
        else none)
    else if tool_name == "create_task_contract"
    then (if text_is_empty (arg_str args "lane_id") || text_is_empty (arg_str args "task_name")
        then some "Missing lane_id or task_name for create_task_contract."
        else none)
    else none

-- What `before_tool_call` answers: a refusal, or perhaps a warning.
pub data Check : Type 0 where
  refused : String → Check
  allowed : Option String → Check

abbrev pub check_of : Option String → Option String → Check
check_of (some message) warning = refused message
check_of none warning = allowed warning

unfoldable pub before_tool_call : (Json → String) → (String → String) → String → Json → Check
unfolding refusal keyword_warning
before_tool_call print to_lowercase tool_name args =
    check_of (refusal tool_name args) (keyword_warning print to_lowercase args)
