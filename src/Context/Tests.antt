-- ===== src/Context/Tests.antt =====
-- A context with one decision and one contract, and a search that finds a node twice.
use cortex_engine.Common.{
  ◌+◌, ◌≤◌, ◌≡◌, refl, String, Option, none, some, List, [], ◌∷◌, join, take_chars, contains,
  is_distinct, true,
}
use cortex_engine.Query.Nodes.{Node}
use cortex_engine.Common.Decimal.{print}
use cortex_engine.Context.Search.{
  dedupe_key, context_rank_score, Found, collect_hits, sort_lines, call_search_context,
}
use cortex_engine.Context.Deep.{call_search_deep_context}
use cortex_engine.Context.Search.Order.{is_ranked, keys}
use cortex_engine.Context.Search.Ranked.{found_keys, collect_hits_ranked}
use cortex_engine.Context.Session.{snippet, MemoryRow, call_get_session_context, session_sections}
use cortex_engine.Context.Budget.{total_len, contracts_len, call_get_session_context_total}

abbrev decisions : List MemoryRow
decisions =
    record { key = "db"; category = "decision"; content = "use SQLite"; access_count = 2 } ∷ []

abbrev lanes : List (String × Option String)
lanes = ("main", some "contract_1.md") ∷ ("other", none) ∷ []

shown :
    (call_get_session_context (some 100) decisions [] decisions lanes).context
    ≡ "[decision] db: use SQLite\n[contract] lane=main: contract_1.md"
unfolding call_get_session_context join take_chars
shown = refl

call_get_session_context_total_example :
    ((call_get_session_context (some 10) decisions [] decisions lanes).total_chars
      ≡ total_len (session_sections (some 10) decisions [] decisions lanes).sections)
    × (contracts_len lanes
        ≤ (call_get_session_context (some 10) decisions [] decisions lanes).total_chars)
    × ((call_get_session_context (some 10) decisions [] decisions lanes).total_chars
        ≤ 10 + contracts_len lanes)
call_get_session_context_total_example =
    call_get_session_context_total (some 10) decisions [] decisions lanes

abbrev function_f : Node
function_f = record {
  id = "f";
  node_type = "function";
  name = "f";
  fqn = "a.f";
  file_path = "a.py";
  start_line = 3;
  language = "python";
}

abbrev found : Found
found = record {
  code_fts = function_f ∷ [];
  code_vector = function_f ∷ [];
  workspace_fts = decisions;
  workspace_vector = [];
  global_fts = decisions;
  global_vector = [];
}

searched :
    (call_search_context found none).capsule
    ≡ "[code:fts] a.f a.py:3\n[workspace:decision:fts] db: use SQLite\n[global:decision:fts] db: use SQLite"
unfolding call_search_context join take_chars contains dedupe_key context_rank_score print snippet
searched = refl

collect_hits_ranked_example :
    let lines = sort_lines (collect_hits found).lines in
    (is_ranked lines ≡ true)
    × (is_distinct (keys lines) ≡ true)
    × ((k : String) → contains k (keys lines) ≡ contains k (found_keys found))
collect_hits_ranked_example = collect_hits_ranked found

truncated_search :
    let deep = call_search_deep_context (λ fqn. function_f ∷ []) found found (some 2) in
    (deep.total_seen ≡ 3)
    × (deep.returned_count ≡ 2)
    × (deep.truncated ≡ true)
    × (deep.impact_summary ≡ function_f ∷ [])
unfolding call_search_deep_context contains dedupe_key context_rank_score
truncated_search = (refl, refl, refl, refl)
