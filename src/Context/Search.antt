-- ===== src/Context/Search.antt =====
-- mcp/src/query_context.rs: `call_search_context`. What the full-text and the vector search return is
-- an argument. The scores are natural numbers: those of the domains and scopes below are positive.
pub mod Order
pub mod Ranked
use cortex_engine.Common.{
  ℕ, ◌+◌, ◌-◌, ◌/◌, suc, String, len, compare, Bool, true, false, ◌&&◌, ◌||◌, Option, List, [], ◌∷◌,
  ◌++◌, ◌==◌, ◌+++◌, if◌then◌else◌, ltb, eqb, contains, unwrap_or, take_chars, join, map,
}
use Prim.Native.Nat.{Ordering}
use cortex_engine.Common.Decimal.{print}
use cortex_engine.Query.Nodes.{Node}
use cortex_engine.Context.Session.{snippet, MemoryRow}

abbrev pub default_search_token_budget : ℕ
default_search_token_budget = 4000

pub record RankedContextLine : Type 0 where
  pub key : String
  pub line : String
  pub score : ℕ

-- `lines` and `seen`, as the collectors grow them.
pub record Hits : Type 0 where
  pub lines : List RankedContextLine
  pub seen : List String

unfoldable pub context_rank_score : String → String → String → ℕ → ℕ
context_rank_score domain source_scope match_reason index =
    let domain_bias = if domain == "code" then 3000 else if domain == "memory" then 2000 else 0 in
    let scope_bias =
      if source_scope == "workspace" then 1000 else if source_scope == "global" then 700 else 0 in
    let reason_bias =
      if match_reason == "fts_match"
      then 500
      else if match_reason == "vector_match"
      then 250
      else 0 in
    domain_bias + scope_bias + reason_bias - index

unfoldable pub dedupe_key : String → String → String → String
dedupe_key domain source_scope key = domain +++ ("::" +++ (source_scope +++ ("::" +++ key)))

unfoldable pub push_context_line : RankedContextLine → Hits → Hits
push_context_line hit hits =
    if contains hit.key hits.seen
    then hits
    else record { lines = hits.lines ++ hit ∷ []; seen = hits.seen ++ hit.key ∷ [] }

-- `label` is the one of the search in the line, and `match_reason` that of the score.
abbrev pub code_line : String → String → ℕ → Node → RankedContextLine
code_line label match_reason index node = record {
  key = dedupe_key "code" "workspace" node.fqn;
  line =
      "[code:"
      +++ (label
          +++ ("] "
              +++ (node.fqn +++ (" " +++ (node.file_path +++ (":" +++ print node.start_line))))));
  score = context_rank_score "code" "workspace" match_reason index;
}

unfoldable pub push_nodes : String → String → ℕ → List Node → Hits → Hits
unfolding push_context_line
push_nodes label match_reason index [] hits = hits
push_nodes label match_reason index (node ∷ nodes) hits =
    push_nodes label match_reason (suc index) nodes
      (push_context_line (code_line label match_reason index node) hits)

unfoldable pub collect_code_context_hits : List Node → List Node → Hits → Hits
unfolding push_nodes
collect_code_context_hits fts vector hits =
    push_nodes "vector" "vector_match" 0 vector (push_nodes "fts" "fts_match" 0 fts hits)

abbrev pub memory_line : String → String → String → ℕ → MemoryRow → RankedContextLine
memory_line source_scope label match_reason index item = record {
  key = dedupe_key "memory" source_scope item.key;
  line =
      "["
      +++ (source_scope
          +++ (":"
              +++ (item.category
                  +++ (":"
                      +++ (label
                          +++ ("] " +++ (item.key +++ (": " +++ snippet item.content 180))))))));
  score = context_rank_score "memory" source_scope match_reason index;
}

unfoldable pub push_memories : String → String → String → ℕ → List MemoryRow → Hits → Hits
unfolding push_context_line
push_memories source_scope label match_reason index [] hits = hits
push_memories source_scope label match_reason index (item ∷ items) hits =
    push_memories source_scope label match_reason (suc index) items
      (push_context_line (memory_line source_scope label match_reason index item) hits)

unfoldable pub collect_memory_context_hits : String → List MemoryRow → List MemoryRow → Hits → Hits
unfolding push_memories
collect_memory_context_hits source_scope fts vector hits =
    push_memories source_scope "vector" "vector_match" 0 vector
      (push_memories source_scope "fts" "fts_match" 0 fts hits)

-- Of two texts, the first is not the greater one.
abbrev not_after : String → String → Bool
not_after s t = elim (compare s t) [ Ordering.lt ↦ true | Ordering.eq ↦ true | Ordering.gt ↦ false ]

-- The comparison of `sort_by` does not put `b` before `a`.
abbrev pub comes_first : RankedContextLine → RankedContextLine → Bool
comes_first a b =
    ltb b.score a.score
    || (eqb b.score a.score
        && (if a.key == b.key then not_after a.line b.line else not_after a.key b.key))

-- The stable sort.
unfoldable pub insert_line : RankedContextLine → List RankedContextLine → List RankedContextLine
insert_line a [] = a ∷ []
insert_line a (b ∷ lines) =
    let rest = insert_line a lines in if comes_first a b then a ∷ b ∷ lines else b ∷ rest

unfoldable pub sort_lines : List RankedContextLine → List RankedContextLine
unfolding insert_line
sort_lines [] = []
sort_lines (a ∷ lines) = insert_line a (sort_lines lines)

-- What the searches return: nodes of the code, and memories of the workspace and of all workspaces.
pub record Found : Type 0 where
  pub code_fts : List Node
  pub code_vector : List Node
  pub workspace_fts : List MemoryRow
  pub workspace_vector : List MemoryRow
  pub global_fts : List MemoryRow
  pub global_vector : List MemoryRow

unfoldable pub collect_hits : Found → Hits
unfolding collect_code_context_hits collect_memory_context_hits
collect_hits f = collect_memory_context_hits "global" f.global_fts f.global_vector (
    collect_memory_context_hits "workspace" f.workspace_fts f.workspace_vector
      (collect_code_context_hits f.code_fts f.code_vector (record { lines = []; seen = [] })))

-- The text, cut to the budget in characters where it has more bytes than that.
unfoldable pub capsule_of : ℕ → List RankedContextLine → String
capsule_of token_budget lines =
    let capsule = join "\n" (map (λ (l : RankedContextLine). l.line) lines) in
    if ltb token_budget (len capsule) then take_chars token_budget capsule else capsule

pub record Capsule : Type 0 where
  pub capsule : String
  pub chars_used : ℕ
  pub tokens_estimated : ℕ
  pub token_budget : ℕ

unfoldable pub call_search_context : Found → Option ℕ → Capsule
unfolding collect_hits sort_lines capsule_of
call_search_context found token_budget =
    let budget = unwrap_or token_budget default_search_token_budget in
    let capsule = capsule_of budget (sort_lines (collect_hits found).lines) in
    record {
      capsule = capsule;
      chars_used = len capsule;
      tokens_estimated = len capsule / 4;
      token_budget = budget;
    }
