-- ===== src/Context/Deep.antt =====
-- mcp/src/query_context.rs: `call_search_deep_context`. What the searches return is an argument, and so
-- is the impact graph of a symbol.
use cortex_engine.Common.{
  ℕ, suc, String, len, compare, Bool, true, false, not, Option, none, some, List, [], ◌∷◌, ◌++◌,
  ◌==◌, if◌then◌else◌, ltb, eqb, contains, unwrap_or, length, take,
}
use Prim.Native.Nat.{Ordering}
use cortex_engine.Query.Nodes.{Node}
use cortex_engine.Context.Session.{snippet, MemoryRow}
use cortex_engine.Context.Search.{
  Found, dedupe_key, context_rank_score, call_search_context, default_search_token_budget,
}

abbrev pub default_deep_context_limit : ℕ
default_deep_context_limit = 5

-- A hit; one of the memories has no path.
pub record DeepHit : Type 0 where
  pub domain : String
  pub source_scope : String
  pub match_reason : String
  pub key : String
  pub category : String
  pub file_path : Option String
  pub shown : String
  pub total_score : ℕ

pub record DeepHits : Type 0 where
  pub unified : List DeepHit
  pub seen : List String

unfoldable pub push_deep_hit : String → DeepHit → DeepHits → DeepHits
push_deep_hit dedupe hit hits =
    if contains dedupe hits.seen
    then hits
    else record { unified = hits.unified ++ hit ∷ []; seen = hits.seen ++ dedupe ∷ [] }

abbrev code_hit : String → ℕ → Node → DeepHit
code_hit match_reason index node = record {
  domain = "code";
  source_scope = "workspace";
  match_reason = match_reason;
  key = node.fqn;
  category = node.node_type;
  file_path = some node.file_path;
  shown = node.name;
  total_score = context_rank_score "code" "workspace" match_reason index;
}

unfoldable pub push_deep_nodes : String → ℕ → List Node → DeepHits → DeepHits
unfolding push_deep_hit
push_deep_nodes match_reason index [] hits = hits
push_deep_nodes match_reason index (node ∷ nodes) hits =
    push_deep_nodes match_reason (suc index) nodes (
      push_deep_hit (dedupe_key "code" "workspace" node.fqn) (code_hit match_reason index node)
        hits)

unfoldable pub collect_code_deep_hits : List Node → List Node → DeepHits → DeepHits
unfolding push_deep_nodes
collect_code_deep_hits fts vector hits =
    push_deep_nodes "vector_match" 0 vector (push_deep_nodes "fts_match" 0 fts hits)

abbrev memory_hit : String → String → ℕ → MemoryRow → DeepHit
memory_hit source_scope match_reason index item = record {
  domain = "knowledge";
  source_scope = source_scope;
  match_reason = match_reason;
  key = item.key;
  category = item.category;
  file_path = none;
  shown = snippet item.content 180;
  total_score = context_rank_score "memory" source_scope match_reason index;
}

unfoldable pub push_deep_memories : String → String → ℕ → List MemoryRow → DeepHits → DeepHits
unfolding push_deep_hit
push_deep_memories source_scope match_reason index [] hits = hits
push_deep_memories source_scope match_reason index (item ∷ items) hits =
    push_deep_memories source_scope match_reason (suc index) items (
      push_deep_hit (dedupe_key "memory" source_scope item.key)
        (memory_hit source_scope match_reason index item) hits)

unfoldable pub collect_memory_deep_hits :
    String → List MemoryRow → List MemoryRow → DeepHits → DeepHits
unfolding push_deep_memories
collect_memory_deep_hits source_scope fts vector hits =
    push_deep_memories source_scope "vector_match" 0 vector
      (push_deep_memories source_scope "fts_match" 0 fts hits)

abbrev is_greater : String → String → Bool
is_greater s t = elim (compare s t) [
  | Ordering.lt ↦ false
  | Ordering.eq ↦ false
  | Ordering.gt ↦ true
]

-- The comparison of `sort_by` does not put `b` before `a`: by score, then scope, then key.
abbrev pub deep_comes_first : DeepHit → DeepHit → Bool
deep_comes_first a b =
    if eqb a.total_score b.total_score
    then (if a.source_scope == b.source_scope
        then not (is_greater a.key b.key)
        else not (is_greater a.source_scope b.source_scope))
    else ltb b.total_score a.total_score

-- The stable sort.
unfoldable pub insert_hit : DeepHit → List DeepHit → List DeepHit
insert_hit a [] = a ∷ []
insert_hit a (b ∷ hits) =
    let rest = insert_hit a hits in if deep_comes_first a b then a ∷ b ∷ hits else b ∷ rest

unfoldable pub sort_hits : List DeepHit → List DeepHit
unfolding insert_hit
sort_hits [] = []
sort_hits (a ∷ hits) = insert_hit a (sort_hits hits)

-- The key of the first hit in the code.
unfoldable pub first_code_key : List DeepHit → Option String
first_code_key [] = none
first_code_key (hit ∷ hits) =
    let rest = first_code_key hits in if hit.domain == "code" then some hit.key else rest

pub record DeepContext : Type 0 where
  pub unified_context : List DeepHit
  pub capsule : String
  pub capsule_chars : ℕ
  pub impact_summary : List Node
  pub truncated : Bool
  pub limit : ℕ
  pub returned_count : ℕ
  pub total_seen : ℕ

unfoldable pub collect_deep_hits : Found → DeepHits
unfolding collect_code_deep_hits collect_memory_deep_hits
collect_deep_hits f = collect_memory_deep_hits "global" f.global_fts f.global_vector (
    collect_memory_deep_hits "workspace" f.workspace_fts f.workspace_vector
      (collect_code_deep_hits f.code_fts f.code_vector (record { unified = []; seen = [] })))

-- `deep` is what the searches of at most five rows return, `found` what those of the capsule do, and
-- `impact` the nodes of `call_get_impact_graph` at depth 2, none where it fails.
unfoldable pub call_search_deep_context :
    (String → List Node) → Found → Found → Option ℕ → DeepContext
unfolding collect_deep_hits sort_hits first_code_key call_search_context
call_search_deep_context impact deep found limit =
    let max_hits = unwrap_or limit default_deep_context_limit in
    let sorted = sort_hits (collect_deep_hits deep).unified in
    let unified = take max_hits sorted in
    let capsule = (call_search_context found (some default_search_token_budget)).capsule in
    record {
      unified_context = unified;
      capsule = capsule;
      capsule_chars = len capsule;
      impact_summary = elim (first_code_key unified) [ none ↦ [] | some fqn ↦ impact fqn ];
      truncated = ltb max_hits (length sorted);
      limit = max_hits;
      returned_count = length unified;
      total_seen = length sorted;
    }
