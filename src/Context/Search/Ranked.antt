-- ===== src/Context/Search/Ranked.antt =====
-- mcp/src/query_context.rs: which lines a search has, and in which order.
use cortex_engine.Common.{
  ℕ, ◌≡◌, refl, sym, ap, subst, ◌∙◌, String, Bool, true, false, List, [], ◌∷◌, ◌++◌, if◌then◌else◌,
  ◌+++◌, contains, contains-append, is_distinct, is_distinct-append, map, append_nil, append_assoc,
  suc, arith, eq_iff,
}
use cortex_engine.Query.Nodes.{Node}
use cortex_engine.Context.Session.{MemoryRow}
use package.cortex_engine.Context.Search.Order.{
  keys, is_ranked, is_ranked-sort_lines, contains-sort_lines, is_distinct-sort_lines,
}
use package.cortex_engine.Context.Search.{
  RankedContextLine, Hits, push_context_line, dedupe_key, code_line, memory_line, push_nodes,
  push_memories, collect_code_context_hits, collect_memory_context_hits, sort_lines, Found,
  collect_hits,
}

-- The texts seen are the keys of the lines, each once, and those of the hits pushed so far.
record IsKept (pushed : List String) (hits : Hits) : Type 0 where
  in_step : hits.seen ≡ keys hits.lines
  distinct : is_distinct hits.seen ≡ true
  complete : (k : String) → contains k hits.seen ≡ contains k pushed

keys-append :
    (lines : List RankedContextLine) (hit : RankedContextLine)
    → keys (lines ++ hit ∷ []) ≡ keys lines ++ hit.key ∷ []
unfolding keys
keys-append [] hit = refl
keys-append (l ∷ lines) hit = ap (λ ks. l.key ∷ ks) (keys-append lines hit)

push_context_line-IsKept :
    (hit : RankedContextLine) (pushed : List String) (hits : Hits)
    → IsKept pushed hits
    → IsKept (pushed ++ hit.key ∷ []) (push_context_line hit hits)
unfolding push_context_line contains
push_context_line-IsKept hit pushed hits kept = pick (contains hit.key hits.seen) refl
  where
    open kept use {in_step, distinct, complete}

    pick :
        (b : Bool)
        → contains hit.key hits.seen ≡ b
        → IsKept (pushed ++ hit.key ∷ []) (
            if b
            then hits
            else record { lines = hits.lines ++ hit ∷ []; seen = hits.seen ++ hit.key ∷ [] })
    pick true e = record {
      in_step = in_step;
      distinct = distinct;
      complete = λ k.
          ground (arith, e, complete k, contains-append k pushed (hit.key ∷ []), eq_iff hit.key k);
    }
    pick false e = record {
      in_step = ap (λ ks. ks ++ hit.key ∷ []) in_step ∙ sym (keys-append hits.lines hit);
      distinct = is_distinct-append hits.seen hit.key distinct e;
      complete = λ k. ground (
        arith,
        complete k,
        contains-append k pushed (hit.key ∷ []),
        contains-append k hits.seen (hit.key ∷ []),
      );
    }

-- The keys that nodes and memories should have: the domain and the scope, then the full name of the
-- node, or the key of the memory.
abbrev pub code_keys : List Node → List String
code_keys nodes = map (λ (n : Node). "code" +++ ("::" +++ ("workspace" +++ ("::" +++ n.fqn)))) nodes

abbrev pub memory_keys : String → List MemoryRow → List String
memory_keys source_scope items =
    map (λ (m : MemoryRow). "memory" +++ ("::" +++ (source_scope +++ ("::" +++ m.key)))) items

push_nodes-IsKept :
    (label match_reason : String) (index : ℕ) (nodes : List Node) (pushed : List String)
    (hits : Hits)
    → IsKept pushed hits
    → IsKept (pushed ++ code_keys nodes) (push_nodes label match_reason index nodes hits)
unfolding push_nodes dedupe_key
push_nodes-IsKept label match_reason index [] pushed hits kept =
    subst (λ ks. IsKept ks hits) (sym (append_nil pushed)) kept
push_nodes-IsKept label match_reason index (node ∷ nodes) pushed hits kept =
    let hit = code_line label match_reason index node in
    subst
      (λ ks.
        IsKept ks (push_nodes label match_reason (suc index) nodes (push_context_line hit hits)))
      (append_assoc pushed (hit.key ∷ []) (code_keys nodes))
      (push_nodes-IsKept label match_reason (suc index) nodes (pushed ++ hit.key ∷ [])
        (push_context_line hit hits) (push_context_line-IsKept hit pushed hits kept))

push_memories-IsKept :
    (source_scope label match_reason : String) (index : ℕ) (items : List MemoryRow)
    (pushed : List String) (hits : Hits)
    → IsKept pushed hits
    → IsKept
        (pushed ++ memory_keys source_scope items)
        (push_memories source_scope label match_reason index items hits)
unfolding push_memories dedupe_key
push_memories-IsKept source_scope label match_reason index [] pushed hits kept =
    subst (λ ks. IsKept ks hits) (sym (append_nil pushed)) kept
push_memories-IsKept source_scope label match_reason index (item ∷ items) pushed hits kept =
    let hit = memory_line source_scope label match_reason index item in
    subst
      (λ ks. IsKept ks (
        push_memories source_scope label match_reason (suc index) items
          (push_context_line hit hits)))
      (append_assoc pushed (hit.key ∷ []) (memory_keys source_scope items))
      (push_memories-IsKept source_scope label match_reason (suc index) items
        (pushed ++ hit.key ∷ []) (push_context_line hit hits)
        (push_context_line-IsKept hit pushed hits kept))

-- The keys of everything that the searches found.
abbrev pub found_keys : Found → List String
found_keys f =
    ((((code_keys f.code_fts ++ code_keys f.code_vector) ++ memory_keys "workspace" f.workspace_fts)
        ++ memory_keys "workspace" f.workspace_vector)
      ++ memory_keys "global" f.global_fts)
    ++ memory_keys "global" f.global_vector

collect_hits-IsKept : (f : Found) → IsKept (found_keys f) (collect_hits f)
unfolding collect_hits collect_code_context_hits collect_memory_context_hits is_distinct keys
collect_hits-IsKept f =
    push_memories-IsKept "global" "vector" "vector_match" 0 f.global_vector _ _ (
      push_memories-IsKept "global" "fts" "fts_match" 0 f.global_fts _ _ (
        push_memories-IsKept "workspace" "vector" "vector_match" 0 f.workspace_vector _ _ (
          push_memories-IsKept "workspace" "fts" "fts_match" 0 f.workspace_fts _ _ (
            push_nodes-IsKept "vector" "vector_match" 0 f.code_vector _ _ (
              push_nodes-IsKept "fts" "fts_match" 0 f.code_fts [] _
                (record { in_step = refl; distinct = refl; complete = λ k. refl }))))))

-- The lines of a search stand in the order of their scores, the highest first. No two lines have one
-- key, and the keys are just those of what was found: of each node its full name, of each memory its
-- scope and its key. So a hit of both searches of a scope has one line, and a memory that is found in
-- the workspace and among the global ones has two.
pub collect_hits_ranked :
    (f : Found)
    → let lines = sort_lines (collect_hits f).lines in
      (is_ranked lines ≡ true)
      × (is_distinct (keys lines) ≡ true)
      × ((k : String) → contains k (keys lines) ≡ contains k (found_keys f))
collect_hits_ranked f =
    let hits = collect_hits f in
    let kept = collect_hits-IsKept f in
    (
      is_ranked-sort_lines hits.lines,
      is_distinct-sort_lines hits.lines ∙ ap is_distinct (sym kept.in_step) ∙ kept.distinct,
      λ k. contains-sort_lines k hits.lines ∙ ap (contains k) (sym kept.in_step) ∙ kept.complete k,
    )
