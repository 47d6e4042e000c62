-- ===== src/Storage/Tests.antt =====
-- Concrete rows, and the theorems applied to them.
use cortex_engine.Common.{
  Bool, filter, ◌&&◌, ◌≡◌, refl, String, false, none, List, [], ◌∷◌, any, map, contains,
  if◌then◌else◌, ◌==◌, Pointwise,
}
use cortex_engine.Common.Chars.{strip_prefix, split_colons}
use cortex_engine.Common.Map.{lookup, insert}
use cortex_engine.Storage.Records.{NodeRecord, EdgeRecord, default_confidence}
use cortex_engine.Storage.Tables.{NodeRow, EdgeRow, Db, empty_db, node_with_id}
use cortex_engine.Storage.Write.{FileWriteBatch, write_file_batch}
use cortex_engine.Storage.Write.Laws.{node_with_id-write_file_batch}
use cortex_engine.Storage.Cleanup.{cleanup_file_records, file_record_exists, load_file_cache_hash}
use cortex_engine.Storage.Cleanup.Laws.{is_apart, cleanup_file_records_effect}
use cortex_engine.Storage.Resolver.Matching.{
  resolve_one, lookup_by_name, candidates_of, collect_targets,
}
use cortex_engine.Storage.Resolver.Soundness.{node_ids}
use cortex_engine.Storage.Resolver.Effect.{IsResolution, resolve_unresolved_edges_effect}
use cortex_engine.Storage.Resolver.{fetch_unresolved_edges, resolve_unresolved_edges}

abbrev node : String → String → String → NodeRecord
node id name file = record {
  id = id;
  node_type = "function";
  name = name;
  fqn = name;
  file_path = file;
  start_line = 1;
  end_line = 2;
  signature = none;
  return_type = none;
  docstring = none;
  is_exported = none;
  is_async = none;
  is_test = none;
  raw_body = "";
  skeleton_standard = none;
  skeleton_minimal = none;
  language = "python";
}

abbrev call : String → String → EdgeRecord
call source target = record {
  source_id = source;
  target_id = target;
  edge_type = "calls";
  target_name = none;
  target_kind_hint = none;
  target_fqn_hint = none;
  call_site_line = none;
  confidence = default_confidence;
}

abbrev batch : String → String → List NodeRecord → List EdgeRecord → FileWriteBatch
batch file hash nodes edges = record {
  file_path = file;
  file_hash = hash;
  indexed_at = 100;
  module_name = none;
  workspace_id = none;
  category = none;
  nodes = nodes;
  edges = edges;
}

abbrev first : FileWriteBatch
first = batch "a.py" "h1" (node "1" "main" "a.py" ∷ []) (call "1" "__unresolved__::helper" ∷ [])

abbrev second : FileWriteBatch
second = batch "b.py" "h2" (node "2" "helper" "b.py" ∷ []) []

abbrev written : Db
written = write_file_batch second (write_file_batch first empty_db)

-- The call is resolved once both files are written.
resolved_targets :
    map (λ (e : EdgeRow). e.target_id) (resolve_unresolved_edges written).edges ≡ "2" ∷ []
unfolding resolve_unresolved_edges write_file_batch resolve_one strip_prefix node_with_id lookup
    lookup_by_name candidates_of contains collect_targets split_colons insert
resolved_targets = refl

-- The file is indexed again without its function: the function's row stays.
node_with_id-write_file_batch_example :
    node_with_id "1" (write_file_batch (batch "a.py" "h3" [] []) written).nodes
    ≡ node_with_id "1" written.nodes
unfolding contains
node_with_id-write_file_batch_example =
    node_with_id-write_file_batch (batch "a.py" "h3" [] []) written "1" not_brought
  where
    not_brought :
        contains "1" (map (λ (n : NodeRecord). n.id) (batch "a.py" "h3" [] []).nodes) ≡ false
    not_brought = refl

cleanup_file_records_effect_example :
    (file_record_exists "a.py" (cleanup_file_records "a.py" written) ≡ false)
    × ((q : EdgeRow → Bool)
        → any q (cleanup_file_records "a.py" written).edges
          ≡ any (λ edge. q edge && is_apart "a.py" written edge) written.edges)
    × ((other : String)
        → load_file_cache_hash other (cleanup_file_records "a.py" written)
          ≡ (if "a.py" == other then none else load_file_cache_hash other written))
    × ((other : String)
        → filter
            (λ (row : NodeRow). row.file_path == other)
            (cleanup_file_records "a.py" written).nodes
          ≡ (if "a.py" == other
              then []
              else filter (λ (row : NodeRow). row.file_path == other) written.nodes))
cleanup_file_records_effect_example = cleanup_file_records_effect "a.py" written

resolve_unresolved_edges_effect_example :
    ((resolve_unresolved_edges written).nodes ≡ written.nodes)
    × ((resolve_unresolved_edges written).file_cache ≡ written.file_cache)
    × Pointwise
        (IsResolution (node_ids written.nodes) (fetch_unresolved_edges written))
        written.edges
        (resolve_unresolved_edges written).edges
resolve_unresolved_edges_effect_example = resolve_unresolved_edges_effect written
