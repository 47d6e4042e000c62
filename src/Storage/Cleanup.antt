-- ===== src/Storage/Cleanup.antt =====
-- watcher/src/index.rs: what the indexer reads of the cache, and the removal of a file's records.
pub mod Laws
use cortex_engine.Common.{
  ℕ, ◌+◌, suc, String, Bool, true, false, ◌||◌, not, Option, none, some, List, [], ◌∷◌, ◌==◌,
  if◌then◌else◌, any, filter, map, contains, is_some,
}
use cortex_engine.Storage.Tables.{NodeRow, EdgeRow, CacheRow, Db, hash_of}

-- `SELECT id FROM nodes WHERE file_path = ?`.
unfoldable pub ids_of_file : String → List NodeRow → List String
ids_of_file path [] = []
ids_of_file path (row ∷ rows) =
    let rest = ids_of_file path rows in if row.file_path == path then row.id ∷ rest else rest

-- An edge that touches one of the nodes.
abbrev pub touches : List String → EdgeRow → Bool
touches ids edge = contains edge.source_id ids || contains edge.target_id ids

unfoldable pub cleanup_file_records : String → Db → Db
unfolding ids_of_file
cleanup_file_records path db = record db {
  edges = filter (λ edge. not (touches (ids_of_file path db.nodes) edge)) db.edges;
  nodes = filter (λ (row : NodeRow). not (row.file_path == path)) db.nodes;
  file_cache = filter (λ (row : CacheRow). not (row.file_path == path)) db.file_cache;
}

-- The loop of `cleanup_deleted_file_records` over the cached paths, with its count.
unfoldable pub cleanup_paths : List String → List String → Db → Db × ℕ
cleanup_paths current [] db = (db, 0)
cleanup_paths current (path ∷ paths) db =
    let gone = cleanup_paths current paths (cleanup_file_records path db) in
    let kept = cleanup_paths current paths db in
    if contains path current then kept else (gone.0, suc gone.1)

unfoldable pub cleanup_deleted_file_records : List String → Db → Db × ℕ
unfolding cleanup_paths
cleanup_deleted_file_records current db =
    cleanup_paths current (map (λ (row : CacheRow). row.file_path) db.file_cache) db

unfoldable pub load_file_cache_hash : String → Db → Option String
load_file_cache_hash path db = hash_of path db.file_cache

unfoldable pub file_record_exists : String → Db → Bool
file_record_exists path db = any (λ (row : NodeRow). row.file_path == path) db.nodes
