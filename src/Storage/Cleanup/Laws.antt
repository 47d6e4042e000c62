-- ===== src/Storage/Cleanup/Laws.antt =====
-- watcher/src/index.rs: what the removal of a file's records leaves.
use cortex_engine.Common.{
  ◌≡◌, refl, String, Bool, false, ◌&&◌, not, none, List, [], ◌∷◌, ◌==◌, if◌then◌else◌, any, map,
  filter, contains, eq_iff, arith, any-filter_not,
}
use cortex_engine.Storage.Tables.{NodeRow, EdgeRow, CacheRow, Db, hash_of}
use cortex_engine.Storage.Write.Laws.{hash_of-filter}
use cortex_engine.Storage.Cleanup.{
  ids_of_file, touches, cleanup_file_records, cleanup_paths, cleanup_deleted_file_records,
  file_record_exists, load_file_cache_hash,
}

rows_of_file-filter :
    (path other : String) (rows : List NodeRow)
    → filter
        (λ (row : NodeRow). row.file_path == other)
        (filter (λ (row : NodeRow). not (row.file_path == path)) rows)
      ≡ (if path == other then [] else filter (λ (row : NodeRow). row.file_path == other) rows)
rows_of_file-filter path other [] = ground arith
rows_of_file-filter path other (row ∷ rows) = ground (
  arith,
  rows_of_file-filter path other rows,
  eq_iff row.file_path path,
  eq_iff row.file_path other,
  eq_iff path other,
)

-- The node stands in the table, in a row of the file.
abbrev pub is_id_in : String → List NodeRow → String → Bool
is_id_in path rows id = any (λ (row : NodeRow). row.file_path == path && row.id == id) rows

contains-ids_of_file :
    (path id : String) (rows : List NodeRow)
    → contains id (ids_of_file path rows) ≡ is_id_in path rows id
unfolding contains ids_of_file
contains-ids_of_file path id [] = refl
contains-ids_of_file path id (row ∷ rows) =
    ground (arith, contains-ids_of_file path id rows, eq_iff row.id id)

-- Neither end of the edge is a node of the file.
abbrev pub is_apart : String → Db → EdgeRow → Bool
is_apart path db edge =
    not (is_id_in path db.nodes edge.source_id) && not (is_id_in path db.nodes edge.target_id)

any-untouched :
    (q : EdgeRow → Bool) (path : String) (db : Db) (edges : List EdgeRow)
    → any q (filter (λ edge. not (touches (ids_of_file path db.nodes) edge)) edges)
      ≡ any (λ edge. q edge && is_apart path db edge) edges
any-untouched q path db [] = refl
any-untouched q path db (edge ∷ edges) = ground (
  arith,
  any-untouched q path db edges,
  contains-ids_of_file path edge.source_id db.nodes,
  contains-ids_of_file path edge.target_id db.nodes,
)

-- After the records of a file are removed, it has no node and no hash; the nodes of every other file
-- are the ones it had, in their order, and so is its hash; and the edges left are just those of which
-- neither end was a node of the file, whatever test one puts to them.
pub cleanup_file_records_effect :
    (path : String) (db : Db)
    → (file_record_exists path (cleanup_file_records path db) ≡ false)
      × ((q : EdgeRow → Bool)
          → any q (cleanup_file_records path db).edges
            ≡ any (λ edge. q edge && is_apart path db edge) db.edges)
      × ((other : String)
          → load_file_cache_hash other (cleanup_file_records path db)
            ≡ (if path == other then none else load_file_cache_hash other db))
      × ((other : String)
          → filter (λ (row : NodeRow). row.file_path == other) (cleanup_file_records path db).nodes
            ≡ (if path == other
                then []
                else filter (λ (row : NodeRow). row.file_path == other) db.nodes))
unfolding cleanup_file_records file_record_exists load_file_cache_hash
cleanup_file_records_effect path db = (
  any-filter_not _ _ db.nodes (λ row h. ground arith),
  λ q. any-untouched q path db db.edges,
  λ other. hash_of-filter path other db.file_cache,
  λ other. rows_of_file-filter path other db.nodes,
)

hash_of-cleanup_paths :
    (current paths : List String) (db : Db) (path : String)
    → load_file_cache_hash path (cleanup_paths current paths db).0 ≡ (
        if contains path paths && not (contains path current)
        then none
        else load_file_cache_hash path db)
unfolding cleanup_paths contains
hash_of-cleanup_paths current [] db path = refl
hash_of-cleanup_paths current (p ∷ ps) db path =
    let removed = cleanup_file_records p db in
    ground (
      arith,
      hash_of-cleanup_paths current ps removed path,
      hash_of-cleanup_paths current ps db path,
      (cleanup_file_records_effect p db).2 path,
      eq_iff p path,
    )

contains-cached :
    (path : String) (rows : List CacheRow)
    → contains path (map (λ (row : CacheRow). row.file_path) rows) ≡ false
    → hash_of path rows ≡ none
unfolding contains hash_of
contains-cached path [] h = refl
contains-cached path (row ∷ rows) h = ground (arith, contains-cached path rows)

-- After the clean-up, the cache has a hash for just those of its files that are still there, and the
-- hash is the one it had.
pub hash_of-cleanup_deleted_file_records :
    (current : List String) (db : Db) (path : String)
    → load_file_cache_hash path (cleanup_deleted_file_records current db).0
      ≡ (if contains path current then load_file_cache_hash path db else none)
unfolding cleanup_deleted_file_records load_file_cache_hash
hash_of-cleanup_deleted_file_records current db path =
    let cached = map (λ (row : CacheRow). row.file_path) db.file_cache in
    ground (arith, hash_of-cleanup_paths current cached db path, contains-cached path db.file_cache)
