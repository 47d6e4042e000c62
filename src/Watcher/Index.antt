-- ===== src/Watcher/Index.antt =====
-- watcher/src/index.rs: the inspection of a file, its records in the database, and the whole index.
pub mod Inspect
pub mod Cache
pub mod Rerun
pub mod Sequential
pub mod Pdf
use cortex_engine.Common.{
  ℕ, suc, ◌+◌, String, Bool, true, false, Option, none, some, List, [], ◌∷◌, ◌++◌, ◌==◌,
  if◌then◌else◌, length, map, unwrap_or,
}
use cortex_engine.Common.Chars.{forward_slashes}
use cortex_engine.Common.Map.{Map, insert, lookup}
use cortex_engine.Storage.Tables.{Db, CacheRow, hash_of}
use cortex_engine.Storage.Write.{FileWriteBatch, write_file_batch}
use cortex_engine.Storage.Cleanup.{
  cleanup_file_records, cleanup_deleted_file_records, load_file_cache_hash, file_record_exists,
}
use cortex_engine.Storage.Resolver.{resolve_unresolved_edges}
use cortex_engine.Watcher.Naming.{VectorItem, vector_prefix_for_path}
use Inspect.*

-- `IndexStats`.
pub record IndexStats : Type 0 where
  pub total_files : ℕ
  pub indexed : ℕ
  pub skipped : ℕ
  pub errors : ℕ
  pub deleted : ℕ

abbrev pub batch_of : ℕ → PreparedIndex → FileWriteBatch
batch_of now indexed = record {
  file_path = indexed.rel_path;
  file_hash = indexed.file_hash;
  indexed_at = now;
  module_name = some indexed.module_name;
  workspace_id = some indexed.workspace_id;
  category = some indexed.category;
  nodes = indexed.nodes;
  edges = indexed.edges;
}

unfoldable pub write_indexed_path : ℕ → PreparedIndex → Db → Db
write_indexed_path now indexed db = write_file_batch (batch_of now indexed) db

-- `ProcessOutcome`.
pub data ProcessOutcome : Type 0 where
  rust_indexed : ProcessOutcome
  skipped : ProcessOutcome
  deleted : ProcessOutcome

-- What `process_path` does with an inspection; an error leaves the database alone. The graph store,
-- which follows the database, is not modelled.
unfoldable pub apply : ℕ → Result InspectOutcome → Db → Db × Result ProcessOutcome
unfolding write_indexed_path
apply now (ok (to_index p)) db = (write_indexed_path now p db, ok rust_indexed)
apply now (ok to_skip) db = (db, ok skipped)
apply now (ok (to_delete path)) db = (cleanup_file_records path db, ok deleted)
apply now (err e) db = (db, err e)

-- The counts and the vector items that the loop of `cmd_index` adds for an inspection.
unfoldable pub count : Result InspectOutcome → IndexStats → IndexStats
count (ok (to_index p)) stats = record stats { indexed = stats.indexed + 1 }
count (ok to_skip) stats = record stats { skipped = stats.skipped + 1 }
count (ok (to_delete path)) stats = record stats { deleted = stats.deleted + 1 }
count (err e) stats = record stats { errors = stats.errors + 1 }

unfoldable pub collect_items : Result InspectOutcome → Map (List VectorItem) → Map (List VectorItem)
collect_items (ok (to_index p)) items =
    let prefix = vector_prefix_for_path p.rel_path in
    insert prefix (unwrap_or (lookup prefix items) [] ++ p.vector_items) items
collect_items (ok to_skip) items = items
collect_items (ok (to_delete path)) items = items
collect_items (err e) items = items

pub record IndexReport : Type 0 where
  pub stats : IndexStats
  pub vector_items_by_prefix : Map (List VectorItem)

-- The loop over what was prepared.
unfoldable pub write_prepared :
    ℕ → List (Result InspectOutcome) → Db × IndexReport → Db × IndexReport
unfolding apply count collect_items
write_prepared now [] (db, report) = (db, report)
write_prepared now (item ∷ items) (db, report) = write_prepared now items (
  (apply now item db).0,
  record {
    stats = count item report.stats;
    vector_items_by_prefix = collect_items item report.vector_items_by_prefix;
  },
)

abbrev pub no_stats : IndexStats
no_stats = record { total_files = 0; indexed = 0; skipped = 0; errors = 0; deleted = 0 }

-- The report before the loop.
abbrev pub first_report : List String → ℕ → IndexReport
first_report files deleted_count = record {
  stats = record no_stats { total_files = length files; deleted = deleted_count };
  vector_items_by_prefix = [];
}

module _ (env : Env) where
  -- The cached hashes are read once, after the removal of the deleted files, and each file is
  -- inspected before any is written.
  unfoldable pub prepare_all : Bool → List String → Db → List (Result InspectOutcome)
  unfolding load_file_cache_hash
  prepare_all force files db =
      map (λ rel_path. inspect_path env rel_path force (load_file_cache_hash rel_path db) true none)
        files

  -- `files` is what `scan_files` returns; the order of the rows that a resolution meets is the
  -- table's.
  unfoldable pub cmd_index : ℕ → Bool → List String → Db → Db × IndexReport
  unfolding write_prepared prepare_all
  cmd_index now force files db =
      let cleaned = cleanup_deleted_file_records files db in
      let written =
        write_prepared now (prepare_all force files cleaned.0)
          (cleaned.0, first_report files cleaned.1) in
      (resolve_unresolved_edges written.0, written.1)

  unfoldable pub process_path :
      ℕ → String → Bool → Option String → Bool → Option String → Db → Db × Result ProcessOutcome
  unfolding apply
  process_path now rel_path force cached_hash include_vector_items source_path db =
      apply now (inspect_path env rel_path force cached_hash include_vector_items source_path) db

  -- The answer of `cmd_index_file`: its status.
  abbrev pub status_of : Bool → ProcessOutcome → String
  status_of existed_before rust_indexed = if existed_before then "updated" else "created"
  status_of existed_before skipped = "skipped"
  status_of existed_before deleted = "deleted"

  -- An error returns before the edges are resolved.
  abbrev pub finish : Bool → Db × Result ProcessOutcome → Db × Result String
  finish existed_before (db, ok outcome) =
      (resolve_unresolved_edges db, ok (status_of existed_before outcome))
  finish existed_before (db, err e) = (db, err e)

  unfoldable pub cmd_index_file : ℕ → String → Bool → Db → Db × Result String
  unfolding process_path file_record_exists load_file_cache_hash
  cmd_index_file now path force db =
      let rel_path = forward_slashes path in
      let existed_before = file_record_exists rel_path db in
      finish existed_before (elim (env.source_path_for_index_path rel_path) [
        | none ↦ (cleanup_file_records rel_path db, ok deleted)
        | some source_path ↦
            if env.exists source_path
            then process_path now rel_path force (load_file_cache_hash rel_path db) false
                (some source_path) db
            else (cleanup_file_records rel_path db, ok deleted)
      ])
