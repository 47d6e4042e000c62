-- ===== src/Watcher/Index/Sequential.antt =====
-- watcher/src/index.rs: the index against one file after another.
use cortex_engine.Common.{
  ℕ, ◌≡◌, refl, sym, ap, subst, ◌∙◌, inl, inr, String, Bool, true, Bool-cases, none, List, [], ◌∷◌,
  ◌==◌, contains, is_distinct, arith, eq_iff, eq_refl,
}
use cortex_engine.Storage.Tables.{Db}
use cortex_engine.Storage.Cleanup.{cleanup_deleted_file_records, load_file_cache_hash}
use cortex_engine.Storage.Resolver.{resolve_unresolved_edges}
use package.cortex_engine.Watcher.Index.Inspect.{Env, Result, InspectOutcome, inspect_path}
use package.cortex_engine.Watcher.Index.{
  apply, write_prepared, prepare_all, cmd_index, process_path, IndexReport, first_report,
}
use package.cortex_engine.Watcher.Index.Cache.{inspect_path-IsAbout, load-apply}

-- The files one after another, each with the hash that the cache has when its turn comes.
unfoldable pub process_each : Env → ℕ → Bool → List String → Db → Db
process_each env now force [] db = db
process_each env now force (path ∷ paths) db =
    process_each env now force paths
      (process_path env now path force (load_file_cache_hash path db) true none db).0

-- Files that are not in the way of each other.
write_prepared-process_each :
    (env : Env) (now : ℕ) (force : Bool) (files : List String) (origin db : Db)
    (report : IndexReport)
    → is_distinct files ≡ true
    → ((q : String)
        → contains q files ≡ true
        → load_file_cache_hash q db ≡ load_file_cache_hash q origin)
    → (write_prepared now (prepare_all env force files origin) (db, report)).0
      ≡ process_each env now force files db
unfolding write_prepared prepare_all process_each process_path contains is_distinct
write_prepared-process_each env now force [] origin db report distinct h = refl
write_prepared-process_each env now force (path ∷ files) origin db report distinct h =
    let known : load_file_cache_hash path db ≡ load_file_cache_hash path origin =
      h path (ground (arith, eq_refl path)) in
    write_prepared-process_each env now force files origin (apply now item db).0 _
      (ground (arith, distinct)) kept
    ∙ ap
        (λ c.
          process_each env now force files
            (apply now (inspect_path env path force c true none) db).0)
        (sym known)
  where
    item : Result InspectOutcome
    item = inspect_path env path force (load_file_cache_hash path origin) true none

    kept :
        (q : String)
        → contains q files ≡ true
        → load_file_cache_hash q (apply now item db).0 ≡ load_file_cache_hash q origin
    kept q k = elim (Bool-cases (path == q)) [
      | inl same ↦
          let e : path ≡ q = (eq_iff path q).0 same in
          absurd (ground (arith, distinct, subst (λ r. contains r files ≡ true) (sym e) k))
      | inr other ↦
          load-apply now path item db q (inspect_path-IsAbout env path force _ true none)
          ∙ ground (arith, other, k, h q)
    ]

-- Inspecting all files first and writing afterwards gives the database that processing them one after
-- another gives, each with the hash that the cache has by then, if no file is listed twice.
pub cmd_index-process_each :
    (env : Env) (now : ℕ) (force : Bool) (files : List String) (db : Db)
    → is_distinct files ≡ true
    → (cmd_index env now force files db).0
      ≡ resolve_unresolved_edges
          (process_each env now force files (cleanup_deleted_file_records files db).0)
unfolding cmd_index
cmd_index-process_each env now force files db distinct =
    let cleaned = cleanup_deleted_file_records files db in
    ap resolve_unresolved_edges (
      write_prepared-process_each env now force files cleaned.0 cleaned.0
        (first_report files cleaned.1) distinct (λ q k. refl))
