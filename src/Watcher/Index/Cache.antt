-- ===== src/Watcher/Index/Cache.antt =====
-- watcher/src/index.rs: what the inspection of the files does to the cache of hashes.
use cortex_engine.Common.{
  ℕ, ◌≡◌, refl, ap, subst, ◌∙◌, inl, inr, String, Bool, true, false, Bool-cases, Option, none, some,
  List, [], ◌∷◌, ◌==◌, if◌then◌else◌, map, contains, arith, eq_iff, not, ◌&&◌,
}
use cortex_engine.Storage.Tables.{Db, hash_of}
use cortex_engine.Storage.Write.Laws.{hash_of-write_file_batch}
use cortex_engine.Storage.Cleanup.{
  cleanup_file_records, cleanup_deleted_file_records, load_file_cache_hash,
}
use cortex_engine.Storage.Cleanup.Laws.{
  cleanup_file_records_effect, hash_of-cleanup_deleted_file_records,
}
use cortex_engine.Storage.Resolver.{resolve_unresolved_edges}
use cortex_engine.Storage.Resolver.Effect.{resolve_unresolved_edges_effect}
use cortex_engine.Storage.Records.{ParseResult}
use cortex_engine.Watcher.Naming.{VectorItem}
use package.cortex_engine.Watcher.Index.Inspect.{
  Env, Result, ok, err, InspectOutcome, to_index, to_skip, to_delete, inspect_path, pack,
  pack_parsed, skip_or_prepare, hash_file, file_path_of, parse_indexable_file, is_cached,
}
use package.cortex_engine.Watcher.Index.{
  apply, batch_of, write_indexed_path, write_prepared, prepare_all, cmd_index, IndexReport,
}

-- The outcome is about the path.
abbrev pub IsAbout : String → Result InspectOutcome → Type 0
IsAbout path (ok (to_index p)) = p.rel_path ≡ path
IsAbout path (ok to_skip) = Unit
IsAbout path (ok (to_delete gone)) = gone ≡ path
IsAbout path (err e) = Unit

-- The hash that the cache has of a file after its outcome, from the one it had.
abbrev pub settled : Result InspectOutcome → Option String → Option String
settled (ok (to_index p)) cached = some p.file_hash
settled (ok to_skip) cached = cached
settled (ok (to_delete gone)) cached = none
settled (err e) cached = cached

module _ (env : Env) where
  pack-IsAbout :
      (path file_hash : String) (result : ParseResult) (items : Result (List VectorItem))
      → IsAbout path (pack env path file_hash result items)
  pack-IsAbout path file_hash result (ok items) = refl
  pack-IsAbout path file_hash result (err e) = tt

  pack_parsed-IsAbout :
      (path file_path : String) (include : Bool) (file_hash : String) (parsed : Result ParseResult)
      → IsAbout path (pack_parsed env path file_path include file_hash parsed)
  pack_parsed-IsAbout path file_path include file_hash (ok result) =
      pack-IsAbout path file_hash result _
  pack_parsed-IsAbout path file_path include file_hash (err e) = tt

  skip_or_prepare-IsAbout :
      (path file_path : String) (force : Bool) (cached : Option String) (include : Bool)
      (hashed : Result String)
      → IsAbout path (skip_or_prepare env path file_path force cached include hashed)
  skip_or_prepare-IsAbout path file_path force cached include (err e) = tt
  skip_or_prepare-IsAbout path file_path force cached include (ok file_hash) =
      pick (not force && is_cached env cached file_hash)
    where
      pick :
          (b : Bool)
          → IsAbout path (
              if b
              then ok to_skip
              else pack_parsed env path file_path include file_hash
                  (parse_indexable_file env path file_path))
      pick true = tt
      pick false = pack_parsed-IsAbout path file_path include file_hash _

  pub inspect_path-IsAbout :
      (path : String) (force : Bool) (cached : Option String) (include : Bool)
      (source_path : Option String)
      → IsAbout path (inspect_path env path force cached include source_path)
  unfolding inspect_path
  inspect_path-IsAbout path force cached include source_path =
      pick (env.exists (file_path_of env path source_path))
    where
      pick :
          (b : Bool)
          → IsAbout path (
              if b
              then skip_or_prepare env path
                  (file_path_of env path source_path)
                  force
                  cached
                  include
                  (hash_file env path (file_path_of env path source_path))
              else ok (to_delete path))
      pick true = skip_or_prepare-IsAbout path _ force cached include _
      pick false = refl

pub load-apply :
    (now : ℕ) (path : String) (item : Result InspectOutcome) (db : Db) (q : String)
    → IsAbout path item
    → load_file_cache_hash q (apply now item db).0
      ≡ (if path == q then settled item (load_file_cache_hash q db) else load_file_cache_hash q db)
unfolding apply load_file_cache_hash write_indexed_path
load-apply now path (ok (to_index p)) db q about =
    subst
      (λ r.
        hash_of q (write_indexed_path now p db).file_cache
        ≡ (if r == q then some p.file_hash else hash_of q db.file_cache))
      about (hash_of-write_file_batch (batch_of now p) db q)
load-apply now path (ok to_skip) db q about = ground arith
load-apply now path (ok (to_delete gone)) db q about =
    subst
      (λ r.
        load_file_cache_hash q (cleanup_file_records gone db)
        ≡ (if r == q then none else hash_of q db.file_cache))
      about ((cleanup_file_records_effect gone db).2 q)
load-apply now path (err e) db q about = ground arith

settled_twice :
    (item : Result InspectOutcome) (cached : Option String)
    → settled item (settled item cached) ≡ settled item cached
settled_twice (ok (to_index p)) cached = refl
settled_twice (ok to_skip) cached = refl
settled_twice (ok (to_delete gone)) cached = refl
settled_twice (err e) cached = refl

-- The cache after the loop of `cmd_index` over what was prepared.
pub load-write_prepared :
    (now : ℕ) (f : String → Result InspectOutcome)
    → ((path : String) → IsAbout path (f path))
    → (files : List String) (db : Db) (report : IndexReport) (q : String)
    → load_file_cache_hash q (write_prepared now (map f files) (db, report)).0 ≡ (
        if contains q files
        then settled (f q) (load_file_cache_hash q db)
        else load_file_cache_hash q db)
unfolding write_prepared contains
load-write_prepared now f about [] db report q = refl
load-write_prepared now f about (path ∷ files) db report q =
    load-write_prepared now f about files (apply now (f path) db).0 _ q
    ∙ (elim (Bool-cases (path == q)) [
      | inl same ↦
          let e : path ≡ q = (eq_iff path q).0 same in
          let step : load_file_cache_hash q (apply now (f path) db).0
              ≡ settled (f q) (load_file_cache_hash q db) =
            load-apply now path (f path) db q (about path)
            ∙ ground (arith, same)
            ∙ ap (λ r. settled (f r) (load_file_cache_hash q db)) e in
          rw step (rw same (ground (arith, settled_twice (f q) (load_file_cache_hash q db))))
      | inr other ↦
          let step : load_file_cache_hash q (apply now (f path) db).0 ≡ load_file_cache_hash q db =
            load-apply now path (f path) db q (about path) ∙ ground (arith, other) in
          rw step (rw other refl)
    ])

pub load-resolve_unresolved_edges :
    (db : Db) (q : String)
    → load_file_cache_hash q (resolve_unresolved_edges db) ≡ load_file_cache_hash q db
unfolding load_file_cache_hash
load-resolve_unresolved_edges db q = ap (hash_of q) (resolve_unresolved_edges_effect db).1

module _ (env : Env) where
  -- After an index, the cache has a hash for the listed files alone: the file's own where it was
  -- indexed, the one it had where the file was skipped or failed, and none where it is gone.
  pub load-cmd_index :
      (now : ℕ) (force : Bool) (files : List String) (db : Db) (q : String)
      → load_file_cache_hash q (cmd_index env now force files db).0 ≡ (
          if contains q files
          then settled
              (inspect_path env q force (load_file_cache_hash q db) true none)
              (load_file_cache_hash q db)
          else none)
  unfolding cmd_index prepare_all
  load-cmd_index now force files db q =
      load-resolve_unresolved_edges _ q
      ∙ load-write_prepared now inspect (λ path. inspect_path-IsAbout env path force _ true none)
          files cleaned.0 _ q
      ∙ pick (contains q files) (hash_of-cleanup_deleted_file_records files db q)
    where
      cleaned : Db × ℕ
      cleaned = cleanup_deleted_file_records files db

      inspect : String → Result InspectOutcome
      inspect path = inspect_path env path force (load_file_cache_hash path cleaned.0) true none

      pick :
          (b : Bool)
          → load_file_cache_hash q cleaned.0 ≡ (if b then load_file_cache_hash q db else none)
          → (if b
              then settled (inspect q) (load_file_cache_hash q cleaned.0)
              else load_file_cache_hash q cleaned.0)
            ≡ (if b
                then settled
                    (inspect_path env q force (load_file_cache_hash q db) true none)
                    (load_file_cache_hash q db)
                else none)
      pick true e = ap (λ c. settled (inspect_path env q force c true none) c) e
      pick false e = e
