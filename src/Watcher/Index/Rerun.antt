-- ===== src/Watcher/Index/Rerun.antt =====
-- watcher/src/index.rs: `cmd_index` twice, and its counts.
use cortex_engine.Common.{
  ℕ, ◌+◌, ◌≡◌, refl, sym, ap, subst, ◌∙◌, inl, inr, String, Bool, true, false, Bool-cases, Option,
  none, some, List, [], ◌∷◌, if◌then◌else◌, map, length, contains, arith, eq_refl, not, ◌&&◌,
}
use cortex_engine.Common.Map.{Map}
use cortex_engine.Storage.Tables.{Db}
use cortex_engine.Storage.Records.{ParseResult}
use cortex_engine.Storage.Cleanup.{cleanup_deleted_file_records, load_file_cache_hash}
use cortex_engine.Storage.Cleanup.Laws.{hash_of-cleanup_deleted_file_records}
use cortex_engine.Watcher.Naming.{VectorItem}
use package.cortex_engine.Watcher.Index.Inspect.{
  Env, Result, ok, err, InspectOutcome, to_index, to_skip, to_delete, inspect_path, pack,
  pack_parsed, skip_or_prepare, hash_file, file_path_of, parse_indexable_file, items_for, is_cached,
}
use package.cortex_engine.Watcher.Index.{
  apply, write_prepared, prepare_all, cmd_index, IndexReport, IndexStats, count, collect_items,
  first_report,
}
use package.cortex_engine.Watcher.Index.Cache.{settled, load-cmd_index}

abbrev pub is_to_index : Result InspectOutcome → Bool
is_to_index (ok (to_index p)) = true
is_to_index (ok to_skip) = false
is_to_index (ok (to_delete gone)) = false
is_to_index (err e) = false

module _ (env : Env) where
  -- What `pack_parsed` leaves in the cache is the hash it was given, unless it fails.
  settled-pack_parsed :
      (path file_path : String) (include : Bool) (file_hash : String) (parsed : Result ParseResult)
      (cached : Option String)
      → is_to_index (pack_parsed env path file_path include file_hash parsed) ≡ true
      → settled (pack_parsed env path file_path include file_hash parsed) cached ≡ some file_hash
  settled-pack_parsed path file_path include file_hash (err e) cached h = cc
  settled-pack_parsed path file_path include file_hash (ok result) cached h =
      pick (items_for env path file_path _ result.nodes include) h
    where
      pick :
          (items : Result (List VectorItem))
          → is_to_index (pack env path file_hash result items) ≡ true
          → settled (pack env path file_hash result items) cached ≡ some file_hash
      pick (ok items) h = refl
      pick (err e) h = cc

  -- Where it fails, it leaves the cache alone.
  settled-pack_parsed_fails :
      (path file_path : String) (include : Bool) (file_hash : String) (parsed : Result ParseResult)
      (cached : Option String)
      → is_to_index (pack_parsed env path file_path include file_hash parsed) ≡ false
      → settled (pack_parsed env path file_path include file_hash parsed) cached ≡ cached
  settled-pack_parsed_fails path file_path include file_hash (err e) cached h = refl
  settled-pack_parsed_fails path file_path include file_hash (ok result) cached h =
      pick (items_for env path file_path _ result.nodes include) h
    where
      pick :
          (items : Result (List VectorItem))
          → is_to_index (pack env path file_hash result items) ≡ false
          → settled (pack env path file_hash result items) cached ≡ cached
      pick (ok items) h = cc
      pick (err e) h = refl

  -- An inspection after which another one, that is not forced, has nothing to do.
  abbrev pub IsLast : (Option String → Result InspectOutcome) → Option String → Type 0
  IsLast inspect cached =
      (is_to_index (inspect cached) ≡ false) × (settled (inspect cached) cached ≡ cached)

  hashed_again :
      (path file_path : String) (force : Bool) (cached : Option String) (include : Bool)
      (hashed : Result String)
      → IsLast
          (λ c. skip_or_prepare env path file_path false c include hashed)
          (settled (skip_or_prepare env path file_path force cached include hashed) cached)
  hashed_again path file_path force cached include (err e) = (refl, refl)
  hashed_again path file_path force cached include (ok file_hash) =
      pick (not force && is_cached env cached file_hash) refl
    where
      packed : Result InspectOutcome
      packed =
          pack_parsed env path file_path include file_hash (parse_indexable_file env path file_path)

      -- The second inspection, by what it finds in the cache.
      last_pick :
          (c : Option String) (b : Bool)
          → (is_to_index packed ≡ true → b ≡ true)
          → (is_to_index (if b then ok to_skip else packed) ≡ false)
            × (settled (if b then ok to_skip else packed) c ≡ c)
      last_pick c true h = (refl, refl)
      last_pick c false h = elim (Bool-cases (is_to_index packed)) [
        | inl is ↦ absurd (ground (arith, h is))
        | inr is_not ↦ (
          is_not,
          settled-pack_parsed_fails path file_path include file_hash
              (parse_indexable_file env path file_path) c is_not,
        )
      ]

      pick :
          (b : Bool)
          → not force && is_cached env cached file_hash ≡ b
          → IsLast
              (λ c. if is_cached env c file_hash then ok to_skip else packed)
              (settled (if b then ok to_skip else packed) cached)
      pick true e = last_pick cached (is_cached env cached file_hash) (λ h. ground (arith, e))
      pick false e = last_pick _ _ (λ h.
          ap (λ c. is_cached env c file_hash)
            (settled-pack_parsed path file_path include file_hash
              (parse_indexable_file env path file_path) cached h)
          ∙ eq_refl file_hash)

  -- A file that has been inspected needs no second inspection.
  pub inspected_again :
      (path : String) (force : Bool) (cached : Option String) (include : Bool)
      → IsLast
          (λ c. inspect_path env path false c include none)
          (settled (inspect_path env path force cached include none) cached)
  unfolding inspect_path
  inspected_again path force cached include = pick (env.exists (file_path_of env path none))
    where
      inspected : Bool → Bool → Option String → Result InspectOutcome
      inspected b force' cached' =
          if b
          then skip_or_prepare env path (file_path_of env path none) force' cached' include
              (hash_file env path (file_path_of env path none))
          else ok (to_delete path)

      pick :
          (b : Bool) → IsLast (λ c. inspected b false c) (settled (inspected b force cached) cached)
      pick true = hashed_again path _ force cached include _
      pick false = (refl, refl)

count_none :
    (item : Result InspectOutcome) (stats : IndexStats) (items : Map (List VectorItem))
    → is_to_index item ≡ false
    → ((count item stats).indexed ≡ stats.indexed) × (collect_items item items ≡ items)
unfolding count collect_items
count_none (ok (to_index p)) stats items h = cc
count_none (ok to_skip) stats items h = (refl, refl)
count_none (ok (to_delete gone)) stats items h = (refl, refl)
count_none (err e) stats items h = (refl, refl)

-- The loop indexes nothing when no item asks for it.
write_prepared-none :
    (now : ℕ) (f : String → Result InspectOutcome) (files : List String) (db : Db)
    (report : IndexReport)
    → ((path : String) → contains path files ≡ true → is_to_index (f path) ≡ false)
    → ((write_prepared now (map f files) (db, report)).1.stats.indexed ≡ report.stats.indexed)
      × ((write_prepared now (map f files) (db, report)).1.vector_items_by_prefix
          ≡ report.vector_items_by_prefix)
unfolding write_prepared contains count collect_items
write_prepared-none now f [] db report h = (refl, refl)
write_prepared-none now f (path ∷ files) db report h =
    let now_none =
      count_none (f path) report.stats report.vector_items_by_prefix
        (h path (ground (arith, eq_refl path))) in
    let rest =
      write_prepared-none now f files (apply now (f path) db).0 _
        (λ q k. h q (ground (arith, k))) in
    (rest.0 ∙ now_none.0, rest.1 ∙ now_none.1)

-- Indexing again, with the same files as they were, indexes nothing and has no text to embed,
-- whether the first run was forced or not.
pub cmd_index_again :
    (env : Env) (now now' : ℕ) (force : Bool) (files : List String) (db : Db)
    → let again = (cmd_index env now' false files (cmd_index env now force files db).0).1 in
      (again.stats.indexed ≡ 0) × (again.vector_items_by_prefix ≡ [])
unfolding cmd_index prepare_all
cmd_index_again env now now' force files db = write_prepared-none now' _ files _ _ (λ q k.
    subst (λ c. is_to_index (inspect_path env q false c true none) ≡ false) (sym (known q k))
      (inspected_again env q force (load_file_cache_hash q db) true).0)
  where
    first : Db
    first = (cmd_index env now force files db).0

    known :
        (q : String)
        → contains q files ≡ true
        → load_file_cache_hash q (cleanup_deleted_file_records files first).0
          ≡ settled
              (inspect_path env q force (load_file_cache_hash q db) true none)
              (load_file_cache_hash q db)
    known q k =
        hash_of-cleanup_deleted_file_records files first q
        ∙ ap (λ b. if b then load_file_cache_hash q first else none) k
        ∙ load-cmd_index env now force files db q
        ∙ ap
            (λ b.
              if b
              then settled (inspect_path env q force (load_file_cache_hash q db) true none)
                  (load_file_cache_hash q db)
              else none)
            k

-- The files that the counts account for.
abbrev counted : IndexStats → ℕ
counted stats = stats.indexed + stats.skipped + stats.errors + stats.deleted

counted-count :
    (item : Result InspectOutcome) (stats : IndexStats)
    → (counted (count item stats) ≡ counted stats + 1)
      × ((count item stats).total_files ≡ stats.total_files)
unfolding count
counted-count (ok (to_index p)) stats = (omega arith, refl)
counted-count (ok to_skip) stats = (omega arith, refl)
counted-count (ok (to_delete gone)) stats = (omega arith, refl)
counted-count (err e) stats = (omega arith, refl)

counted-write_prepared :
    (now : ℕ) (f : String → Result InspectOutcome) (files : List String) (db : Db)
    (report : IndexReport)
    → (counted (write_prepared now (map f files) (db, report)).1.stats
        ≡ counted report.stats + length files)
      × ((write_prepared now (map f files) (db, report)).1.stats.total_files
          ≡ report.stats.total_files)
unfolding write_prepared
counted-write_prepared now f [] db report = (omega arith, refl)
counted-write_prepared now f (path ∷ files) db report =
    let one = counted-count (f path) report.stats in
    let rest = counted-write_prepared now f files (apply now (f path) db).0 _ in
    (omega (arith, one.0, rest.0), rest.1 ∙ one.1)

-- The report accounts for every file: what was indexed, skipped, failed or found deleted adds up to
-- the files listed and the files removed from the cache before.
pub cmd_index_total :
    (env : Env) (now : ℕ) (force : Bool) (files : List String) (db : Db)
    → let stats = (cmd_index env now force files db).1.stats in
      stats.indexed + stats.skipped + stats.errors + stats.deleted
      ≡ stats.total_files + (cleanup_deleted_file_records files db).1
unfolding cmd_index prepare_all
cmd_index_total env now force files db =
    let cleaned = cleanup_deleted_file_records files db in
    let total =
      counted-write_prepared now
        (λ path. inspect_path env path force (load_file_cache_hash path cleaned.0) true none) files
        cleaned.0 (first_report files cleaned.1) in
    omega (arith, total.0, total.1)
