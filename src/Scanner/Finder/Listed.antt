-- ===== src/Scanner/Finder/Listed.antt =====
-- scanner/src/finder.rs: what the listing of the files contains.
use cortex_engine.Common.{
  ◌≡◌, refl, inl, inr, String, Bool, true, false, Bool-cases, ◌&&◌, not, Option, none, some, List,
  [], ◌∷◌, if◌then◌else◌, ◌+++◌, contains, arith, subst, eq_iff, ◌==◌,
}
use cortex_engine.Common.Sets.{set_insert, contains-set_insert}
use package.cortex_engine.Scanner.Yaml.{Value}
use package.cortex_engine.Scanner.Filters.{
  is_supported_extension, should_ignore, should_include, load_ignore_patterns,
}
use package.cortex_engine.Scanner.Roots.{IndexRoot, canonical, normalize_configured_index_roots}
use package.cortex_engine.Scanner.Finder.{
  World, Entry, file, folder, special, add_file, collect_file, collect_files, collect_entry,
  collect_roots_files, scan_files,
}

module _ (w : World) (workspace : String) (settings : Value) (patterns : List String) where
  -- Every path of the listing is one that is not ignored and is included.
  abbrev IsClean : List String → Type 0
  IsClean out =
      (p : String)
      → contains p out ≡ true
      → (should_ignore w.glob p patterns ≡ false) × (should_include w.glob p settings ≡ true)

  add_file-IsClean :
      (out : List String) (ext db_path : Option String)
      → IsClean out
      → IsClean (add_file w settings patterns out ext db_path)
  add_file-IsClean out none db_path clean p h = clean p h
  add_file-IsClean out (some ext) none clean p h = clean p h
  add_file-IsClean out (some ext) (some db_path) clean p h = pick _ refl h
    where
      pick :
          (b : Bool)
          → (is_supported_extension ("." +++ ext)
              && (not (should_ignore w.glob db_path patterns)
                  && should_include w.glob db_path settings))
            ≡ b
          → contains p (if b then set_insert db_path out else out) ≡ true
          → (should_ignore w.glob p patterns ≡ false) × (should_include w.glob p settings ≡ true)
      pick false e h = clean p h
      pick true e h = elim (Bool-cases (db_path == p)) [
        | inl same ↦
            subst
              (λ q.
                (should_ignore w.glob q patterns ≡ false)
                × (should_include w.glob q settings ≡ true))
              ((eq_iff db_path p).0 same) (ground (arith, e), ground (arith, e))
        | inr other ↦ clean p (ground (arith, h, contains-set_insert p db_path out))
      ]

  collect_files-IsClean :
      (paths out : List String)
      → IsClean out
      → IsClean (collect_files w workspace settings patterns out paths)
  unfolding collect_files collect_file
  collect_files-IsClean [] out clean = clean
  collect_files-IsClean (path ∷ paths) out clean =
      collect_files-IsClean paths (collect_file w workspace settings patterns out path)
        (add_file-IsClean out _ _ clean)

  collect_entry-IsClean :
      (out : List String) (e : Option Entry)
      → IsClean out
      → IsClean (collect_entry w workspace settings patterns out e)
  unfolding collect_file
  collect_entry-IsClean out none clean = clean
  collect_entry-IsClean out (some (file path)) clean = add_file-IsClean out _ _ clean
  collect_entry-IsClean out (some (special path)) clean = clean
  collect_entry-IsClean out (some (folder path entries)) clean = collect_files-IsClean _ out clean

  collect_roots_files-IsClean :
      (roots : List IndexRoot) (out : List String)
      → IsClean out
      → IsClean (collect_roots_files w workspace settings patterns out roots)
  unfolding collect_roots_files
  collect_roots_files-IsClean [] out clean = clean
  collect_roots_files-IsClean (root ∷ roots) out clean =
      collect_roots_files-IsClean roots
        (collect_entry w workspace settings patterns out (w.disk root.source_path))
        (collect_entry-IsClean out _ clean)

-- Every path that the scan lists is included by the settings and is not ignored, by the same patterns
-- that the watcher asks.
pub scan_files_clean :
    (w : World) (workspace : String) (settings : Value) (p : String)
    → contains p (scan_files w workspace settings) ≡ true
    → (should_ignore w.glob p (load_ignore_patterns w.gitignore settings) ≡ false)
      × (should_include w.glob p settings ≡ true)
unfolding scan_files contains
scan_files_clean w workspace settings p h =
    let ws = canonical w.canonicalize workspace in
    collect_roots_files-IsClean w ws settings (load_ignore_patterns w.gitignore settings)
      (normalize_configured_index_roots w.canonicalize w.to_lowercase w.same ws settings) []
      (λ q k. cc) p h
