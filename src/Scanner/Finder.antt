-- ===== src/Scanner/Finder.antt =====
-- scanner/src/finder.rs: the files of the disk under the roots of the settings.
pub mod Listed
use cortex_engine.Common.{
  String, Bool, true, false, ◌&&◌, not, Option, none, some, List, [], ◌∷◌, ◌++◌, if◌then◌else◌,
  ◌+++◌,
}
use cortex_engine.Common.FilePath.{extension}
use cortex_engine.Common.Sets.{set_insert}
use cortex_engine.Scanner.Yaml.{Value}
use cortex_engine.Scanner.Filters.{
  is_supported_extension, should_ignore, should_include, load_ignore_patterns,
}
use cortex_engine.Scanner.Roots.{
  IndexRoot, canonical, db_path_for_source_path, normalize_configured_index_roots,
}

-- What the disk has at a path: WalkDir's entries, each with its own path, in the disk's order. An
-- entry that is neither a file nor a folder is `special`.
mutual
  pub data Entry : Type 0 where
    file : String → Entry
    folder : String → Folder → Entry
    special : String → Entry

  pub data Folder : Type 0 where
    done : Folder
    inside : Entry → Folder → Folder

-- The environment: the matcher of globset, the file system, the standard library's lower case and the
-- equality of settings values.
pub record World : Type 0 where
  pub glob : String → String → Bool
  pub canonicalize : String → Option String
  pub to_lowercase : String → String
  pub same : Value → Value → Bool
  pub disk : String → Option Entry
  pub gitignore : Option (List String)

module _ (w : World) where
  abbrev pub db_path_of : String → Value → String → Option String
  db_path_of workspace settings path =
      db_path_for_source_path w.canonicalize w.to_lowercase w.same workspace settings path

  -- The closure of `filter_entry`: what has no place in the index is walked all the same.
  unfoldable pub is_walked : String → Value → List String → String → Bool
  is_walked workspace settings patterns path = elim (db_path_of workspace settings path) [
    | none ↦ true
    | some db_path ↦ not (should_ignore w.glob db_path patterns)
  ]

  -- The files that the filtered walk comes to: an entry that is filtered out is not descended into.
  unfoldable mutual
    unfolding is_walked

    pub walk : String → Value → List String → Entry → List String
    walk workspace settings patterns (file path) =
        if is_walked workspace settings patterns path then path ∷ [] else []
    walk workspace settings patterns (special path) = []
    walk workspace settings patterns (folder path entries) =
        let found = walk_inside workspace settings patterns entries in
        if is_walked workspace settings patterns path then found else []

    pub walk_inside : String → Value → List String → Folder → List String
    walk_inside workspace settings patterns done = []
    walk_inside workspace settings patterns (inside e es) =
        walk workspace settings patterns e ++ walk_inside workspace settings patterns es

  -- What one file adds to the listing, from its extension and its place in the index.
  abbrev pub add_file :
      Value → List String → List String → Option String → Option String → List String
  add_file settings patterns out none db_path = out
  add_file settings patterns out (some ext) none = out
  add_file settings patterns out (some ext) (some db_path) =
      if is_supported_extension ("." +++ ext)
        && (not (should_ignore w.glob db_path patterns) && should_include w.glob db_path settings)
      then set_insert db_path out
      else out

  unfoldable pub collect_file : String → Value → List String → List String → String → List String
  collect_file workspace settings patterns out path =
      add_file settings patterns out (extension path) (db_path_of workspace settings path)

  unfoldable pub collect_files :
      String → Value → List String → List String → List String → List String
  unfolding collect_file
  collect_files workspace settings patterns out [] = out
  collect_files workspace settings patterns out (path ∷ paths) =
      collect_files workspace settings patterns (collect_file workspace settings patterns out path)
        paths

  -- `collect_from_index_root`; a root that is a file is not walked.
  abbrev pub collect_entry : String → Value → List String → List String → Option Entry → List String
  collect_entry workspace settings patterns out none = out
  collect_entry workspace settings patterns out (some (file path)) =
      collect_file workspace settings patterns out path
  collect_entry workspace settings patterns out (some (special path)) = out
  collect_entry workspace settings patterns out (some (folder path entries)) =
      collect_files workspace settings patterns out
        (walk workspace settings patterns (folder path entries))

  unfoldable pub collect_roots_files :
      String → Value → List String → List String → List IndexRoot → List String
  unfolding collect_files walk
  collect_roots_files workspace settings patterns out [] = out
  collect_roots_files workspace settings patterns out (root ∷ roots) =
      collect_roots_files workspace settings patterns
        (collect_entry workspace settings patterns out (w.disk root.source_path)) roots

  unfoldable pub scan_files : String → Value → List String
  unfolding collect_roots_files
  scan_files workspace settings =
      let ws = canonical w.canonicalize workspace in
      collect_roots_files ws settings (load_ignore_patterns w.gitignore settings) []
        (normalize_configured_index_roots w.canonicalize w.to_lowercase w.same ws settings)
