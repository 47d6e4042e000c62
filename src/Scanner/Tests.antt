-- ===== src/Scanner/Tests.antt =====
-- A small disk, scanned.
use cortex_engine.Common.{
  ◌≡◌, refl, true, false, ◌||◌, none, some, [], ◌∷◌, ◌==◌, if◌then◌else◌, contains, join,
}
use cortex_engine.Common.Chars.{
  to_ascii_lowercase, forward_slashes, split, trim, trim_matches, rsplit_once, ends_with,
}
use cortex_engine.Common.FilePath.{extension, components, join_path, strip_path}
use cortex_engine.Common.Sets.{set_insert}
use cortex_engine.Scanner.Yaml.{null, get, get_in, texts}
use cortex_engine.Scanner.Filters.{
  is_supported_extension, should_ignore, should_include, load_ignore_patterns,
}
use cortex_engine.Scanner.Roots.{normalize_configured_index_roots, db_path_for_source_path}
use cortex_engine.Scanner.Finder.{World, file, folder, done, inside, scan_files}
use cortex_engine.Scanner.Finder.Listed.{scan_files_clean}

-- A pattern matches itself, and "**" everything.
abbrev small_world : World
small_world = record {
  glob = λ pattern name. pattern == "**" || pattern == name;
  canonicalize = λ path. if path == "/w/." then some "/w" else some path;
  to_lowercase = λ s. s;
  same = λ v w. false;
  disk = λ path.
      if path == "/w"
      then some (
          folder "/w" (
            inside (file "/w/a.py") (
              inside (folder "/w/build" (inside (file "/w/build/b.py") done))
                (inside (file "/w/c.txt") done))))
      else none;
  gitignore = some ("# generated" ∷ "/out/" ∷ []);
}

program : Unit {0}
unfolding scan_files to_ascii_lowercase is_supported_extension should_ignore should_include
    load_ignore_patterns contains split extension components join strip_path rsplit_once trim
    trim_matches join_path ends_with normalize_configured_index_roots db_path_for_source_path
    forward_slashes texts get get_in set_insert
program = tt

scanned : scan_files small_world "/w" null ≡ "a.py" ∷ []
unfolding program
scanned = refl

scan_files_clean_example :
    (should_ignore small_world.glob "a.py" (load_ignore_patterns small_world.gitignore null)
      ≡ false)
    × (should_include small_world.glob "a.py" null ≡ true)
unfolding program
scan_files_clean_example = scan_files_clean small_world "/w" null "a.py" refl
