-- ===== src/Watcher/Tests.antt =====
-- A workspace with one Python file, indexed and watched.
use cortex_engine.Common.{
  ◌≡◌, refl, String, true, ◌||◌, false, none, some, List, [], ◌∷◌, ◌==◌, if◌then◌else◌, ◌+++◌,
  contains, is_distinct,
}
use cortex_engine.Scanner.Yaml.{null}
use cortex_engine.Storage.Records.{NodeRecord}
use cortex_engine.Storage.Tables.{empty_db}
use cortex_engine.Storage.Cleanup.{load_file_cache_hash, cleanup_deleted_file_records}
use cortex_engine.Storage.Resolver.{resolve_unresolved_edges}
use cortex_engine.Watcher.Index.Inspect.{err, unreadable, file_path_of, Env, inspect_path}
use cortex_engine.Watcher.Index.{cmd_index}
use cortex_engine.Watcher.Index.Cache.{settled, load-cmd_index}
use cortex_engine.Watcher.Index.Rerun.{is_to_index, cmd_index_again}
use cortex_engine.Watcher.Index.Sequential.{process_each, cmd_index-process_each}
use cortex_engine.Watcher.Index.Pdf.{IsChangedPdf, inspect_path_pdf}
use cortex_engine.Watcher.Naming.{file_extension}
use cortex_engine.Common.Chars.{split, rsplit_once}
use cortex_engine.Common.FilePath.{extension, components}
use cortex_engine.Watcher.Watch.{Tracker, Turn, Watch, event, timeout, cmd_watch}
use cortex_engine.Watcher.Watch.Caught.{IsCaughtUp, is_named_in_time, cmd_watch-IsCaughtUp}

abbrev function_f : NodeRecord
function_f = record {
  id = "f";
  node_type = "function";
  name = "f";
  fqn = "a.f";
  file_path = "a.py";
  start_line = 1;
  end_line = 2;
  signature = none;
  return_type = none;
  docstring = none;
  is_exported = none;
  is_async = none;
  is_test = none;
  raw_body = "def f(): pass";
  skeleton_standard = none;
  skeleton_minimal = none;
  language = "python";
}

-- Every hash is "h", and only a.py can be read.
abbrev small_env : Env
small_env = record {
  workspace = "/w";
  settings = null;
  exists = λ path. path == "/w/a.py" || path == "/w/locked.py";
  read = λ path. none;
  read_to_string = λ path. if path == "/w/a.py" then some "def f(): pass" else none;
  as_bytes = λ s. [];
  blake2b16_hex = λ bytes. "h";
  md5_hex = λ s. "0123456789abcdef";
  to_lowercase = λ s. s;
  parse_pdf_file = λ path file. record { nodes = []; edges = [] };
  parse_with = λ parser path source. record { nodes = function_f ∷ []; edges = [] };
  source_path_for_index_path = λ path. some ("/w/" +++ path);
}

abbrev files : List String
files = "a.py" ∷ "gone.py" ∷ "locked.py" ∷ []

load-cmd_index_example :
    load_file_cache_hash "a.py" (cmd_index small_env 7 false files empty_db).0
    ≡ settled
        (inspect_path small_env "a.py" false (load_file_cache_hash "a.py" empty_db) true none)
        (load_file_cache_hash "a.py" empty_db)
unfolding contains
load-cmd_index_example = load-cmd_index small_env 7 false files empty_db "a.py"

cmd_index_again_example :
    let again =
      (cmd_index small_env 9 false files (cmd_index small_env 7 true files empty_db).0).1 in
    (again.stats.indexed ≡ 0) × (again.vector_items_by_prefix ≡ [])
cmd_index_again_example = cmd_index_again small_env 7 9 true files empty_db

cmd_index-process_each_example :
    (cmd_index small_env 7 false files empty_db).0
    ≡ resolve_unresolved_edges
        (process_each small_env 7 false files (cleanup_deleted_file_records files empty_db).0)
unfolding is_distinct contains
cmd_index-process_each_example = cmd_index-process_each small_env 7 false files empty_db refl

-- A PDF whose bytes are no UTF-8.
abbrev pdf_env : Env
pdf_env = record small_env {
  exists = λ path. true;
  read = λ path. some (37 ∷ 255 ∷ []);
  read_to_string = λ path. none;
}

changed_pdf : IsChangedPdf pdf_env "a.pdf" false none (37 ∷ 255 ∷ [])
unfolding file_extension extension components split rsplit_once
changed_pdf = record {
  extension = refl;
  exists = refl;
  readable = refl;
  not_text = refl;
  changed = refl;
}

inspect_path_pdf_example :
    (inspect_path pdf_env "a.pdf" false none true none ≡ err (unreadable "/w/a.pdf"))
    × (is_to_index (inspect_path pdf_env "a.pdf" false none false none) ≡ true)
unfolding file_path_of
inspect_path_pdf_example = inspect_path_pdf pdf_env "a.pdf" false none (37 ∷ 255 ∷ []) changed_pdf

abbrev small_tracker : Tracker
small_tracker = record {
  db_path_for_source_path = λ path. if path == "/w/a.py" then some "a.py" else none;
  should_track_path = λ path. true;
}

abbrev idle_watch : Watch
idle_watch = record { pending = []; last_event_at = none; db = empty_db }

abbrev saved : Turn
saved = record { shutdown = false; message = event ("/w/a.py" ∷ []); now = 100 }

abbrev quiet : Turn
quiet = record { shutdown = false; message = timeout; now = 5200 }

abbrev stopped : Turn
stopped = record { shutdown = true; message = timeout; now = 5300 }

cmd_watch-IsCaughtUp_example :
    IsCaughtUp small_env "a.py"
      (cmd_watch small_env small_tracker (saved ∷ quiet ∷ stopped ∷ []) idle_watch).db
unfolding is_named_in_time
cmd_watch-IsCaughtUp_example =
    cmd_watch-IsCaughtUp small_env small_tracker (saved ∷ quiet ∷ stopped ∷ []) idle_watch "a.py"
      refl refl
