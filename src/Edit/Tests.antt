-- ===== src/Edit/Tests.antt =====
-- One file, edited once and then not found.
use cortex_engine.Common.{◌≡◌, refl, true, false, none, some, [], ◌==◌, if◌then◌else◌}
use cortex_engine.Common.Chars.{strip_prefix, split, ends_with, replace_char}
use cortex_engine.Common.FilePath.{join_path, strip_path, components}
use cortex_engine.Memory.Store.{Store, done, save_observation}
use cortex_engine.Memory.Inbox.{after_save_observation}
use cortex_engine.Common.Map.{lookup, insert, remove}
use cortex_engine.Common.Decimal.{print, parse_i64}
use cortex_engine.Edit.Files.{text, absent, written, Workspace, Answer, find_split, Setting}
use cortex_engine.Edit.Event.{touch_event}
use cortex_engine.Edit.Replace.{call_replace_exact_text}

program : Unit {0}
unfolding call_replace_exact_text join_path strip_path components split ends_with find_split
    strip_prefix touch_event insert remove lookup after_save_observation save_observation
    replace_char parse_i64 print
program = tt

abbrev empty_store : Store
empty_store = record {
  memories = [];
  observations = [];
  next_id = 1;
  last_extracted = none;
  history = [];
  archive = [];
}

abbrev small_setting : Setting
small_setting = record {
  workspace = "/w";
  canonicalize = λ path. if path == "/w/../etc" then some "/etc" else some path;
  full_sha256 = λ s. s;
  to_uppercase = λ s. s;
  file_write = written;
  inbox_write = written;
  makes_history_dir = true;
  py_compile = λ path disk. (disk, done none);
  is_compiled = λ path. false;
  session_id = "s";
  now_text = "7";
  now_unix = 7;
}

abbrev one_file : Workspace
one_file = record {
  disk = λ path. if path == "/w/a.txt" then text "one two two" else absent;
  events = [];
  next_event = 1;
  store = empty_store;
}

found : find_split "one two two" "two" ≡ some ("one ", " two")
unfolding find_split strip_prefix
found = refl

blocked :
    call_replace_exact_text small_setting "../etc" "old text" "new" one_file
    ≡ (one_file, done Answer.traversal_blocked)
unfolding call_replace_exact_text join_path strip_path components split ends_with
blocked = refl

-- The file and the inbox after an edit.
abbrev edited : Workspace
edited = (call_replace_exact_text small_setting "a.txt" "two two" "three" one_file).0

edited_files :
    (edited.disk "/w/a.txt" ≡ text "one three")
    × (edited.disk "/w/.cortex/history/inbox.md"
        ≡ text "- [PENDING] **[edit]** Strict edit: a.txt\n")
unfolding program
edited_files = (refl, refl)
