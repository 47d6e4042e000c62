-- ===== src/Edit/Files.antt =====
-- mcp/src/edit.rs: the files, the events and the environment of an edit, and the search in a text.
use Prim.Native.Char.{Char}
use cortex_engine.Common.{
  ℕ, String, Bool, true, false, Option, none, some, List, ◌==◌, if◌then◌else◌,
}
use cortex_engine.Common.Chars.{strip_prefix}
use cortex_engine.Memory.Store.{Store, Reply, failed, done}

-- A row of `file_edit_events`.
pub record EditEvent : Type 0 where
  pub id : ℕ
  pub file_path : String
  pub before_hash : String
  pub after_hash : String
  pub tool_name : String
  pub event_sources : String
  pub session_id : String
  pub edit_summary : String
  pub created_at : String
  pub updated_at : String

-- What stands at a path: nothing, something that is not read as a text, or a text.
pub data Content : Type 0 where
  absent : Content
  unreadable : Content
  text : String → Content

-- All files, by their real paths.
abbrev pub Disk : Type 0
Disk = String → Content

-- What `fs::write` does: it writes the text, cannot open the file, or fails later and leaves
-- something else behind.
pub data Written : Type 0 where
  written : Written
  not_opened : Written
  cut_short : Content → Written

-- The files, the inbox of the history among them, and the database, which is the `store` without its
-- folders.
pub record Workspace : Type 0 where
  pub disk : Disk
  pub events : List EditEvent
  pub next_event : ℕ
  pub store : Store

-- The answers that are no errors of the call.
pub data Answer : Type 0 where
  traversal_blocked : Answer
  content_mismatch : Answer
  replaced : Option String → ℕ → Answer

-- The place after a character, from whether the text begins here and from what follows.
abbrev pub split_here : Char → Option String → Option (String × String) → Option (String × String)
split_here c (some rest) later = some (String.[], rest)
split_here c none none = none
split_here c none (some (p, rest)) = some (String.◌∷◌ c p, rest)

abbrev pub split_at_end : Option String → Option (String × String)
split_at_end none = none
split_at_end (some rest) = some (String.[], rest)

-- What stands before and behind the first place of a text, which `find` gives as an index.
unfoldable pub find_split : String → String → Option (String × String)
unfolding strip_prefix
find_split String.[] t = split_at_end (strip_prefix String.[] t)
find_split (String.◌∷◌ c s) t = split_here c (strip_prefix (String.◌∷◌ c s) t) (find_split s t)

abbrev pub put : String → Content → Workspace → Workspace
put path content w = record w { disk = λ other. if path == other then content else w.disk other }

-- `?` on a result.
abbrev pub and_then :
    {A : Type 0} {B : Type 0}
    → Workspace × Reply A
    → (A → Workspace → Workspace × Reply B)
    → Workspace × Reply B
and_then (w, failed e) next = (w, failed e)
and_then (w, done a) next = next a w

abbrev pub is_absent : Content → Bool
is_absent absent = true
is_absent unreadable = false
is_absent (text s) = false

-- The environment of a call: `canonicalize`, the outcomes of the two `fs::write` and of `create_dir_all`, and the
-- Python compiler with the files that it may write are the operating system's, the hash is SHA-256,
-- and the clock is read once.
pub record Setting : Type 0 where
  pub workspace : String
  pub canonicalize : String → Option String
  pub full_sha256 : String → String
  pub to_uppercase : String → String
  pub file_write : Written
  pub inbox_write : Written
  pub makes_history_dir : Bool
  pub py_compile : String → Disk → Disk × Reply (Option String)
  pub is_compiled : String → Bool
  pub session_id : String
  pub now_text : String
  pub now_unix : ℕ
