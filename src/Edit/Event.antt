-- ===== src/Edit/Event.antt =====
-- mcp/src/edit.rs: the row of an edit's event.
use cortex_engine.Common.{
  ◌+◌, String, Bool, ◌&&◌, none, some, List, [], ◌∷◌, ◌++◌, ◌==◌, ◌+++◌, if◌then◌else◌, any,
  is_some, unwrap_or,
}
use cortex_engine.Common.Chars.{forward_slashes}
use cortex_engine.Common.FilePath.{join_path, strip_path}
use cortex_engine.Memory.Store.{Reply, failed, done}
use package.cortex_engine.Edit.Files.{EditEvent, Workspace, Setting}

module _ (env : Setting) where
  -- `full_path.starts_with(&workspace)`, by components.
  abbrev pub is_inside : String → Bool
  is_inside path = is_some (strip_path path env.workspace)

  unfoldable pub normalize_event_path : String → Reply String
  normalize_event_path file_path =
      let target = join_path env.workspace file_path in
      elim (strip_path (unwrap_or (env.canonicalize target) target) env.workspace) [
        | none ↦ failed ("Invalid edit event path outside workspace: " +++ file_path)
        | some rel ↦ done (forward_slashes rel)
      ]

  -- The row is of this file, these hashes and this session.
  abbrev pub is_same_event : String → String → String → EditEvent → Bool
  is_same_event path before_hash after_hash e =
      e.file_path == path
      && (e.before_hash == before_hash
          && (e.after_hash == after_hash && e.session_id == env.session_id))

  abbrev pub summary_of : String → String
  summary_of file_path = "Strict edit: " +++ file_path

  -- The first matching row is brought up to date.
  unfoldable pub touch_event : String → String → String → String → List EditEvent → List EditEvent
  touch_event path before_hash after_hash summary [] = []
  touch_event path before_hash after_hash summary (e ∷ es) =
      let rest = touch_event path before_hash after_hash summary es in
      if is_same_event path before_hash after_hash e
      then record e {
        updated_at = env.now_text;
        tool_name = "replace_exact_text";
        edit_summary = summary;
      }
        ∷ es
      else e ∷ rest

  unfoldable pub put_event : String → String → String → String → Workspace → Workspace
  unfolding touch_event
  put_event path file_path before_hash after_hash w =
      if any (is_same_event path before_hash after_hash) w.events
      then record w {
        events = touch_event path before_hash after_hash (summary_of file_path) w.events;
      }
      else record w {
        events =
            w.events
            ++ record {
              id = w.next_event;
              file_path = path;
              before_hash = before_hash;
              after_hash = after_hash;
              tool_name = "replace_exact_text";
              event_sources = "cortex_mcp";
              session_id = env.session_id;
              edit_summary = summary_of file_path;
              created_at = env.now_text;
              updated_at = env.now_text;
            }
              ∷ [];
        next_event = w.next_event + 1;
      }

  -- `record_edit_event`, from the normalized path.
  abbrev pub event_at : String → String → String → Workspace → Reply String → Workspace × Reply Unit
  event_at file_path before after w (failed e) = (w, failed e)
  event_at file_path before after w (done path) =
      (put_event path file_path (env.full_sha256 before) (env.full_sha256 after) w, done tt)
