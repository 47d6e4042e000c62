-- ===== src/Edit/Replace.antt =====
-- mcp/src/edit.rs, with the hooks of hooks.rs: the exact replacement of a text in a file of the
-- workspace.
use cortex_engine.Common.{
  ℕ, String, ◌&&◌, not, Option, none, some, ◌+++◌, if◌then◌else◌, eqb, unwrap_or,
}
use cortex_engine.Common.Chars.{ends_with}
use cortex_engine.Common.Map.{lookup, insert, remove}
use cortex_engine.Common.FilePath.{join_path}
use cortex_engine.Memory.Store.{Store, Reply, failed, done, save_observation}
use cortex_engine.Memory.Inbox.{after_save_observation}
use package.cortex_engine.Edit.Files.{
  Content, absent, unreadable, text, Written, written, not_opened, cut_short, Workspace, Answer,
  traversal_blocked, content_mismatch, replaced, find_split, put, and_then, is_absent, Setting,
}
use package.cortex_engine.Edit.Event.{
  is_inside, normalize_event_path, summary_of, put_event, event_at,
}

module _ (env : Setting) where
  -- What the compiler does and says.
  abbrev pub compile : String → Workspace → Workspace × Reply (Option String)
  compile target w =
      let (disk, said) = env.py_compile target w.disk in (record w { disk = disk }, said)

  unfoldable pub after_edit : String → Workspace → Workspace × Reply (Option String)
  after_edit file_path w =
      let target = join_path env.workspace file_path in
      if ends_with file_path ".py"
        && not (is_absent (w.disk (unwrap_or (env.canonicalize target) target)))
      then compile target w
      else (w, done none)

  abbrev pub inbox_path : String
  inbox_path = join_path env.workspace ".cortex/history/inbox.md"

  -- The store, with the inbox that the disk has.
  abbrev pub with_inbox : Content → Store → Store
  with_inbox absent s = record s { history = remove "inbox.md" s.history }
  with_inbox unreadable s = s
  with_inbox (text t) s = record s { history = insert "inbox.md" t s.history }

  -- The inbox is written, and then the mark.
  abbrev pub write_inbox : String → Option String → ℕ → Workspace → Written → Workspace × Reply ℕ
  write_inbox inbox mark inbox_items w written = (
    put inbox_path (text inbox) (record w { store = record w.store { last_extracted = mark } }),
    done inbox_items,
  )
  write_inbox inbox mark inbox_items w not_opened = (w, failed "inbox not written")
  write_inbox inbox mark inbox_items w (cut_short left) =
      (put inbox_path left w, failed "inbox not written")

  abbrev pub write_extracted : Content → Store × ℕ → Workspace → Workspace × Reply ℕ
  write_extracted absent (s, inbox_items) w =
      write_inbox (unwrap_or (lookup "inbox.md" s.history) "") s.last_extracted inbox_items w
        env.inbox_write
  write_extracted unreadable (s, inbox_items) w = (w, failed "inbox not read")
  write_extracted (text t) (s, inbox_items) w =
      write_inbox (unwrap_or (lookup "inbox.md" s.history) "") s.last_extracted inbox_items w
        env.inbox_write

  -- The hook `after_save_observation`, over the inbox of the disk. With nothing new it reads and
  -- writes no file.
  unfoldable pub extract : Workspace → Workspace × Reply ℕ
  extract w =
      let extracted =
        after_save_observation env.to_uppercase (with_inbox (w.disk inbox_path) w.store) in
      if eqb extracted.1 0
      then (w, done 0)
      else if env.makes_history_dir
      then write_extracted (w.disk inbox_path) extracted w
      else (w, failed "no history folder")

  abbrev pub save_edit : String → Workspace → Workspace
  save_edit file_path w = record w {
    store =
        save_observation env.now_unix "edit" (summary_of env file_path) (some file_path) w.store;
  }

  -- What follows the inbox, and what follows the event.
  abbrev pub after_inbox : String → ℕ → Workspace → Workspace × Reply Answer
  after_inbox file_path inbox_items w =
      and_then (after_edit file_path w)
        (λ hook_feedback w'. (w', done (replaced hook_feedback inbox_items)))

  abbrev pub after_event : String → Unit {0} → Workspace → Workspace × Reply Answer
  after_event file_path u w = and_then (extract (save_edit file_path w)) (after_inbox file_path)

  -- What follows the write of the file.
  unfoldable pub continue_edit : String → String → String → Workspace → Workspace × Reply Answer
  unfolding normalize_event_path put_event extract after_edit
  continue_edit file_path before after w =
      and_then (event_at env file_path before after w (normalize_event_path env file_path))
        (after_event file_path)

  abbrev pub write_file : String → String → Workspace → Written → Workspace × Reply Unit
  write_file full after w written = (put full (text after) w, done tt)
  write_file full after w not_opened = (w, failed "file not written")
  write_file full after w (cut_short left) = (put full left w, failed "file not written")

  -- The call once the file has been read and searched.
  abbrev pub replace_at :
      String
      → String
      → String
      → String
      → Workspace
      → Option (String × String)
      → Workspace × Reply Answer
  replace_at file_path full before new_content w none = (w, done content_mismatch)
  replace_at file_path full before new_content w (some (p, rest)) =
      let after = p +++ (new_content +++ rest) in
      and_then (write_file full after w env.file_write)
        (λ (u : Unit {0}) w1. continue_edit file_path before after w1)

  abbrev pub replace_in :
      String → String → String → String → Workspace → Content → Workspace × Reply Answer
  replace_in file_path full old_content new_content w absent = (w, failed "unreadable")
  replace_in file_path full old_content new_content w unreadable = (w, failed "unreadable")
  replace_in file_path full old_content new_content w (text before) =
      replace_at file_path full before new_content w (find_split before old_content)

  abbrev pub edit_at :
      String → String → String → Workspace → Option String → Workspace × Reply Answer
  edit_at file_path old_content new_content w none = (w, failed "no such file")
  edit_at file_path old_content new_content w (some full) =
      if is_inside env full
      then replace_in file_path full old_content new_content w (w.disk full)
      else (w, done traversal_blocked)

  unfoldable pub call_replace_exact_text :
      String → String → String → Workspace → Workspace × Reply Answer
  unfolding find_split continue_edit
  call_replace_exact_text file_path old_content new_content w =
      edit_at file_path old_content new_content w
        (env.canonicalize (join_path env.workspace file_path))
