-- ===== src/Edit/Exact.antt =====
-- mcp/src/edit.rs: what a replacement does to the files.
use cortex_engine.Common.{◌≡◌, ◌⊎◌, String, true, false, ◌==◌, ◌+++◌}
use cortex_engine.Memory.Store.{Reply}
use package.cortex_engine.Edit.Files.{text, Workspace, Answer, Setting}
use package.cortex_engine.Edit.Event.{is_inside}
use package.cortex_engine.Edit.Hooks.{is_replaced, is_failed, is_hook_file}

module _ (env : Setting) where
  -- Some file inside the workspace has the old text, and of the other files only those of the hooks
  -- have changed. The call failed, or it answers that the text has been replaced, and then the file
  -- has the new text in the place of the old one, if it is no file of the hooks itself.
  abbrev pub IsExactEdit : String → String → Workspace → Workspace × Reply Answer → Type 0
  IsExactEdit old_content new_content w (w', answer) =
      (full : String) × (before : String) × (behind : String) × (is_inside env full ≡ true)
      × (w.disk full ≡ text (before +++ (old_content +++ behind)))
      × ((other : String)
          → full == other ≡ false
          → is_hook_file env other ≡ false
          → w'.disk other ≡ w.disk other)
      × ((is_failed answer ≡ true)
          ⊎ ((is_replaced answer ≡ true)
              × ((is_hook_file env full ≡ true)
                  ⊎ (w'.disk full ≡ text (before +++ (new_content +++ behind))))))

  abbrev pub IsSafe : String → String → Workspace → Workspace × Reply Answer → Type 0
  IsSafe old_content new_content w (w', answer) =
      ((w'.disk ≡ w.disk) × (is_replaced answer ≡ false))
      ⊎ IsExactEdit old_content new_content w (w', answer)
