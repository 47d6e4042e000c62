-- ===== src/Edit/Hooks.antt =====
-- mcp/src/edit.rs and hooks.rs: which files the hooks of an edit change.
use cortex_engine.Common.{
  ℕ, ◌≡◌, refl, ap, ◌∙◌, ◌⊎◌, inl, inr, String, Bool, true, false, Option, none, ◌==◌, ◌||◌, ◌&&◌,
  if◌then◌else◌, eqb, arith, eq_refl, eq_iff, subst, Bool-cases, not, unwrap_or,
}
use cortex_engine.Common.Chars.{ends_with}
use cortex_engine.Common.FilePath.{join_path}
use cortex_engine.Memory.Inbox.{after_save_observation}
use cortex_engine.Memory.Store.{Store, Reply, failed, done}
use package.cortex_engine.Edit.Files.{
  Content, absent, unreadable, text, Disk, Written, written, not_opened, cut_short, Workspace,
  Answer, replaced, put, and_then, is_absent, Setting,
}
use package.cortex_engine.Edit.Event.{normalize_event_path, put_event, event_at}
use package.cortex_engine.Edit.Replace.{
  compile, after_edit, inbox_path, with_inbox, write_inbox, write_extracted, extract, save_edit,
  after_inbox, after_event, continue_edit,
}

-- The answer says that the text has been replaced, or is an error.
abbrev pub is_replaced : Reply Answer → Bool
is_replaced (failed e) = false
is_replaced (done Answer.traversal_blocked) = false
is_replaced (done Answer.content_mismatch) = false
is_replaced (done (replaced hook_feedback inbox_items)) = true

abbrev pub is_failed : {A : Type 0} → Reply A → Bool
is_failed (failed e) = true
is_failed (done a) = false

either_disk :
    (b : Bool) (u v : Workspace) (disk : Disk)
    → u.disk ≡ disk
    → v.disk ≡ disk
    → (if b then u else v).disk ≡ disk
either_disk true u v disk h k = h
either_disk false u v disk h k = k

module _ (env : Setting) where
  -- The hooks write the file: it is the inbox, or one of the files of the Python compiler.
  abbrev pub is_hook_file : String → Bool
  is_hook_file path = inbox_path env == path || env.is_compiled path

  -- Only files of the hooks have changed.
  abbrev pub HooksOnly : Disk → Disk → Type 0
  HooksOnly d d' = (path : String) → is_hook_file path ≡ false → d' path ≡ d path

  abbrev pub Observed : Workspace → Workspace × Reply Answer → Type 0
  Observed w (w', answer) =
      HooksOnly w.disk w'.disk × ((is_failed answer ≡ true) ⊎ (is_replaced answer ≡ true))

  and_then-Observed :
      {A : Type 0} (w : Workspace) (first : Workspace × Reply A)
      (next : A → Workspace → Workspace × Reply Answer)
      → HooksOnly w.disk first.0.disk
      → ((a : A) (w' : Workspace) → Observed w' (next a w'))
      → Observed w (and_then first next)
  and_then-Observed w (w', failed e) next h k = (h, inl refl)
  and_then-Observed w (w', done a) next h k =
      let rest = k a w' in ((λ path apart. rest.0 path apart ∙ h path apart), rest.1)

  put-HooksOnly :
      (path : String) (content : Content) (w : Workspace)
      → is_hook_file path ≡ true
      → HooksOnly w.disk (put path content w).disk
  put-HooksOnly path content w hook other apart = elim (Bool-cases (path == other)) [
    | inl same ↦
        let e : path ≡ other = (eq_iff path other).0 same in
        let hook_too = subst (λ q. is_hook_file q ≡ true) e hook in absurd (cc)
    | inr differs ↦ ap (λ b. if b then content else w.disk other) differs
  ]

  write_inbox-HooksOnly :
      (s : String) (last : Option String) (n : ℕ) (w : Workspace)
      → HooksOnly w.disk (write_inbox env s last n w env.inbox_write).0.disk
  write_inbox-HooksOnly s last n w = pick env.inbox_write
    where
      pick : (o : Written) → HooksOnly w.disk (write_inbox env s last n w o).0.disk
      pick written =
          put-HooksOnly (inbox_path env) (text s) w (ground (arith, eq_refl (inbox_path env)))
      pick not_opened = λ path apart. refl
      pick (cut_short c) =
          put-HooksOnly (inbox_path env) c w (ground (arith, eq_refl (inbox_path env)))

  extract-HooksOnly : (w : Workspace) → HooksOnly w.disk (extract env w).0.disk
  unfolding extract
  extract-HooksOnly w = pick (eqb extracted.1 0) env.makes_history_dir (w.disk (inbox_path env))
    where
      extracted : Store × ℕ
      extracted =
          after_save_observation env.to_uppercase (with_inbox env (w.disk (inbox_path env)) w.store)

      saved :
          (content : Content) → HooksOnly w.disk (write_extracted env content extracted w).0.disk
      saved absent = write_inbox-HooksOnly _ _ _ w
      saved unreadable = λ path apart. refl
      saved (text t) = write_inbox-HooksOnly _ _ _ w

      pick :
          (nothing makes : Bool) (content : Content)
          → HooksOnly w.disk
              (if nothing
                then (w, done 0)
                else if makes
                then write_extracted env content extracted w
                else (w, failed "no history folder")).0.disk
      pick true makes content = λ path apart. refl
      pick false true content = saved content
      pick false false content = λ path apart. refl

  event_at-disk :
      (file_path before after : String) (w : Workspace) (path : Reply String)
      → (event_at env file_path before after w path).0.disk ≡ w.disk
  unfolding put_event
  event_at-disk file_path before after w (failed e) = refl
  event_at-disk file_path before after w (done path) = either_disk _ _ _ w.disk refl refl

  module _
      (compiles : (target path : String) (disk : Disk)
        → env.is_compiled path ≡ false
        → (env.py_compile target disk).0 path ≡ disk path) where
    after_edit-HooksOnly :
        (file_path : String) (w : Workspace) → HooksOnly w.disk (after_edit env file_path w).0.disk
    unfolding after_edit
    after_edit-HooksOnly file_path w = pick (
        ends_with file_path ".py"
        && not (is_absent (w.disk (unwrap_or (env.canonicalize target) target))))
      where
        target : String
        target = join_path env.workspace file_path

        pick :
            (b : Bool)
            → HooksOnly w.disk (if b then compile env target w else (w, done none)).0.disk
        pick true = λ path apart. compiles target path w.disk (ground (arith, apart))
        pick false = λ path apart. refl

    after_inbox-Observed :
        (file_path : String) (inbox_items : ℕ) (w : Workspace)
        → Observed w (after_inbox env file_path inbox_items w)
    after_inbox-Observed file_path inbox_items w =
        and_then-Observed w (after_edit env file_path w)
          (λ hook_feedback w'. (w', done (replaced hook_feedback inbox_items)))
          (after_edit-HooksOnly file_path w) (λ feedback w'. ((λ path apart. refl), inr refl))

    after_event-Observed :
        (file_path : String) (u : Unit {0}) (w : Workspace)
        → Observed w (after_event env file_path u w)
    after_event-Observed file_path u w =
        and_then-Observed w (extract env (save_edit env file_path w)) (after_inbox env file_path)
          (extract-HooksOnly (save_edit env file_path w)) (after_inbox-Observed file_path)

    pub continue_edit-Observed :
        (file_path before after : String) (w : Workspace)
        → Observed w (continue_edit env file_path before after w)
    unfolding continue_edit
    continue_edit-Observed file_path before after w =
        let path = normalize_event_path env file_path in
        and_then-Observed w (event_at env file_path before after w path) (after_event env file_path)
          (λ other apart. ap (λ d. d other) (event_at-disk file_path before after w path))
          (after_event-Observed file_path)
