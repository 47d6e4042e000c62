-- ===== src/Memory/Operations.antt =====
-- mcp/src/memory.rs: the tools that write and read memories.
use cortex_engine.Common.{
  ℕ, ◌+◌, String, Bool, true, Option, none, some, List, [], ◌∷◌, ◌==◌, ◌||◌, if◌then◌else◌,
  unwrap_or, length,
}
use cortex_engine.Memory.Store.{
  Memory, Store, Reply, memory_with_key, update_memory, delete_memory, upsert_memory_record,
  save_observation, append_promoted_memory_log,
}
use cortex_engine.Memory.Inbox.{after_save_observation}

unfoldable pub target_file_for_write_category : String → Option String
target_file_for_write_category category =
    if category == "decision" || category == "architecture"
    then some "decisions.md"
    else if category == "pattern"
        || (category == "convention" || (category == "rule" || category == "protocol"))
    then some "patterns.md"
    else none

unfoldable pub target_file_for_consolidate_category : String → Option String
target_file_for_consolidate_category category =
    if category == "decision" || category == "architecture"
    then some "decisions.md"
    else if category == "pattern" || (category == "convention" || category == "rule")
    then some "patterns.md"
    else none

-- `args`, read with `arg_str`; `old_keys` has `none` for what is no text.
pub record MemoryArgs : Type 0 where
  pub key : String
  pub category : String
  pub content : String
  pub tags : Option String
  pub relationships : Option String
  pub old_keys : List (Option String)
  pub dry_run : Option Bool

pub record Written : Type 0 where
  pub key : String
  pub promoted_to : Option String
  pub inbox_items : ℕ

pub data Consolidation : Type 0 where
  preview : List (Option String) → Option String → Consolidation
  executed : Written → ℕ → Consolidation

unfoldable pub delete_keys : List (Option String) → List Memory → List Memory
unfolding delete_memory
delete_keys [] ms = ms
delete_keys (none ∷ keys) ms = delete_keys keys ms
delete_keys (some key ∷ keys) ms = delete_keys keys (delete_memory key ms)

module _ (to_uppercase : String → String) (now : ℕ) (date : String) where
  abbrev pub promote : Option String → MemoryArgs → Store → Store
  promote none args s = s
  promote (some file) args s =
      append_promoted_memory_log now date file args.category args.key args.content s

  abbrev pub written : Option String → MemoryArgs → Store × ℕ → Store × Written
  written file args (s, items) =
      (s, record { key = args.key; promoted_to = file; inbox_items = items })

  -- What follows a successful write of the row.
  abbrev pub finish_write : Option String → MemoryArgs → List Memory → Store → Store × Written
  finish_write file args memories s =
      written file args
        (after_save_observation to_uppercase (promote file args (record s { memories = memories })))

  abbrev pub write_row : MemoryArgs → Store → Reply (List Memory)
  write_row args s =
      upsert_memory_record now args.key "default" args.category args.content args.tags
        args.relationships s.memories

  unfoldable pub call_write_memory : MemoryArgs → Store → Store × Reply Written
  unfolding target_file_for_write_category after_save_observation upsert_memory_record
  call_write_memory args s =
      let file = target_file_for_write_category args.category in
      elim (write_row args s) [
        | Reply.failed e ↦ (s, Reply.failed e)
        | Reply.done memories ↦
            let (s', w) = finish_write file args memories s in (s', Reply.done w)
      ]

  unfoldable pub call_consolidate_memory : MemoryArgs → Store → Store × Reply Consolidation
  unfolding target_file_for_consolidate_category after_save_observation delete_keys
      upsert_memory_record
  call_consolidate_memory args s =
      let file = target_file_for_consolidate_category args.category in
      let deleted = record s { memories = delete_keys args.old_keys s.memories } in
      if unwrap_or args.dry_run true
      then (s, Reply.done (Consolidation.preview args.old_keys file))
      else elim (write_row args deleted) [
        | Reply.failed e ↦ (deleted, Reply.failed e)
        | Reply.done memories ↦
            let (s', w) = finish_write file args memories deleted in
            (s', Reply.done (Consolidation.executed w (length args.old_keys)))
      ]

  unfoldable pub call_save_observation : String → Store → Store × ℕ
  unfolding save_observation
  call_save_observation content s =
      after_save_observation to_uppercase (save_observation now "insight" content none s)

-- The row as it was read, before the count goes up.
unfoldable pub call_read_memory : String → Store → Store × Option Memory
unfolding memory_with_key update_memory
call_read_memory key s = elim (memory_with_key key s.memories) [
  | none ↦ (s, none)
  | some m ↦ (
    record s {
      memories =
          update_memory (λ (m : Memory). record m { access_count = m.access_count + 1 }) key
            s.memories;
    },
    some m,
  )
]
