-- ===== src/Memory/Consolidate.antt =====
-- mcp/src/memory.rs: the table of memories after a consolidation.
use cortex_engine.Common.{
  ℕ, ◌≡◌, refl, ◌≢◌, String, Bool, true, false, Option, none, some, List, [], ◌∷◌, ◌==◌,
  if◌then◌else◌, arith, eq_iff, any, option_eq,
}
use cortex_engine.Memory.Store.{
  Memory, Store, Reply, memory_with_key, delete_memory, upsert_memory_record,
  append_markdown_with_archive, append_promoted_memory_log,
}
use cortex_engine.Memory.Inbox.{after_save_observation}
use cortex_engine.Memory.Rows.{
  memory_with_key-delete_memory, row_after_write, upsert_memory_record_effect,
}
use cortex_engine.Memory.Operations.{MemoryArgs, promote, delete_keys, call_consolidate_memory}

-- The keys to be deleted, as a set.
abbrev pub is_old_key : String → List (Option String) → Bool
is_old_key k keys = any (λ (o : Option String). option_eq o (some k)) keys

memory_with_key-delete_keys :
    (keys : List (Option String)) (ms : List Memory) (k : String)
    → memory_with_key k (delete_keys keys ms)
      ≡ (if is_old_key k keys then none else memory_with_key k ms)
unfolding delete_keys
memory_with_key-delete_keys [] ms k = refl
memory_with_key-delete_keys (none ∷ keys) ms k = memory_with_key-delete_keys keys ms k
memory_with_key-delete_keys (some key ∷ keys) ms k = ground (
  arith,
  memory_with_key-delete_keys keys (delete_memory key ms) k,
  memory_with_key-delete_memory key k ms,
  eq_iff key k,
)

memories-append_markdown :
    (now : ℕ) (file content : String) (s : Store)
    → (append_markdown_with_archive now file content s).memories ≡ s.memories
unfolding append_markdown_with_archive
memories-append_markdown now file content s = ground arith

memories-promote :
    (u : String → String) (now : ℕ) (date : String) (file : Option String) (args : MemoryArgs)
    (s : Store)
    → (promote u now date file args s).memories ≡ s.memories
unfolding append_promoted_memory_log
memories-promote u now date none args s = refl
memories-promote u now date (some file) args s = memories-append_markdown now file _ s

memories-after_save_observation :
    (u : String → String) (s : Store) → (after_save_observation u s).0.memories ≡ s.memories
unfolding after_save_observation
memories-after_save_observation u s = ground arith

-- A consolidation that is not a preview, under a key that is not empty: the new key has the new
-- contents, every old key is gone (unless it is the new one), and all other memories are as they were.
pub call_consolidate_memory_effect :
    (to_uppercase : String → String) (now : ℕ) (date : String) (args : MemoryArgs) (s : Store)
    → args.dry_run ≡ some false
    → args.key ≢ ""
    → (k : String)
    → memory_with_key k (call_consolidate_memory to_uppercase now date args s).0.memories ≡ (
        if args.key == k
        then some (
            row_after_write now args.key "default" args.category args.content args.tags
              args.relationships
              (if is_old_key args.key args.old_keys
                then none
                else memory_with_key args.key s.memories))
        else if is_old_key k args.old_keys
        then none
        else memory_with_key k s.memories)
unfolding call_consolidate_memory
call_consolidate_memory_effect to_uppercase now date args s d h k =
    let kept = delete_keys args.old_keys s.memories in
    let (after, e, rows) =
      upsert_memory_record_effect now args.key "default" args.category args.content args.tags
        args.relationships kept in
    let filled : (args.key == "") ≡ false = ground (arith, h, eq_iff args.key "") in
    rw (d, e, filled, call_consolidate_memory)
      (rw
        (
          memories-after_save_observation,
          memories-promote,
          rows,
          memory_with_key-delete_keys args.old_keys s.memories args.key,
          memory_with_key-delete_keys args.old_keys s.memories k,
        )
        refl)

-- With an empty new key, a consolidation that is not a preview fails, and the old memories are lost:
-- they are deleted before the new key is looked at, and not brought back.
pub call_consolidate_memory_loses :
    (to_uppercase : String → String) (now : ℕ) (date : String) (args : MemoryArgs) (s : Store)
    → args.dry_run ≡ some false
    → args.key ≡ ""
    → ((call_consolidate_memory to_uppercase now date args s).1
        ≡ Reply.failed "memory key is required")
      × ((k : String)
          → is_old_key k args.old_keys ≡ true
          → memory_with_key k (call_consolidate_memory to_uppercase now date args s).0.memories
            ≡ none)
unfolding call_consolidate_memory upsert_memory_record
call_consolidate_memory_loses to_uppercase now date args s d h =
    let empty : (args.key == "") ≡ true = ground (arith, h, eq_iff args.key "") in
    (
      rw (d, empty, call_consolidate_memory) refl,
      λ k old.
          rw (d, empty, call_consolidate_memory)
            (rw (memory_with_key-delete_keys args.old_keys s.memories k, old) refl),
    )
