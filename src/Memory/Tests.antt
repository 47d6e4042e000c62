-- ===== src/Memory/Tests.antt =====
-- A small store, and the theorems applied to it.
use cortex_engine.Common.{
  ◌≡◌, ◌≢◌, refl, String, true, false, none, some, List, [], ◌∷◌, if◌then◌else◌, ◌==◌, is_distinct,
  arith, contains, eq_iff,
}
use cortex_engine.Common.Decimal.{parse_u64}
use cortex_engine.Memory.Store.{Memory, Store, Reply, memory_with_key, upsert_memory_record}
use cortex_engine.Memory.Inbox.{max_id, after_save_observation}
use cortex_engine.Memory.Operations.{MemoryArgs, call_consolidate_memory}
use cortex_engine.Memory.Rows.{row_after_write, upsert_memory_record_effect}
use cortex_engine.Memory.Extraction.{IsExtracted, after_save_observation_effect}
use cortex_engine.Memory.Consolidate.{
  is_old_key, call_consolidate_memory_effect, call_consolidate_memory_loses,
}
use cortex_engine.Memory.Todo.{Todo, max_todo_id, todo_ids, manage_todos, manage_todos-is_distinct}

abbrev memory : String → String → Memory
memory key content = record {
  key = key;
  project_id = "default";
  category = "insight";
  content = content;
  tags = "[]";
  relationships = "{}";
  access_count = 0;
  created_at = 1;
  updated_at = 1;
}

abbrev store : Store
store = record {
  memories = memory "a" "one" ∷ memory "b" "two" ∷ [];
  observations =
      record { id = 1; obs_type = "insight"; content = "seen"; file_paths = none; created_at = 1 }
      ∷ [];
  next_id = 2;
  last_extracted = none;
  history = [];
  archive = [];
}

abbrev same_case : String → String
same_case s = s

abbrev merge : String → MemoryArgs
merge key = record {
  key = key;
  category = "insight";
  content = "one and two";
  tags = none;
  relationships = none;
  old_keys = some "a" ∷ some "b" ∷ [];
  dry_run = some false;
}

not_empty : (merge "ab").key ≢ ""
not_empty h = ground (arith, (eq_iff (merge "ab").key "").1 h)

one_new : (after_save_observation same_case store).1 ≡ 1
unfolding after_save_observation
one_new = refl

upsert_memory_record_effect_example :
    (after : List Memory) × (upsert_memory_record 5 "ab" "default" "rule" "text" none none
        store.memories
      ≡ (if "ab" == "" then Reply.failed "memory key is required" else Reply.done after))
    × ((k : String)
        → memory_with_key k after ≡ (
            if "ab" == k
            then some (
                row_after_write 5 "ab" "default" "rule" "text" none none
                  (memory_with_key "ab" store.memories))
            else memory_with_key k store.memories))
upsert_memory_record_effect_example =
    upsert_memory_record_effect 5 "ab" "default" "rule" "text" none none store.memories

after_save_observation_effect_example :
    IsExtracted same_case store (after_save_observation same_case store)
unfolding max_id
after_save_observation_effect_example = after_save_observation_effect same_case store (omega arith)

call_consolidate_memory_effect_example :
    memory_with_key "a" (call_consolidate_memory same_case 5 "today" (merge "ab") store).0.memories
    ≡ (if "ab" == "a"
        then some (
            row_after_write 5 "ab" "default" "insight" "one and two" none none (
              if is_old_key "ab" (merge "ab").old_keys
              then none
              else memory_with_key "ab" store.memories))
        else if is_old_key "a" (merge "ab").old_keys
        then none
        else memory_with_key "a" store.memories)
call_consolidate_memory_effect_example =
    call_consolidate_memory_effect same_case 5 "today" (merge "ab") store refl not_empty "a"

call_consolidate_memory_loses_example :
    ((call_consolidate_memory same_case 5 "today" (merge "") store).1
      ≡ Reply.failed "memory key is required")
    × ((k : String)
        → is_old_key k (merge "").old_keys ≡ true
        → memory_with_key k
            (call_consolidate_memory same_case 5 "today" (merge "") store).0.memories
          ≡ none)
call_consolidate_memory_loses_example =
    call_consolidate_memory_loses same_case 5 "today" (merge "") store refl refl

abbrev two_todos : List Todo
two_todos =
    record { id = some "1"; task = "x"; is_done = false; created_at = "t"; completed_at = none }
    ∷ record { id = some "7"; task = "y"; is_done = true; created_at = "t"; completed_at = none }
    ∷ []

highest : max_todo_id two_todos ≡ 7
unfolding max_todo_id parse_u64
highest = refl

manage_todos-is_distinct_example :
    is_distinct (todo_ids (manage_todos "now" "add" "z" "" two_todos).0) ≡ true
unfolding is_distinct todo_ids contains
manage_todos-is_distinct_example =
    manage_todos-is_distinct "now" "add" "z" "" two_todos (omega (arith, highest)) refl
