-- ===== src/Memory/Rows.antt =====
-- mcp/src/storage_tools.rs: what the writing of a memory changes in the table.
use cortex_engine.Common.{
  ℕ, ◌+◌, ◌≡◌, refl, ◌∙◌, String, Option, none, some, List, [], ◌∷◌, ◌++◌, ◌==◌, if◌then◌else◌,
  unwrap_or, map_option, arith, eq_iff, Option-cases, inl, inr,
}
use cortex_engine.Memory.Store.{
  Memory, Reply, memory_with_key, update_memory, delete_memory, upsert_memory_record,
}

pub memory_with_key-update_memory :
    (f : Memory → Memory) (key k : String) (ms : List Memory)
    → ((m : Memory) → (f m).key ≡ m.key)
    → memory_with_key k (update_memory f key ms)
      ≡ (if key == k then map_option f (memory_with_key k ms) else memory_with_key k ms)
unfolding memory_with_key update_memory
memory_with_key-update_memory f key k [] keeps = ground arith
memory_with_key-update_memory f key k (m ∷ ms) keeps = ground (
  arith,
  memory_with_key-update_memory f key k ms keeps,
  keeps m,
  eq_iff m.key key,
  eq_iff m.key k,
  eq_iff key k,
  eq_iff (f m).key k,
)

memory_with_key-append :
    (k : String) (ms : List Memory) (new : Memory)
    → memory_with_key new.key ms ≡ none
    → memory_with_key k (ms ++ new ∷ []) ≡ (if new.key == k then some new else memory_with_key k ms)
unfolding memory_with_key
memory_with_key-append k [] new h = refl
memory_with_key-append k (m ∷ ms) new h =
    ground (
      arith,
      memory_with_key-append k ms new,
      eq_iff m.key k,
      eq_iff new.key k,
      eq_iff m.key new.key,
    )

pub memory_with_key-delete_memory :
    (key k : String) (ms : List Memory)
    → memory_with_key k (delete_memory key ms) ≡ (if key == k then none else memory_with_key k ms)
unfolding memory_with_key delete_memory
memory_with_key-delete_memory key k [] = ground arith
memory_with_key-delete_memory key k (m ∷ ms) =
    ground (
      arith,
      memory_with_key-delete_memory key k ms,
      eq_iff m.key key,
      eq_iff m.key k,
      eq_iff key k,
    )

-- The row that a write leaves under its key, for the row that was there before.
abbrev pub row_after_write :
    ℕ → String → String → String → String → Option String → Option String → Option Memory → Memory
row_after_write now key project_id category content tags relationships none = record {
  key = key;
  project_id = project_id;
  category = category;
  content = content;
  tags = unwrap_or tags "[]";
  relationships = unwrap_or relationships "{}";
  access_count = 0;
  created_at = now;
  updated_at = now;
}
row_after_write now key project_id category content tags relationships (some m) = record m {
  project_id = project_id;
  category = category;
  content = content;
  tags = unwrap_or tags "[]";
  relationships = unwrap_or relationships "{}";
  updated_at = now;
  access_count = m.access_count + 1;
}

-- A memory is written just if its key is not empty: an empty key is an error. A write gives its key the
-- new contents, with the time of creation of an older row and one access more, and leaves every other
-- key what it had.
pub upsert_memory_record_effect :
    (now : ℕ) (key project_id category content : String) (tags relationships : Option String)
    (ms : List Memory)
    → (after : List Memory) × (upsert_memory_record now key project_id category content tags
          relationships ms
        ≡ (if key == "" then Reply.failed "memory key is required" else Reply.done after))
      × ((k : String)
          → memory_with_key k after ≡ (
              if key == k
              then some (
                  row_after_write now key project_id category content tags relationships
                    (memory_with_key key ms))
              else memory_with_key k ms))
unfolding upsert_memory_record
upsert_memory_record_effect now key project_id category content tags relationships ms =
    let row = row_after_write now key project_id category content tags relationships in
    elim (Option-cases (memory_with_key key ms)) [
      | inl e ↦ (
        ms ++ row none ∷ [],
        rw (e, upsert_memory_record) refl,
        λ k. rw (e, memory_with_key) (memory_with_key-append k ms (row none) e),
      )
      | inr (m, e) ↦ (
        update_memory (λ x. row (some x)) key ms,
        rw (e, upsert_memory_record) refl,
        λ k.
            memory_with_key-update_memory (λ x. row (some x)) key k ms (λ x. refl)
            ∙ ground (arith, e, eq_iff key k),
      )
    ]
