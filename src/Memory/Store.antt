-- ===== src/Memory/Store.antt =====
-- mcp/src/storage_tools.rs and memory.rs: the table of memories, the observations, and the texts of the
-- history folder.
use cortex_engine.Common.{
  ℕ, zero, suc, ◌+◌, ◌-◌, ◌*◌, String, len, not, Option, none, some, List, [], ◌∷◌, ◌++◌, ◌==◌,
  ◌+++◌, if◌then◌else◌, ltb, filter, unwrap_or, text_is_empty, is_some, take_chars, char_count,
}
use cortex_engine.Common.Chars.{ends_with}
use cortex_engine.Common.Map.{Map, lookup, insert}
use cortex_engine.Common.Decimal.{print}

-- `tags` and `relationships` are the texts of their JSON.
pub record Memory : Type 0 where
  pub key : String
  pub project_id : String
  pub category : String
  pub content : String
  pub tags : String
  pub relationships : String
  pub access_count : ℕ
  pub created_at : ℕ
  pub updated_at : ℕ

pub record Observation : Type 0 where
  pub id : ℕ
  pub obs_type : String
  pub content : String
  pub file_paths : Option String
  pub created_at : ℕ

-- `next_id` is the next number of the AUTOINCREMENT column, `last_extracted` the row
-- `last_extracted_obs_id` of meta; `history` and `archive` are folders.
pub record Store : Type 0 where
  pub memories : List Memory
  pub observations : List Observation
  pub next_id : ℕ
  pub last_extracted : Option String
  pub history : Map String
  pub archive : Map String

pub data Reply (A : Type 0) : Type 0 where
  failed : String → Reply A
  done : A → Reply A

unfoldable pub memory_with_key : String → List Memory → Option Memory
memory_with_key key [] = none
memory_with_key key (m ∷ ms) = if m.key == key then some m else memory_with_key key ms

-- `UPDATE memories SET … WHERE key = ?`.
unfoldable pub update_memory : (Memory → Memory) → String → List Memory → List Memory
update_memory f key [] = []
update_memory f key (m ∷ ms) = (if m.key == key then f m else m) ∷ update_memory f key ms

-- `DELETE FROM memories WHERE key = ?`.
unfoldable pub delete_memory : String → List Memory → List Memory
delete_memory key ms = filter (λ (m : Memory). not (m.key == key)) ms

unfoldable pub upsert_memory_record :
    ℕ
    → String
    → String
    → String
    → String
    → Option String
    → Option String
    → List Memory
    → Reply (List Memory)
unfolding memory_with_key update_memory
upsert_memory_record now key project_id category content tags relationships ms =
    let tags = unwrap_or tags "[]" in
    let relationships = unwrap_or relationships "{}" in
    if text_is_empty key
    then Reply.failed "memory key is required"
    else if is_some (memory_with_key key ms)
    then Reply.done (
        update_memory
          (λ m. record m {
            project_id = project_id;
            category = category;
            content = content;
            tags = tags;
            relationships = relationships;
            updated_at = now;
            access_count = m.access_count + 1;
          })
          key ms)
    else Reply.done (
        ms
        ++ record {
          key = key;
          project_id = project_id;
          category = category;
          content = content;
          tags = tags;
          relationships = relationships;
          access_count = 0;
          created_at = now;
          updated_at = now;
        }
          ∷ [])

unfoldable pub save_observation : ℕ → String → String → Option String → Store → Store
save_observation now obs_type content file_path s = record s {
  observations =
      s.observations
      ++ record {
        id = s.next_id;
        obs_type = obs_type;
        content = content;
        file_paths = file_path;
        created_at = now;
      }
        ∷ [];
  next_id = s.next_id + 1;
}

-- `trim_end_matches(".md")`, on fuel.
unfoldable pub trim_md : ℕ → String → String
trim_md zero name = name
trim_md (suc fuel) name =
    let shorter = trim_md fuel (take_chars (char_count name - 3) name) in
    if ends_with name ".md" then shorter else name

-- A text over 50 KiB is moved to the archive before the new lines are written.
unfoldable pub append_markdown_with_archive : ℕ → String → String → Store → Store
unfolding trim_md
append_markdown_with_archive now target_filename content s =
    let archived =
      trim_md (char_count target_filename) target_filename +++ ("_" +++ (print now +++ ".md")) in
    elim (lookup target_filename s.history) [
      | none ↦ record s { history = insert target_filename content s.history }
      | some text ↦
          if ltb (50 * 1024) (len text)
          then record s {
            archive = insert archived text s.archive;
            history = insert target_filename content s.history;
          }
          else record s { history = insert target_filename (text +++ content) s.history }
    ]

unfoldable pub append_promoted_memory_log :
    ℕ → String → String → String → String → String → Store → Store
unfolding append_markdown_with_archive
append_promoted_memory_log now date target_file category title content s =
    append_markdown_with_archive now target_file
      ("\n### ["
        +++ (date
            +++ ("] "
                +++ (title
                    +++ ("\n- **Category**: "
                        +++ (category +++ ("\n- **Content**: " +++ (content +++ "\n"))))))))
      s
