-- ===== src/Context/Session.antt =====
-- mcp/src/query_context.rs: `call_get_session_context`. What the queries on memories return, and the
-- lanes of the board's file, are arguments.
use cortex_engine.Common.{
  ℕ, ◌+◌, String, len, Option, none, some, List, [], ◌∷◌, ◌++◌, ◌+++◌, if◌then◌else◌, leb, any,
  find?, is_some, unwrap_or, take_chars, join, length,
}
use cortex_engine.Common.Decimal.{print}

abbrev pub default_session_token_budget : ℕ
default_session_token_budget = 2000

pub record Sections : Type 0 where
  pub sections : List String
  pub total_chars : ℕ

unfoldable pub snippet : String → ℕ → String
snippet text max_chars = take_chars max_chars text

unfoldable pub append_with_budget : ℕ → String → Sections → Sections
append_with_budget token_budget entry s =
    if leb (s.total_chars + len entry) token_budget
    then record { sections = s.sections ++ entry ∷ []; total_chars = s.total_chars + len entry }
    else s

pub record MemoryRow : Type 0 where
  pub key : String
  pub category : String
  pub content : String
  pub access_count : ℕ

unfoldable pub append_memory_entries : ℕ → String → List MemoryRow → Sections → Sections
unfolding snippet append_with_budget
append_memory_entries token_budget category [] s = s
append_memory_entries token_budget category (row ∷ rows) s =
    append_memory_entries token_budget category rows (
      append_with_budget token_budget
        ("[" +++ (category +++ ("] " +++ (row.key +++ (": " +++ snippet row.content 150))))) s)

abbrev pub popular_entry : MemoryRow → String
popular_entry row =
    "["
    +++ (row.category
        +++ ("] "
            +++ (row.key
                +++ (" (hits:"
                    +++ (print row.access_count +++ ("): " +++ snippet row.content 100))))))

unfoldable pub append_popular_entries : ℕ → List MemoryRow → Sections → Sections
unfolding append_with_budget
append_popular_entries token_budget [] s = s
append_popular_entries token_budget (row ∷ rows) s = append_popular_entries token_budget rows (
    if any (λ section. is_some (find? section row.key)) s.sections
    then s
    else append_with_budget token_budget (popular_entry row) s)

abbrev pub contract_entry : String → String → String
contract_entry lane_id contract_id = "[contract] lane=" +++ (lane_id +++ (": " +++ contract_id))

unfoldable pub append_contract_entries : List (String × Option String) → Sections → Sections
append_contract_entries [] s = s
append_contract_entries ((lane_id, none) ∷ lanes) s = append_contract_entries lanes s
append_contract_entries ((lane_id, some contract_id) ∷ lanes) s =
    append_contract_entries lanes (record {
      sections = s.sections ++ contract_entry lane_id contract_id ∷ [];
      total_chars = s.total_chars + len (contract_entry lane_id contract_id);
    })

pub record SessionContext : Type 0 where
  pub context : String
  pub total_chars : ℕ
  pub item_count : ℕ

abbrev pub within_budget : ℕ → List MemoryRow → List MemoryRow → List MemoryRow → Sections
within_budget budget decisions patterns popular = append_popular_entries budget popular (
    append_memory_entries budget "pattern" patterns (
      append_memory_entries budget "decision" decisions
        (record { sections = []; total_chars = 0 })))

abbrev pub session_sections :
    Option ℕ
    → List MemoryRow
    → List MemoryRow
    → List MemoryRow
    → List (String × Option String)
    → Sections
session_sections token_budget decisions patterns popular lanes =
    append_contract_entries lanes (
      within_budget (unwrap_or token_budget default_session_token_budget) decisions patterns
        popular)

unfoldable pub call_get_session_context :
    Option ℕ
    → List MemoryRow
    → List MemoryRow
    → List MemoryRow
    → List (String × Option String)
    → SessionContext
unfolding append_memory_entries append_popular_entries append_contract_entries
call_get_session_context token_budget decisions patterns popular lanes =
    let s = session_sections token_budget decisions patterns popular lanes in
    record {
      context = join "\n" s.sections;
      total_chars = s.total_chars;
      item_count = length s.sections;
    }
