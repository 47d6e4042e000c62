-- ===== src/Context/Budget.antt =====
-- mcp/src/query_context.rs: the total of the session's context.
use cortex_engine.Common.{
  ℕ, ◌+◌, ◌≤◌, ◌≡◌, refl, String, len, Bool, true, false, Option, none, some, List, [], ◌∷◌, ◌++◌,
  if◌then◌else◌, leb, any, find?, is_some, unwrap_or, arith, leb→le,
}
use cortex_engine.Context.Session.{
  Sections, MemoryRow, append_with_budget, append_memory_entries, append_popular_entries,
  append_contract_entries, contract_entry, popular_entry, within_budget, session_sections,
  call_get_session_context, default_session_token_budget,
}

-- The bytes of the texts.
unfoldable pub total_len : List String → ℕ
total_len [] = 0
total_len (s ∷ ss) = len s + total_len ss

total_len-append : (ss : List String) (s : String) → total_len (ss ++ s ∷ []) ≡ total_len ss + len s
unfolding total_len
total_len-append [] s = omega arith
total_len-append (t ∷ ts) s = omega (arith, total_len-append ts s)

-- The total is that of the sections, and within the budget.
abbrev IsWithin : ℕ → Sections → Type 0
IsWithin budget s = (s.total_chars ≡ total_len s.sections) × (s.total_chars ≤ budget)

append_with_budget-IsWithin :
    (budget : ℕ) (entry : String) (s : Sections)
    → IsWithin budget s
    → IsWithin budget (append_with_budget budget entry s)
unfolding append_with_budget
append_with_budget-IsWithin budget entry s (e, h) =
    pick (leb (s.total_chars + len entry) budget) refl
  where
    pick :
        (b : Bool)
        → leb (s.total_chars + len entry) budget ≡ b
        → IsWithin budget (
            if b
            then record {
              sections = s.sections ++ entry ∷ [];
              total_chars = s.total_chars + len entry;
            }
            else s)
    pick true k = (omega (arith, e, total_len-append s.sections entry), leb→le _ _ k)
    pick false k = (e, h)

append_memory_entries-IsWithin :
    (budget : ℕ) (category : String) (rows : List MemoryRow) (s : Sections)
    → IsWithin budget s
    → IsWithin budget (append_memory_entries budget category rows s)
unfolding append_memory_entries
append_memory_entries-IsWithin budget category [] s h = h
append_memory_entries-IsWithin budget category (row ∷ rows) s h =
    append_memory_entries-IsWithin budget category rows _ (append_with_budget-IsWithin budget _ s h)

append_popular_entries-IsWithin :
    (budget : ℕ) (rows : List MemoryRow) (s : Sections)
    → IsWithin budget s
    → IsWithin budget (append_popular_entries budget rows s)
unfolding append_popular_entries
append_popular_entries-IsWithin budget [] s h = h
append_popular_entries-IsWithin budget (row ∷ rows) s h =
    append_popular_entries-IsWithin budget rows _
      (pick (any (λ section. is_some (find? section row.key)) s.sections))
  where
    pick :
        (b : Bool)
        → IsWithin budget (if b then s else append_with_budget budget (popular_entry row) s)
    pick true = h
    pick false = append_with_budget-IsWithin budget (popular_entry row) s h

-- The bytes of the contracts' entries.
unfoldable pub contracts_len : List (String × Option String) → ℕ
contracts_len [] = 0
contracts_len ((lane_id, none) ∷ lanes) = contracts_len lanes
contracts_len ((lane_id, some contract_id) ∷ lanes) =
    len (contract_entry lane_id contract_id) + contracts_len lanes

append_contract_entries-total :
    (lanes : List (String × Option String)) (s : Sections)
    → s.total_chars ≡ total_len s.sections
    → ((append_contract_entries lanes s).total_chars
        ≡ total_len (append_contract_entries lanes s).sections)
      × ((append_contract_entries lanes s).total_chars ≡ s.total_chars + contracts_len lanes)
unfolding append_contract_entries contracts_len
append_contract_entries-total [] s e = (e, omega arith)
append_contract_entries-total ((lane_id, none) ∷ lanes) s e =
    append_contract_entries-total lanes s e
append_contract_entries-total ((lane_id, some contract_id) ∷ lanes) s e =
    let (p, q) =
      append_contract_entries-total lanes
        (record {
          sections = s.sections ++ contract_entry lane_id contract_id ∷ [];
          total_chars = s.total_chars + len (contract_entry lane_id contract_id);
        })
        (omega (arith, e, total_len-append s.sections (contract_entry lane_id contract_id))) in
    (p, omega (arith, q))

-- The token_budget counts bytes, not tokens: the reported total is the number of bytes of the sections,
-- and without the entries for contracts it is within the budget. Those entries are added whole,
-- whatever the budget is, so that the total is at least their bytes.
pub call_get_session_context_total :
    (token_budget : Option ℕ) (decisions patterns popular : List MemoryRow)
    (lanes : List (String × Option String))
    → let total =
        (call_get_session_context token_budget decisions patterns popular lanes).total_chars in
      (total ≡ total_len (session_sections token_budget decisions patterns popular lanes).sections)
      × (contracts_len lanes ≤ total)
      × (total ≤ unwrap_or token_budget default_session_token_budget + contracts_len lanes)
unfolding call_get_session_context total_len
call_get_session_context_total token_budget decisions patterns popular lanes =
    let budget = unwrap_or token_budget default_session_token_budget in
    let (e, h) = append_popular_entries-IsWithin budget popular _ (
      append_memory_entries-IsWithin budget "pattern" patterns _ (
        append_memory_entries-IsWithin budget "decision" decisions
          (record { sections = []; total_chars = 0 }) (refl, omega arith))) in
    let (p, q) =
      append_contract_entries-total lanes (within_budget budget decisions patterns popular) e in
    (p, omega (arith, q), omega (arith, q, h))
