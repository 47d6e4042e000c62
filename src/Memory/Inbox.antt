-- ===== src/Memory/Inbox.antt =====
-- mcp/src/hooks.rs: new observations are copied to the inbox.
use cortex_engine.Common.{
  ℕ, String, not, Option, none, some, List, [], ◌∷◌, ◌+++◌, if◌then◌else◌, ltb, filter, length,
  unwrap_or, is_empty,
}
use cortex_engine.Common.Chars.{replace_char}
use cortex_engine.Common.Int.{ℤ, pos, lebℤ}
use cortex_engine.Common.Map.{lookup, insert}
use cortex_engine.Common.Decimal.{print, parse_i64}
use cortex_engine.Memory.Store.{Observation, Store}

-- The mark as a number: 0 if it is missing or is not one.
abbrev pub parsed_mark : Option String → ℤ
parsed_mark none = pos 0
parsed_mark (some value) = unwrap_or (parse_i64 value) (pos 0)

unfoldable pub last_id : Store → ℤ
last_id s = parsed_mark s.last_extracted

-- `SELECT … WHERE id > ? ORDER BY id ASC`: observations stand in the order of their numbers.
unfoldable pub new_observations : ℤ → List Observation → List Observation
new_observations last observations =
    filter (λ (o : Observation). not (lebℤ (pos o.id) last)) observations

unfoldable pub max_id : List Observation → ℕ
max_id [] = 0
max_id (o ∷ os) = let rest = max_id os in if ltb rest o.id then o.id else rest

-- `str::to_uppercase` is a parameter.
module _ (to_uppercase : String → String) where
  unfoldable pub inbox_lines : List Observation → String
  inbox_lines [] = ""
  inbox_lines (o ∷ os) =
      ("- [PENDING] **["
        +++ (to_uppercase o.obs_type +++ ("]** " +++ (replace_char 10 " " o.content +++ "\n"))))
      +++ inbox_lines os

  unfoldable pub after_save_observation : Store → Store × ℕ
  unfolding last_id new_observations max_id inbox_lines
  after_save_observation s =
      let observations = new_observations (last_id s) s.observations in
      if is_empty observations then (s, 0) else (
        record s {
          history =
              insert "inbox.md"
                (unwrap_or (lookup "inbox.md" s.history) "" +++ inbox_lines observations) s.history;
          last_extracted = some (print (max_id observations));
        },
        length observations,
      )
