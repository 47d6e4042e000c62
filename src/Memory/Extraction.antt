-- ===== src/Memory/Extraction.antt =====
-- mcp/src/hooks.rs: the mark that the inbox hook leaves behind.
use cortex_engine.Common.{
  ℕ, ◌^◌, ◌≤◌, ◌<◌, ◌≡◌, ◌∙◌, refl, sym, ap, subst, String, true, false, some, List, [], ◌∷◌,
  is_empty, ◌⊎◌, ◌==◌, if◌then◌else◌, length, suc, eq_refl, arith, Bool-cases, inl, inr, unwrap_or,
  ◌+++◌,
}
use cortex_engine.Common.Int.{ℤ, pos, negsuc, lebℤ}
use cortex_engine.Common.Decimal.{print, parse_i64, parse_i64-print}
use cortex_engine.Common.Map.{lookup, insert, lookup-insert}
use text.Mathlib.TextLemmas.{append-nil}
use cortex_engine.Common.Chars.{replace_char}
use cortex_engine.Memory.Store.{Observation, Store}
use cortex_engine.Memory.Inbox.{
  last_id, new_observations, max_id, inbox_lines, after_save_observation,
}

-- Nothing is newer than the greatest number of what was newer than a mark below it.
none_newer :
    (last : ℤ) (top : ℕ) (observations : List Observation)
    → lebℤ last (pos top) ≡ true
    → max_id (new_observations last observations) ≤ top
    → new_observations (pos top) observations ≡ []
unfolding new_observations max_id
none_newer last top [] h k = refl
none_newer (pos l) top (o ∷ os) h k = ground (arith, h, k, none_newer (pos l) top os)
none_newer (negsuc l) top (o ∷ os) h k = ground (arith, h, k, none_newer (negsuc l) top os)

mark_below :
    (last : ℤ) (observations : List Observation)
    → is_empty (new_observations last observations) ≡ false
    → lebℤ last (pos (max_id (new_observations last observations))) ≡ true
unfolding new_observations max_id
mark_below last [] h = absurd (ground (arith, h))
mark_below (pos l) (o ∷ os) h = ground (arith, h, mark_below (pos l) os)
mark_below (negsuc l) (o ∷ os) h = ground arith

max_id-new_observations :
    (last : ℤ) (observations : List Observation)
    → max_id (new_observations last observations) ≤ max_id observations
unfolding new_observations max_id
max_id-new_observations last [] = omega arith
max_id-new_observations last (o ∷ os) = ground (arith, max_id-new_observations last os)

nothing_new :
    (to_uppercase : String → String) (s : Store)
    → is_empty (new_observations (last_id s) s.observations) ≡ true
    → after_save_observation to_uppercase s ≡ (s, 0)
unfolding after_save_observation
nothing_new to_uppercase s e = rw (e, after_save_observation) refl

something_new :
    (to_uppercase : String → String) (s : Store)
    → let new = new_observations (last_id s) s.observations in
      is_empty new ≡ false
      → after_save_observation to_uppercase s ≡ (
        record s {
          history =
              insert "inbox.md"
                (unwrap_or (lookup "inbox.md" s.history) "" +++ inbox_lines to_uppercase new)
                s.history;
          last_extracted = some (print (max_id new));
        },
        length new,
      )
unfolding after_save_observation
something_new to_uppercase s e = rw (e, after_save_observation) refl

-- The entries of the observations above a mark, one line each, in their order.
unfoldable pub fresh_text : (String → String) → ℤ → List Observation → String
fresh_text to_uppercase mark [] = ""
fresh_text to_uppercase mark (o ∷ os) =
    let rest = fresh_text to_uppercase mark os in
    if lebℤ (pos o.id) mark
    then rest
    else ("- [PENDING] **["
        +++ (to_uppercase o.obs_type +++ ("]** " +++ (replace_char 10 " " o.content +++ "\n"))))
      +++ rest

-- How many observations are above a mark.
unfoldable pub fresh_count : ℤ → List Observation → ℕ
fresh_count mark [] = 0
fresh_count mark (o ∷ os) =
    let rest = fresh_count mark os in if lebℤ (pos o.id) mark then rest else suc rest

inbox_lines-new_observations :
    (to_uppercase : String → String) (mark : ℤ) (os : List Observation)
    → inbox_lines to_uppercase (new_observations mark os) ≡ fresh_text to_uppercase mark os
unfolding inbox_lines new_observations fresh_text
inbox_lines-new_observations to_uppercase mark [] = refl
inbox_lines-new_observations to_uppercase mark (o ∷ os) =
    ground (arith, inbox_lines-new_observations to_uppercase mark os)

length-new_observations :
    (mark : ℤ) (os : List Observation) → length (new_observations mark os) ≡ fresh_count mark os
unfolding new_observations fresh_count
length-new_observations mark [] = refl
length-new_observations mark (o ∷ os) = ground (arith, length-new_observations mark os)

-- The text of the inbox.
abbrev pub inbox_of : Store → String
inbox_of s = unwrap_or (lookup "inbox.md" s.history) ""

-- What the hook leaves and answers.
pub record IsExtracted (to_uppercase : String → String) (s : Store) (result : Store × ℕ)
    : Type 0 where
  pub copied : inbox_of result.0 ≡ inbox_of s +++ fresh_text to_uppercase (last_id s) s.observations
  pub counted : result.1 ≡ fresh_count (last_id s) s.observations
  pub other_files :
      (name : String)
      → ("inbox.md" == name) ≡ false
      → lookup name result.0.history ≡ lookup name s.history
  pub kept : (result.0.observations ≡ s.observations) × (result.0.memories ≡ s.memories)
  pub once : after_save_observation to_uppercase result.0 ≡ (result.0, 0)

-- The hook adds to the inbox one line for every observation above the mark, in their order, and says
-- how many; the other files of the history, the observations and the memories are as before; and run
-- again right after, it finds nothing and changes nothing. The numbers of the observations fit an i64.
pub after_save_observation_effect :
    (to_uppercase : String → String) (s : Store)
    → max_id s.observations < 2 ^ 63
    → IsExtracted to_uppercase s (after_save_observation to_uppercase s)
unfolding last_id inbox_lines
after_save_observation_effect to_uppercase s h = pick (Bool-cases (is_empty new))
  where
    new : List Observation
    new = new_observations (last_id s) s.observations

    top : ℕ
    top = max_id new

    read : parse_i64 (print top) ≡ some (pos top)
    read =
        parse_i64-print top (omega (arith, h, max_id-new_observations (last_id s) s.observations))

    marked : Store
    marked = record s {
      history = insert "inbox.md" (inbox_of s +++ inbox_lines to_uppercase new) s.history;
      last_extracted = some (print top);
    }

    unmarked : (o : List Observation) → is_empty o ≡ true → o ≡ []
    unmarked [] e = refl
    unmarked (x ∷ xs) e = absurd (cc)

    pick :
        ((is_empty new ≡ true) ⊎ (is_empty new ≡ false))
        → IsExtracted to_uppercase s (after_save_observation to_uppercase s)
    pick (inl e) =
        let nothing = unmarked new e in
        subst (IsExtracted to_uppercase s) (sym (nothing_new to_uppercase s e)) (record {
          copied =
              sym (append-nil (inbox_of s))
              ∙ ap (λ t. inbox_of s +++ t)
                  (ap (inbox_lines to_uppercase) (sym nothing)
                    ∙ inbox_lines-new_observations to_uppercase (last_id s) s.observations);
          counted = ap length (sym nothing) ∙ length-new_observations (last_id s) s.observations;
          other_files = λ name apart. refl;
          kept = (refl, refl);
          once = nothing_new to_uppercase s e;
        })
    pick (inr e) =
        let none_left =
          none_newer (last_id s) top s.observations (mark_below (last_id s) s.observations e)
            (omega arith) in
        let same : after_save_observation to_uppercase s ≡ (marked, length new) =
          something_new to_uppercase s e in
        subst (IsExtracted to_uppercase s) (sym same) (record {
          copied =
              ap (λ o. unwrap_or o "")
                (lookup-insert "inbox.md" "inbox.md" (inbox_of s +++ inbox_lines to_uppercase new)
                    s.history
                  ∙ ap
                      (λ b.
                        if b
                        then some (inbox_of s +++ inbox_lines to_uppercase new)
                        else lookup "inbox.md" s.history)
                      (eq_refl "inbox.md"))
              ∙ ap (λ t. inbox_of s +++ t)
                  (inbox_lines-new_observations to_uppercase (last_id s) s.observations);
          counted = length-new_observations (last_id s) s.observations;
          other_files = λ name apart.
              lookup-insert "inbox.md" name (inbox_of s +++ inbox_lines to_uppercase new) s.history
              ∙ ap
                  (λ b.
                    if b
                    then some (inbox_of s +++ inbox_lines to_uppercase new)
                    else lookup name s.history)
                  apart;
          kept = (refl, refl);
          once = nothing_new to_uppercase marked (rw (read, last_id) (rw none_left refl));
        })
