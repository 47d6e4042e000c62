-- ===== src/Context/Search/Order.antt =====
-- mcp/src/query_context.rs: the sort of the lines of a search, and the length of their capsule.
use cortex_engine.Common.{
  ℕ, ◌≤◌, ◌≡◌, refl, ◌∙◌, String, len, Bool, true, false, ◌&&◌, ◌||◌, not, Option, List, [], ◌∷◌,
  ◌==◌, if◌then◌else◌, ltb, eqb, leb, contains, is_distinct, unwrap_or, take_chars, char_count,
  char_count-take_chars, map, arith, eq_iff,
}
use Prim.Native.String.len
use text.Mathlib.TextPositions.{len_utf8-pos}
use package.cortex_engine.Context.Search.{
  RankedContextLine, comes_first, insert_line, sort_lines, Found, capsule_of, call_search_context,
  default_search_token_budget,
}

char_count-le-len : (s : String) → char_count s ≤ len s
unfolding char_count
char_count-le-len String.[] = omega arith
char_count-le-len (String.◌∷◌ c s) =
    omega (arith, len.cons c s, (len_utf8-pos c).1, char_count-le-len s)

-- The capsule of a search has at most as many characters as the budget that it reports.
pub call_search_context_bound :
    (found : Found) (token_budget : Option ℕ)
    → char_count (call_search_context found token_budget).capsule
      ≤ unwrap_or token_budget default_search_token_budget
unfolding call_search_context capsule_of
call_search_context_bound found token_budget = pick _ (ltb budget (len _)) refl
  where
    budget : ℕ
    budget = unwrap_or token_budget default_search_token_budget

    pick :
        (s : String) (b : Bool)
        → ltb budget (len s) ≡ b
        → char_count (if b then take_chars budget s else s) ≤ budget
    pick s true e = char_count-take_chars budget s
    pick s false e = ground (arith, e, char_count-le-len s)

unfoldable pub keys : List RankedContextLine → List String
keys lines = map (λ (l : RankedContextLine). l.key) lines

-- The score of no line is less than that of the line behind it.
abbrev leads : ℕ → List RankedContextLine → Bool
leads n [] = true
leads n (b ∷ lines) = leb b.score n

abbrev pub is_ranked : List RankedContextLine → Bool
is_ranked [] = true
is_ranked (a ∷ lines) = leads a.score lines && is_ranked lines

comes_first_score :
    (a b : RankedContextLine)
    → (comes_first a b ≡ true → leb b.score a.score ≡ true)
      × (comes_first a b ≡ false → leb a.score b.score ≡ true)
comes_first_score a b = pick _
  where
    pick :
        (tie : Bool)
        → (ltb b.score a.score || (eqb b.score a.score && tie) ≡ true → leb b.score a.score ≡ true)
          × (ltb b.score a.score || (eqb b.score a.score && tie) ≡ false
              → leb a.score b.score ≡ true)
    pick tie = (λ h. ground (arith, h), λ h. ground (arith, h))

leads-insert_line :
    (n : ℕ) (a : RankedContextLine) (lines : List RankedContextLine)
    → leads n lines ≡ true
    → leb a.score n ≡ true
    → leads n (insert_line a lines) ≡ true
unfolding insert_line
leads-insert_line n a [] h k = k
leads-insert_line n a (b ∷ lines) h k = pick (comes_first a b)
  where
    pick :
        (first : Bool) → leads n (if first then a ∷ b ∷ lines else b ∷ insert_line a lines) ≡ true
    pick true = k
    pick false = h

is_ranked-insert_line :
    (a : RankedContextLine) (lines : List RankedContextLine)
    → is_ranked lines ≡ true
    → is_ranked (insert_line a lines) ≡ true
unfolding insert_line
is_ranked-insert_line a [] h = refl
is_ranked-insert_line a (b ∷ lines) h =
    pick (comes_first a b) refl (is_ranked-insert_line a lines (ground (arith, h)))
  where
    pick :
        (first : Bool)
        → comes_first a b ≡ first
        → is_ranked (insert_line a lines) ≡ true
        → is_ranked (if first then a ∷ b ∷ lines else b ∷ insert_line a lines) ≡ true
    pick true e rest = ground (arith, h, (comes_first_score a b).0 e)
    pick false e rest = ground (
      arith,
      rest,
      leads-insert_line b.score a lines (ground (arith, h)) ((comes_first_score a b).1 e),
    )

pub is_ranked-sort_lines : (lines : List RankedContextLine) → is_ranked (sort_lines lines) ≡ true
unfolding sort_lines
is_ranked-sort_lines [] = refl
is_ranked-sort_lines (a ∷ lines) =
    is_ranked-insert_line a (sort_lines lines) (is_ranked-sort_lines lines)

contains-insert_line :
    (k : String) (a : RankedContextLine) (lines : List RankedContextLine)
    → contains k (keys (insert_line a lines)) ≡ (a.key == k) || contains k (keys lines)
unfolding insert_line contains keys
contains-insert_line k a [] = refl
contains-insert_line k a (b ∷ lines) = ground (arith, contains-insert_line k a lines)

pub contains-sort_lines :
    (k : String) (lines : List RankedContextLine)
    → contains k (keys (sort_lines lines)) ≡ contains k (keys lines)
unfolding sort_lines contains keys
contains-sort_lines k [] = refl
contains-sort_lines k (a ∷ lines) =
    contains-insert_line k a (sort_lines lines) ∙ ground (arith, contains-sort_lines k lines)

is_distinct-insert_line :
    (a : RankedContextLine) (lines : List RankedContextLine)
    → is_distinct (keys (insert_line a lines))
      ≡ not (contains a.key (keys lines)) && is_distinct (keys lines)
unfolding insert_line contains keys is_distinct
is_distinct-insert_line a [] = refl
is_distinct-insert_line a (b ∷ lines) = ground (
  arith,
  is_distinct-insert_line a lines,
  contains-insert_line b.key a lines,
  eq_iff a.key b.key,
  eq_iff b.key a.key,
)

pub is_distinct-sort_lines :
    (lines : List RankedContextLine)
    → is_distinct (keys (sort_lines lines)) ≡ is_distinct (keys lines)
unfolding sort_lines keys is_distinct
is_distinct-sort_lines [] = refl
is_distinct-sort_lines (a ∷ lines) =
    is_distinct-insert_line a (sort_lines lines)
    ∙ ground (arith, is_distinct-sort_lines lines, contains-sort_lines a.key lines)
