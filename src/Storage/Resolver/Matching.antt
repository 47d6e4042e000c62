-- ===== src/Storage/Resolver/Matching.antt =====
-- storage/src/resolver.rs: the candidates for an edge's target, from the strongest hint to the
-- weakest.
use cortex_engine.Common.{
  String, Bool, ◌&&◌, not, Option, none, some, List, [], ◌∷◌, ◌++◌, ◌==◌, if◌then◌else◌, any,
  filter, contains, is_some, unwrap_or, last_or, find?, ◌+++◌,
}
use cortex_engine.Common.Chars.{strip_prefix, rsplit_once, split_colons, replace_char}
use cortex_engine.Common.Map.{Map, lookup, insert}
use cortex_engine.Storage.Records.{unresolved_fqn_prefix}
use cortex_engine.Storage.Tables.{NodeRow, EdgeRow}

pub record Candidate : Type 0 where
  pub id : String
  pub name : String
  pub fqn : String
  pub language : String
  pub kind : String

-- The name that the edge carries, or the last piece of its target.
unfoldable pub target_name : EdgeRow → String
target_name edge = elim edge.target_name [
  | some name ↦ name
  | none ↦ last_or edge.target_id (split_colons edge.target_id)
]

-- `insert` of a hash set.
abbrev pub add_to_set : String → List String → List String
add_to_set s set = if contains s set then set else s ∷ set

abbrev add_optional : Option String → List String → List String
add_optional none set = set
add_optional (some s) set = add_to_set s set

-- The module path and the class name of a target `__unresolved_fqn__::module.path.Class`.
unfoldable pub dotted_parts : String → Option (String × String)
dotted_parts target_id = elim (strip_prefix target_id unresolved_fqn_prefix) [
  | none ↦ none
  | some dotted ↦ rsplit_once 46 dotted
]

abbrev dotted_name : Option (String × String) → Option String
dotted_name none = none
dotted_name (some (_, cls)) = some cls

-- The names and the qualified names that the edges ask for.
unfoldable pub collect_targets : List EdgeRow → List String × List String
unfolding target_name dotted_parts
collect_targets [] = ([], [])
collect_targets (edge ∷ edges) =
    let (names, fqns) = collect_targets edges in
    (
      add_optional (dotted_name (dotted_parts edge.target_id))
          (add_to_set (target_name edge) names),
      add_optional edge.target_fqn_hint fqns,
    )

unfoldable pub candidate_of_row : NodeRow → Candidate
candidate_of_row row = record {
  id = row.id;
  name = row.name;
  fqn = row.fqn;
  language = row.language;
  kind = row.node_type;
}

-- `by_id.entry(id).or_insert(candidate)` for the rows that a query returns.
unfoldable pub fetch_candidates_by_field :
    (NodeRow → Bool) → List NodeRow → List Candidate → List Candidate
unfolding candidate_of_row
fetch_candidates_by_field wanted [] by_id = by_id
fetch_candidates_by_field wanted (row ∷ rows) by_id = fetch_candidates_by_field wanted rows (
    if wanted row && not (any (λ (c : Candidate). c.id == row.id) by_id)
    then by_id ++ candidate_of_row row ∷ []
    else by_id)

-- `fetch_candidates`: by name first, then by qualified name.
unfoldable pub candidates_of : List String → List String → List NodeRow → List Candidate
unfolding fetch_candidates_by_field
candidates_of names fqns rows =
    fetch_candidates_by_field (λ row. contains row.fqn fqns) rows
      (fetch_candidates_by_field (λ row. contains row.name names) rows [])

-- `map.entry(key).or_default().push(candidate)`.
abbrev pub push_under : String → Candidate → Map (List Candidate) → Map (List Candidate)
push_under key c m = insert key (unwrap_or (lookup key m) [] ++ c ∷ []) m

-- The two maps of `build_lookup_maps`.
unfoldable pub group_by :
    (Candidate → String) → List Candidate → Map (List Candidate) → Map (List Candidate)
group_by key [] m = m
group_by key (c ∷ cs) m = group_by key cs (push_under (key c) c m)

unfoldable pub lookup_by_name : List Candidate → Map (List Candidate)
unfolding group_by
lookup_by_name cs = group_by (λ c. c.name) cs []

unfoldable pub lookup_by_fqn : List Candidate → Map (List Candidate)
unfolding group_by
lookup_by_fqn cs = group_by (λ c. c.fqn) cs []

abbrev pub under : String → Map (List Candidate) → List Candidate
under key m = unwrap_or (lookup key m) []

unfoldable pub match_by_fqn_hint : Option String → Map (List Candidate) → List Candidate
match_by_fqn_hint none by_fqn = []
match_by_fqn_hint (some hint) by_fqn = under hint by_fqn

abbrev pub dotted_matches : Option (String × String) → Map (List Candidate) → List Candidate
dotted_matches none by_name = []
dotted_matches (some (mod_path, cls)) by_name =
    filter (λ c. is_some (find? c.fqn (replace_char 46 "/" mod_path +++ ("::" +++ cls))))
      (under cls by_name)

unfoldable pub match_by_dotted_fqn_fallback : String → Map (List Candidate) → List Candidate
unfolding dotted_parts
match_by_dotted_fqn_fallback target_id by_name = dotted_matches (dotted_parts target_id) by_name

unfoldable pub match_by_kind_hint : List Candidate → Option String → Option String → List Candidate
match_by_kind_hint cs (some lang) (some kind) =
    filter (λ c. c.language == lang && c.kind == kind) cs
match_by_kind_hint cs lang kind = []

unfoldable pub match_by_language : List Candidate → Option String → List Candidate
match_by_language cs none = []
match_by_language cs (some lang) = filter (λ c. c.language == lang) cs

-- The first list that is not empty; a later one is only read if need be.
abbrev pub or_else : List Candidate → List Candidate → List Candidate
or_else [] ds = ds
or_else (c ∷ cs) ds = c ∷ cs

unfoldable pub resolve_one :
    EdgeRow → Option String → Map (List Candidate) → Map (List Candidate) → List Candidate
unfolding match_by_fqn_hint match_by_dotted_fqn_fallback match_by_kind_hint match_by_language
    target_name
resolve_one edge lang by_name by_fqn =
    let named = under (target_name edge) by_name in
    or_else (match_by_fqn_hint edge.target_fqn_hint by_fqn) (
      or_else (match_by_dotted_fqn_fallback edge.target_id by_name) (
        or_else (match_by_kind_hint named lang edge.target_kind_hint)
          (or_else (match_by_language named lang) named)))
