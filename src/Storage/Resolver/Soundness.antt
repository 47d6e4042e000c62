-- ===== src/Storage/Resolver/Soundness.antt =====
-- storage/src/resolver.rs: lemmas on the candidates and the matches that are proposed for an edge.
use cortex_engine.Common.{
  ◌≡◌, String, Bool, true, false, Option, none, some, List, [], ◌∷◌, ◌++◌, ◌==◌, if◌then◌else◌, map,
  contains, unwrap_or, arith, eq_iff, All, All-append, All-filter,
}
use cortex_engine.Common.Map.{Map, lookup, lookup-insert}
use cortex_engine.Storage.Tables.{NodeRow, EdgeRow}
use cortex_engine.Storage.Resolver.Matching.{
  Candidate, candidate_of_row, fetch_candidates_by_field, candidates_of, push_under, group_by,
  lookup_by_name, lookup_by_fqn, under, match_by_fqn_hint, match_by_dotted_fqn_fallback,
  match_by_kind_hint, match_by_language, or_else, resolve_one, target_name, dotted_parts,
  dotted_matches,
}

abbrev pub node_ids : List NodeRow → List String
node_ids rows = map (λ (row : NodeRow). row.id) rows

-- The candidate's identifier is that of one of the nodes.
abbrev pub IsNode : List String → Candidate → Type 0
IsNode ids c = contains c.id ids ≡ true

fetched-All :
    (ids : List String) (wanted : NodeRow → Bool) (rows : List NodeRow) (by_id : List Candidate)
    → All (λ (row : NodeRow). contains row.id ids ≡ true) rows
    → All (IsNode ids) by_id
    → All (IsNode ids) (fetch_candidates_by_field wanted rows by_id)
unfolding fetch_candidates_by_field candidate_of_row
fetched-All ids wanted [] by_id known h = h
fetched-All ids wanted (row ∷ rows) by_id (k, known) h =
    fetched-All ids wanted rows _ known (pick _)
  where
    pick : (b : Bool) → All (IsNode ids) (if b then by_id ++ candidate_of_row row ∷ [] else by_id)
    pick true = All-append (IsNode ids) by_id _ h (k, tt)
    pick false = h

rows-All :
    (ids : List String) (rows : List NodeRow)
    → ((id : String) → contains id (node_ids rows) ≡ true → contains id ids ≡ true)
    → All (λ (row : NodeRow). contains row.id ids ≡ true) rows
unfolding contains
rows-All ids [] sub = tt
rows-All ids (row ∷ rows) sub = (
  sub row.id (ground (arith, eq_iff row.id row.id)),
  rows-All ids rows (λ id h. sub id (ground (arith, eq_iff row.id id))),
)

pub candidates_of-All :
    (names fqns : List String) (rows : List NodeRow)
    → All (IsNode (node_ids rows)) (candidates_of names fqns rows)
unfolding candidates_of
candidates_of-All names fqns rows =
    fetched-All (node_ids rows) _ rows _ (rows-All _ rows (λ id h. h))
      (fetched-All (node_ids rows) _ rows [] (rows-All _ rows (λ id h. h)) tt)

module _ (P : Candidate → Type 0) where
  -- Every list of the map is of such candidates.
  abbrev pub AllUnder : Map (List Candidate) → Type 0
  AllUnder m = (key : String) → All P (under key m)

  push_under-All :
      (key : String) (c : Candidate) (m : Map (List Candidate))
      → P c
      → AllUnder m
      → AllUnder (push_under key c m)
  push_under-All key c m p h other =
      rw (lookup-insert key other (under key m ++ c ∷ []) m) (pick (key == other))
    where
      pick :
          (b : Bool)
          → All P (unwrap_or (if b then some (under key m ++ c ∷ []) else lookup other m) [])
      pick true = All-append P (under key m) _ (h key) (p, tt)
      pick false = h other

  group_by-All :
      (key : Candidate → String) (cs : List Candidate) (m : Map (List Candidate))
      → All P cs
      → AllUnder m
      → AllUnder (group_by key cs m)
  unfolding group_by
  group_by-All key [] m h k = k
  group_by-All key (c ∷ cs) m (p, h) k =
      group_by-All key cs (push_under (key c) c m) h (push_under-All (key c) c m p k)

  no_lists : AllUnder []
  unfolding lookup
  no_lists key = tt

  pub lookup_by_name-All : (cs : List Candidate) → All P cs → AllUnder (lookup_by_name cs)
  unfolding lookup_by_name
  lookup_by_name-All cs h = group_by-All _ cs [] h no_lists

  pub lookup_by_fqn-All : (cs : List Candidate) → All P cs → AllUnder (lookup_by_fqn cs)
  unfolding lookup_by_fqn
  lookup_by_fqn-All cs h = group_by-All _ cs [] h no_lists

  or_else-All : (cs ds : List Candidate) → All P cs → All P ds → All P (or_else cs ds)
  or_else-All [] ds h k = k
  or_else-All (c ∷ cs) ds h k = h

  hinted-All :
      (hint : Option String) (m : Map (List Candidate))
      → AllUnder m
      → All P (match_by_fqn_hint hint m)
  unfolding match_by_fqn_hint
  hinted-All none m h = tt
  hinted-All (some fqn) m h = h fqn

  dotted_matches-All :
      (parts : Option (String × String)) (m : Map (List Candidate))
      → AllUnder m
      → All P (dotted_matches parts m)
  dotted_matches-All none m h = tt
  dotted_matches-All (some (mod_path, cls)) m h = All-filter P _ (under cls m) (h cls)

  dotted-All :
      (target : String) (m : Map (List Candidate))
      → AllUnder m
      → All P (match_by_dotted_fqn_fallback target m)
  unfolding match_by_dotted_fqn_fallback
  dotted-All target m h = dotted_matches-All (dotted_parts target) m h

  kind-All :
      (cs : List Candidate) (lang kind : Option String)
      → All P cs
      → All P (match_by_kind_hint cs lang kind)
  unfolding match_by_kind_hint
  kind-All cs none kind h = tt
  kind-All cs (some lang) none h = tt
  kind-All cs (some lang) (some kind) h = All-filter P _ cs h

  language-All :
      (cs : List Candidate) (lang : Option String) → All P cs → All P (match_by_language cs lang)
  unfolding match_by_language
  language-All cs none h = tt
  language-All cs (some lang) h = All-filter P _ cs h

  pub resolve_one-All :
      (edge : EdgeRow) (lang : Option String) (by_name by_fqn : Map (List Candidate))
      → AllUnder by_name
      → AllUnder by_fqn
      → All P (resolve_one edge lang by_name by_fqn)
  unfolding resolve_one
  resolve_one-All edge lang by_name by_fqn h k =
      let named = h (target_name edge) in
      or_else-All _ _ (hinted-All edge.target_fqn_hint by_fqn k) (
        or_else-All _ _ (dotted-All edge.target_id by_name h) (
          or_else-All _ _ (kind-All _ lang edge.target_kind_hint named)
            (or_else-All _ _ (language-All _ lang named) named)))
