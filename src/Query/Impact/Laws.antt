-- ===== src/Query/Impact/Laws.antt =====
-- mcp/src/query_code.rs: the loop of `call_get_impact_graph`, its fuel and its nodes.
use cortex_engine.Common.{
  ℕ, zero, suc, ◌+◌, ◌-◌, ◌%◌, ◌^◌, ◌≤◌, ◌<◌, ◌≡◌, refl, sym, ◌∙◌, subst, ◌⊎◌, inl, inr, String,
  Bool, true, false, ◌||◌, Option, some, List, [], ◌∷◌, ◌++◌, if◌then◌else◌, leb, length, map,
  contains, unwrap_or, arith, All, All-append, length-append, is_distinct, is_distinct-append,
  Bool-cases,
}
use cortex_engine.Storage.Tables.{Db}
use cortex_engine.Query.Nodes.{Node, GraphHelper, get_node_by_fqn, graph_or_sql_neighbors}
use cortex_engine.Query.Impact.{
  Search, has_node, see_neighbor, see_neighbors, visit, search_loop, start_search, report,
  call_get_impact_graph, default_impact_direction, default_impact_max_depth,
  default_impact_max_nodes,
}

has_node-contains :
    (id : String) (nodes : List Node)
    → has_node id nodes ≡ contains id (map (λ (m : Node). m.id) nodes)
unfolding contains
has_node-contains id [] = refl
has_node-contains id (n ∷ ns) = cc (has_node-contains id ns)

node_ids-append :
    (nodes : List Node) (n : Node)
    → map (λ (m : Node). m.id) (nodes ++ n ∷ []) ≡ map (λ (m : Node). m.id) nodes ++ n.id ∷ []
node_ids-append [] n = refl
node_ids-append (m ∷ ms) n = cc (node_ids-append ms n)

-- One of the nodes of a list.
unfoldable pub IsAmong : Node → List Node → Type 0
IsAmong n [] = ⊥
IsAmong n (m ∷ ms) = (n ≡ m) ⊎ IsAmong n ms

pub IsAmong-All :
    (all ns : List Node) → ((n : Node) → IsAmong n ns → IsAmong n all) → All (λ n. IsAmong n all) ns
unfolding IsAmong
IsAmong-All all [] sub = tt
IsAmong-All all (n ∷ ns) sub = (sub n (inl refl), IsAmong-All all ns (λ m h. sub m (inr h)))

-- A chain of neighbours from the first node, with its length.
pub data Reach (neighbors_of : Node → List Node) (root : Node) : Node → ℕ → Type 0 where
  here : Reach neighbors_of root root 0
  step :
      {current next : Node} {depth : ℕ}
      → Reach neighbors_of root current depth
      → IsAmong next (neighbors_of current)
      → Reach neighbors_of root next (depth + 1)

-- What a turn of the loop leaves to be done: the queue, and the room in the answer.
abbrev work : ℕ → Search → ℕ
work max_nodes s = length s.queue + (max_nodes - length s.impact_nodes)

work-see_neighbor :
    (max_nodes depth : ℕ) (n : Node) (s : Search)
    → work max_nodes (see_neighbor max_nodes depth n s) ≡ work max_nodes s
unfolding see_neighbor
work-see_neighbor max_nodes depth n s =
    ground
      (arith, length-append s.queue ((n, depth + 1) ∷ []), length-append s.impact_nodes (n ∷ []))

work-see_neighbors :
    (max_nodes depth : ℕ) (ns : List Node) (s : Search)
    → work max_nodes (see_neighbors max_nodes depth ns s) ≡ work max_nodes s
unfolding see_neighbors
work-see_neighbors max_nodes depth [] s = refl
work-see_neighbors max_nodes depth (n ∷ ns) s =
    work-see_neighbors max_nodes depth ns (see_neighbor max_nodes depth n s)
    ∙ work-see_neighbor max_nodes depth n s

module _ (neighbors_of : Node → List Node) (max_depth max_nodes : ℕ) where
  work-visit :
      (n : Node) (depth : ℕ) (s : Search)
      → work max_nodes (visit neighbors_of max_depth max_nodes n depth s) ≡ work max_nodes s
  unfolding visit
  work-visit n depth s = ground (
    arith,
    work-see_neighbors max_nodes depth (neighbors_of n) (record s { visited = n.id ∷ s.visited }),
  )

  search_loop_ends :
      (fuel : ℕ) (s : Search)
      → work max_nodes s < fuel
      → (r : Search) × (search_loop neighbors_of max_depth max_nodes fuel s ≡ some r)
  unfolding search_loop
  search_loop_ends zero s h = absurd (omega (arith, h))
  search_loop_ends (suc fuel) s h = turn (λ s' h'. search_loop_ends fuel s' h') s.queue refl
    where
      turn :
          ((s' : Search)
            → work max_nodes s' < fuel
            → (r : Search) × (search_loop neighbors_of max_depth max_nodes fuel s' ≡ some r))
          → (queue : List (Node × ℕ)) → s.queue ≡ queue
          → (r : Search) × ((elim queue [
            | [] ↦ some s
            | (n, depth) ∷ rest ↦
                search_loop neighbors_of max_depth max_nodes fuel
                  (visit neighbors_of max_depth max_nodes n depth (record s { queue = rest }))
          ])
              ≡ some r)
      turn later [] e = (s, refl)
      turn later ((n, depth) ∷ rest) e =
          later _ (ground (arith, work-visit n depth (record s { queue = rest }), h))

see_neighbor_cases :
    (max_nodes depth : ℕ) (n : Node) (s : Search)
    → let seen = (s.total_seen + 1) % 2 ^ 32 in
      (see_neighbor max_nodes depth n s ≡ s)
      ⊎ (see_neighbor max_nodes depth n s ≡ record s { total_seen = seen; truncated = true })
      ⊎ ((contains n.id (map (λ (m : Node). m.id) s.impact_nodes) ≡ false)
          × (length s.impact_nodes < max_nodes)
          × (see_neighbor max_nodes depth n s ≡ record s {
            total_seen = seen;
            queue = s.queue ++ (n, depth + 1) ∷ [];
            impact_nodes = s.impact_nodes ++ n ∷ [];
          }))
unfolding see_neighbor
see_neighbor_cases max_nodes depth n s = elim (Bool-cases (has_node n.id s.impact_nodes)) [
  | inl h ↦ inl (ground arith)
  | inr h ↦ elim (Bool-cases (leb max_nodes (length s.impact_nodes))) [
    | inl k ↦ inr (inl (ground arith))
    | inr k ↦
        inr (inr (sym (has_node-contains n.id s.impact_nodes) ∙ h, ground arith, ground arith))
  ]
]

-- What holds of the search at every turn, for a property of the nodes with their depths.
module _ (max_nodes : ℕ) (P : Node → ℕ → Type 0) where
  abbrev pub IsQueued : Node × ℕ → Type 0
  IsQueued (n, depth) = P n depth

  abbrev pub IsFound : Node → Type 0
  IsFound n = (depth : ℕ) × P n depth

  abbrev pub node_ids : List Node → List String
  node_ids nodes = map (λ (n : Node). n.id) nodes

  abbrev pub IsSearch : Search → Type 0
  IsSearch s =
      All IsQueued s.queue
      × All IsFound s.impact_nodes
      × (is_distinct (node_ids s.impact_nodes) ≡ true)
      × (length s.impact_nodes ≤ max_nodes ⊎ (length s.impact_nodes ≤ 1))

  see_neighbor-IsSearch :
      (depth : ℕ) (n : Node) (s : Search)
      → P n (depth + 1)
      → IsSearch s
      → IsSearch (see_neighbor max_nodes depth n s)
  see_neighbor-IsSearch depth n s p (q, f, d, b) = elim (see_neighbor_cases max_nodes depth n s) [
    | inl e ↦ subst IsSearch (sym e) (q, f, d, b)
    | inr (inl e) ↦ subst IsSearch (sym e) (q, f, d, b)
    | inr (inr (new, room, e)) ↦ subst IsSearch (sym e) (
      All-append IsQueued s.queue _ q (p, tt),
      All-append IsFound s.impact_nodes _ f ((depth + 1, p), tt),
      subst (λ ids. is_distinct ids ≡ true) (sym (node_ids-append s.impact_nodes n))
          (is_distinct-append (node_ids s.impact_nodes) n.id d (new)),
      inl (omega (arith, length-append s.impact_nodes (n ∷ []), room)),
    )
  ]

  see_neighbors-IsSearch :
      (depth : ℕ) (ns : List Node) (s : Search)
      → All (λ n. P n (depth + 1)) ns
      → IsSearch s
      → IsSearch (see_neighbors max_nodes depth ns s)
  unfolding see_neighbors
  see_neighbors-IsSearch depth [] s h k = k
  see_neighbors-IsSearch depth (n ∷ ns) s (p, h) k =
      see_neighbors-IsSearch depth ns (see_neighbor max_nodes depth n s) h
        (see_neighbor-IsSearch depth n s p k)

module _ (neighbors_of : Node → List Node) (max_depth max_nodes : ℕ) (root : Node) where
  -- Found at a depth within the limit.
  abbrev pub IsInReach : Node → ℕ → Type 0
  IsInReach n depth = (depth ≤ max_depth) × Reach neighbors_of root n depth

  neighbors-IsInReach :
      (n : Node) (depth : ℕ) (ns : List Node)
      → depth < max_depth
      → Reach neighbors_of root n depth
      → All (λ m. IsAmong m (neighbors_of n)) ns
      → All (λ m. IsInReach m (depth + 1)) ns
  neighbors-IsInReach n depth [] h k a = tt
  neighbors-IsInReach n depth (m ∷ ms) h k (a, more) =
      ((omega (arith, h), Reach.step k a), neighbors-IsInReach n depth ms h k more)

  visit-IsSearch :
      (n : Node) (depth : ℕ) (s : Search)
      → IsInReach n depth
      → IsSearch max_nodes IsInReach s
      → IsSearch max_nodes IsInReach (visit neighbors_of max_depth max_nodes n depth s)
  unfolding visit
  visit-IsSearch n depth s (h, k) inv =
      turn (leb max_depth depth || contains n.id s.visited) (λ e. ground arith)
    where
      turn :
          (skip : Bool)
          → (skip ≡ false → depth < max_depth)
          → IsSearch max_nodes IsInReach (
              if skip
              then s
              else see_neighbors max_nodes depth
                  (neighbors_of n)
                  (record s { visited = n.id ∷ s.visited }))
      turn true f = inv
      turn false f =
          see_neighbors-IsSearch max_nodes IsInReach depth (neighbors_of n) _
            (neighbors-IsInReach n depth (neighbors_of n) (f refl) k
              (IsAmong-All (neighbors_of n) (neighbors_of n) (λ m a. a)))
            inv

  search_loop-IsSearch :
      (fuel : ℕ) (s r : Search)
      → IsSearch max_nodes IsInReach s
      → search_loop neighbors_of max_depth max_nodes fuel s ≡ some r
      → IsSearch max_nodes IsInReach r
  unfolding search_loop
  search_loop-IsSearch zero s r inv e = absurd (ground (arith, e))
  search_loop-IsSearch (suc fuel) s r inv e =
      turn (λ s' i e'. search_loop-IsSearch fuel s' r i e') s.queue refl e
    where
      turn :
          ((s' : Search)
            → IsSearch max_nodes IsInReach s'
            → search_loop neighbors_of max_depth max_nodes fuel s' ≡ some r
            → IsSearch max_nodes IsInReach r)
          → (queue : List (Node × ℕ)) → s.queue ≡ queue
          → (elim queue [
            | [] ↦ some s
            | (n, depth) ∷ rest ↦
                search_loop neighbors_of max_depth max_nodes fuel
                  (visit neighbors_of max_depth max_nodes n depth (record s { queue = rest }))
          ])
            ≡ some r
          → IsSearch max_nodes IsInReach r
      turn later [] q e' =
          let same : s ≡ r = ground (arith, e') in subst (IsSearch max_nodes IsInReach) same inv
      turn later ((n, depth) ∷ rest) q e' =
          let queued = subst (All (IsQueued max_nodes IsInReach)) q inv.0 in
          later _
            (visit-IsSearch n depth (record s { queue = rest }) queued.0
              (queued.1, inv.1, inv.2, inv.3))
            e'

  start-IsSearch : IsSearch max_nodes IsInReach (start_search root)
  unfolding is_distinct contains
  start-IsSearch = (
    ((omega arith, Reach.here), tt),
    ((0, (omega arith, Reach.here)), tt),
    refl,
    inr (omega arith),
  )

-- The answer for a symbol that exists: the search ends within its fuel, no node comes twice, there
-- are at most `max_nodes` of them (or the symbol alone, where that is 0), and each one is joined to
-- the symbol by a chain of at most `max_depth` neighbours.
pub call_get_impact_graph_sound :
    (helper : GraphHelper) (db : Db) (fqn : String) (direction : Option String)
    (max_depth max_nodes : Option ℕ) (root : Node)
    → get_node_by_fqn db fqn ≡ some root
    → let limit = unwrap_or max_nodes default_impact_max_nodes in
      let depth = unwrap_or max_depth default_impact_max_depth in
      let neighbors_of =
        graph_or_sql_neighbors helper db (unwrap_or direction default_impact_direction) limit in
      (r : Search) × (call_get_impact_graph helper db fqn direction max_depth max_nodes
        ≡ report fqn limit (some r))
      × All (IsFound limit (IsInReach neighbors_of depth limit root)) r.impact_nodes
      × (is_distinct (map (λ (n : Node). n.id) r.impact_nodes) ≡ true)
      × (length r.impact_nodes ≤ limit ⊎ length r.impact_nodes ≤ 1)
unfolding call_get_impact_graph
call_get_impact_graph_sound helper db fqn direction max_depth max_nodes root h =
    let limit = unwrap_or max_nodes default_impact_max_nodes in
    let depth = unwrap_or max_depth default_impact_max_depth in
    let neighbors_of =
      graph_or_sql_neighbors helper db (unwrap_or direction default_impact_direction) limit in
    let (r, e) =
      search_loop_ends neighbors_of depth limit (limit + 2) (start_search root) (omega arith) in
    let inv =
      search_loop-IsSearch neighbors_of depth limit root (limit + 2) (start_search root) r
        (start-IsSearch neighbors_of depth limit root) e in
    (r, rw (h, call_get_impact_graph, e), inv.1, inv.2, inv.3)
