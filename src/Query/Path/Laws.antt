-- ===== src/Query/Path/Laws.antt =====
-- mcp/src/query_code.rs: the loop of `call_find_execution_path`, its fuel and its paths.
use cortex_engine.Common.{
  ℕ, zero, suc, ◌+◌, ◌-◌, ◌%◌, ◌^◌, ◌≤◌, ◌<◌, ◌≡◌, ◌≢◌, inl, inr, String, true, Option, some, List,
  [], ◌∷◌, ◌++◌, ◌==◌, leb, length, contains, arith, last_or, last_or-append, Bool-cases,
  Option-cases, eq_iff, All, All-append, length-append,
}
use cortex_engine.Query.Nodes.{Node}
use cortex_engine.Query.Impact.Laws.{IsAmong, IsAmong-All}
use cortex_engine.Query.Path.{PathSearch, Found, extend_path, path_loop}

module _ (node_of : String → Option Node) (callees_of : Node → List Node) (end : String)
    (max_depth max_nodes : ℕ) where
  -- Some fuel is enough for the search.
  abbrev pub Ends : PathSearch → Type 0
  Ends s =
      (fuel : ℕ) × (path_loop node_of callees_of end max_depth max_nodes fuel s ≢ Found.out_of_fuel)

  abbrev current_of : List String → String
  current_of path = last_or "" path

  -- A turn ends if the turn that it leads to does.
  turn-Ends :
      (path : List String) (queue : List (List String)) (s : PathSearch)
      → Ends (record s { queue = queue; truncated = true })
      → Ends (record s { queue = queue })
      → Ends (record s { queue = queue; visited = current_of path ∷ s.visited; truncated = true })
      → ((node : Node)
          → suc (length s.visited) < max_nodes
          → Ends (record s {
            queue = queue ++ extend_path path (callees_of node);
            visited = current_of path ∷ s.visited;
            total_seen = (s.total_seen + length (callees_of node)) % 2 ^ 32;
          }))
      → Ends (record s { queue = path ∷ queue })
  unfolding path_loop
  turn-Ends path queue s cut skipped full expand = elim (Bool-cases (current_of path == end)) [
    | inl e ↦ (1, rw (e, path_loop) (λ f. cc (f)))
    | inr e ↦ elim (Bool-cases (leb max_depth (length path - 1))) [
      | inl d ↦ (suc cut.0, rw (e, d, path_loop) cut.1)
      | inr d ↦ elim (Bool-cases (contains (current_of path) s.visited)) [
        | inl v ↦ (suc skipped.0, rw (e, d, v, path_loop) skipped.1)
        | inr v ↦ elim (Bool-cases (leb max_nodes (suc (length s.visited)))) [
          | inl m ↦ (suc full.0, rw (e, d, v, m, path_loop) full.1)
          | inr m ↦ elim (Option-cases (node_of (current_of path))) [
            | inl n ↦ (1, rw (e, d, v, m, n, path_loop) (λ f. cc (f)))
            | inr (node, n) ↦
                let rest = expand node (ground arith) in
                (suc rest.0, rw (e, d, v, m, n, path_loop) rest.1)
          ]
        ]
      ]
    ]
  ]

  -- By recursion on the symbols that may still be visited, and on the queue.
  pub search-Ends :
      (room : ℕ) (queue : List (List String)) (s : PathSearch)
      → max_nodes - length s.visited ≤ room
      → Ends (record s { queue = queue })
  unfolding path_loop
  search-Ends room [] s h = (1, λ f. cc (f))
  search-Ends zero (path ∷ queue) s h =
      turn-Ends path queue s (search-Ends zero queue (record s { truncated = true }) h)
        (search-Ends zero queue s h)
        (search-Ends zero queue
          (record s { visited = current_of path ∷ s.visited; truncated = true }) (omega (arith, h)))
        (λ node k. absurd (omega (arith, h, k)))
  search-Ends (suc room) (path ∷ queue) s h =
      turn-Ends path queue s (search-Ends (suc room) queue (record s { truncated = true }) h)
        (search-Ends (suc room) queue s h)
        (search-Ends (suc room) queue
          (record s { visited = current_of path ∷ s.visited; truncated = true }) (omega (arith, h)))
        (λ node k.
          search-Ends room (queue ++ extend_path path (callees_of node))
            (record s {
              visited = current_of path ∷ s.visited;
              total_seen = (s.total_seen + length (callees_of node)) % 2 ^ 32;
            })
            (omega (arith, h, k)))

-- A path of identifiers from the start, each of them that of a callee of the one before.
pub data Route (node_of : String → Option Node) (callees_of : Node → List Node) (start : Node)
    : List String → Type 0 where
  begin : Route node_of callees_of start (start.id ∷ [])
  extend :
      {path : List String} (node callee : Node)
      → Route node_of callees_of start path
      → node_of (last_or "" path) ≡ some node
      → IsAmong callee (callees_of node)
      → Route node_of callees_of start (path ++ callee.id ∷ [])

module _ (node_of : String → Option Node) (callees_of : Node → List Node) (end : String)
    (max_depth max_nodes : ℕ) (start : Node) where
  abbrev pub IsRoute : List String → Type 0
  IsRoute path = Route node_of callees_of start path × (length path ≤ max_depth + 1)

  -- A path that is found leads to the end within the depth, and the loop never panics.
  abbrev pub IsOutcome : Found → Type 0
  IsOutcome (Found.found path s) = IsRoute path × (last_or "" path ≡ end)
  IsOutcome (Found.not_found s) = Unit
  IsOutcome Found.panicked = ⊥
  IsOutcome Found.out_of_fuel = Unit

  module _ (start_known : (m : Node) × (node_of start.id ≡ some m))
      (callees_known : (node callee : Node)
        → IsAmong callee (callees_of node)
        → (m : Node) × (node_of callee.id ≡ some m)) where
    last_known :
        {path : List String}
        → Route node_of callees_of start path
        → (m : Node) × (node_of (last_or "" path) ≡ some m)
    last_known Route.begin = start_known
    last_known (Route.extend {path} node callee r e a) =
        rw (last_or-append "" callee.id path) (callees_known node callee a)

    extend_path-IsRoute :
        (path : List String) (node : Node) (callees : List Node)
        → Route node_of callees_of start path
        → length path ≤ max_depth
        → node_of (last_or "" path) ≡ some node
        → All (λ c. IsAmong c (callees_of node)) callees
        → All IsRoute (extend_path path callees)
    unfolding extend_path
    extend_path-IsRoute path node [] r h e a = tt
    extend_path-IsRoute path node (c ∷ cs) r h e (a, more) = (
      (Route.extend node c r e a, omega (arith, length-append path (c.id ∷ []), h)),
      extend_path-IsRoute path node cs r h e more,
    )

    pub path_loop-IsOutcome :
        (fuel : ℕ) (queue : List (List String)) (s : PathSearch)
        → All IsRoute queue
        → IsOutcome
            (path_loop node_of callees_of end max_depth max_nodes fuel (record s { queue = queue }))
    unfolding path_loop
    path_loop-IsOutcome zero queue s h = tt
    path_loop-IsOutcome (suc fuel) [] s h = tt
    path_loop-IsOutcome (suc fuel) (path ∷ queue) s ((r, l), h) =
        let current = last_or "" path in
        elim (Bool-cases (current == end)) [
          | inl e ↦ rw (e, path_loop) ((r, l), ground (arith, eq_iff current end))
          | inr e ↦ elim (Bool-cases (leb max_depth (length path - 1))) [
            | inl d ↦
                rw (e, d, path_loop)
                  (path_loop-IsOutcome fuel queue (record s { truncated = true }) h)
            | inr d ↦ elim (Bool-cases (contains current s.visited)) [
              | inl v ↦ rw (e, d, v, path_loop) (path_loop-IsOutcome fuel queue s h)
              | inr v ↦ elim (Bool-cases (leb max_nodes (suc (length s.visited)))) [
                | inl m ↦
                    rw (e, d, v, m, path_loop)
                      (path_loop-IsOutcome fuel queue
                        (record s { visited = current ∷ s.visited; truncated = true }) h)
                | inr m ↦
                    let (node, n) = last_known r in
                    rw (e, d, v, m, n, path_loop)
                      (path_loop-IsOutcome fuel (queue ++ extend_path path (callees_of node))
                        (record s {
                          visited = current ∷ s.visited;
                          total_seen = (s.total_seen + length (callees_of node)) % 2 ^ 32;
                        })
                        (All-append IsRoute queue _ h (
                          extend_path-IsRoute path node (callees_of node) r (ground arith) n
                            (IsAmong-All (callees_of node) (callees_of node) (λ c a. a)))))
              ]
            ]
          ]
        ]
