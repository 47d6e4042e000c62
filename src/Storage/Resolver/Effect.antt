-- ===== src/Storage/Resolver/Effect.antt =====
-- storage/src/resolver.rs: what a run of the resolver changes.
use cortex_engine.Common.{
  ℕ, ◌≡◌, refl, sym, ◌∙◌, ◌⊎◌, inl, inr, String, Bool, true, false, ◌&&◌, List, [], ◌∷◌,
  if◌then◌else◌, any, contains, arith, eqb, eqb_iff, All, Pointwise, Pointwise-refl,
  Pointwise-trans, subst,
}
use cortex_engine.Common.Map.{Map}
use cortex_engine.Storage.Tables.{EdgeRow, Db}
use cortex_engine.Storage.Resolver.{
  fetch_unresolved_edges, source_language, Updates, add_update, set_target, set_status, set_targets,
  set_statuses, apply_updates, plan_updates, resolve_unresolved_edges,
}
use cortex_engine.Storage.Resolver.Matching.{
  Candidate, candidates_of, lookup_by_name, lookup_by_fqn, collect_targets,
}
use cortex_engine.Storage.Resolver.Soundness.{
  IsNode, AllUnder, node_ids, candidates_of-All, lookup_by_name-All, lookup_by_fqn-All,
  resolve_one-All,
}

-- The edge without the two columns that the resolver writes.
abbrev pub without_target : EdgeRow → EdgeRow
without_target edge = record edge { target_id = ""; resolution_status = "" }

-- Some edge of the list has the number.
abbrev pub has_id : List EdgeRow → ℕ → Bool
has_id edges id = any (λ (e : EdgeRow). eqb e.id id) edges

module _ (ids : List String) (open_edges : List EdgeRow) where
  -- A row that is as it was, or a row of one of the open edges whose target is the one it had or a
  -- node, and whose other columns are as they were.
  abbrev pub IsResolution : EdgeRow → EdgeRow → Type 0
  IsResolution before after =
      (after ≡ before)
      ⊎ ((has_id open_edges before.id ≡ true)
          × (without_target after ≡ without_target before)
          × ((after.target_id ≡ before.target_id) ⊎ (contains after.target_id ids ≡ true)))

  IsResolution-trans : (a b c : EdgeRow) → IsResolution a b → IsResolution b c → IsResolution a c
  IsResolution-trans a b c (inl e) k = subst (λ x. IsResolution x c) e k
  IsResolution-trans a b c (inr h) (inl e) = subst (λ x. IsResolution a x) (sym e) (inr h)
  IsResolution-trans a b c (inr (o, e, inl s)) (inr (p, f, inl t)) = inr (o, f ∙ e, inl (t ∙ s))
  IsResolution-trans a b c (inr (o, e, inr s)) (inr (p, f, inl t)) =
      inr (o, f ∙ e, inr (subst (λ x. contains x ids ≡ true) (sym t) s))
  IsResolution-trans a b c (inr (o, e, h)) (inr (p, f, inr t)) = inr (o, f ∙ e, inr t)

  abbrev AreResolutions : List EdgeRow → List EdgeRow → Type 0
  AreResolutions = Pointwise IsResolution

  set_target_row :
      (b : Bool) (target : String) (row : EdgeRow)
      → contains target ids ≡ true
      → (b ≡ true → has_id open_edges row.id ≡ true)
      → IsResolution row
          (if b then record row { target_id = target; resolution_status = "resolved" } else row)
  set_target_row true target row h k = inr (k refl, refl, inr h)
  set_target_row false target row h k = inl refl

  set_target_effect :
      (target : String) (id : ℕ) (all rows : List EdgeRow)
      → contains target ids ≡ true
      → has_id open_edges id ≡ true
      → AreResolutions rows (set_target target id all rows)
  unfolding set_target
  set_target_effect target id all [] h k = tt
  set_target_effect target id all (row ∷ rows) h k = (
    set_target_row _ target row h (λ e. subst (λ n. has_id open_edges n ≡ true) (sym (same _ e)) k),
    set_target_effect target id all rows h k,
  )
    where
      same : (free : Bool) → eqb row.id id && free ≡ true → row.id ≡ id
      same free e = ground arith

  set_status_row :
      (b : Bool) (status : String) (row : EdgeRow)
      → (b ≡ true → has_id open_edges row.id ≡ true)
      → IsResolution row (if b then record row { resolution_status = status } else row)
  set_status_row true status row k = inr (k refl, refl, inl refl)
  set_status_row false status row k = inl refl

  set_status_effect :
      (status : String) (id : ℕ) (rows : List EdgeRow)
      → has_id open_edges id ≡ true
      → AreResolutions rows (set_status status id rows)
  unfolding set_status
  set_status_effect status id [] k = tt
  set_status_effect status id (row ∷ rows) k = (
    set_status_row _ status row
        (λ e. subst (λ n. has_id open_edges n ≡ true) (sym ((eqb_iff row.id id).0 e)) k),
    set_status_effect status id rows k,
  )

  abbrev IsPlanned : String × ℕ → Type 0
  IsPlanned (target, id) = (contains target ids ≡ true) × (has_id open_edges id ≡ true)

  set_targets_effect :
      (updates : List (String × ℕ)) (rows : List EdgeRow)
      → All IsPlanned updates
      → AreResolutions rows (set_targets updates rows)
  unfolding set_targets
  set_targets_effect [] rows h = Pointwise-refl IsResolution (λ x. inl refl) rows
  set_targets_effect ((target, id) ∷ updates) rows ((t, o), h) =
      Pointwise-trans IsResolution IsResolution-trans rows (set_target target id rows rows) _
        (set_target_effect target id rows rows t o)
        (set_targets_effect updates (set_target target id rows rows) h)

  set_statuses_effect :
      (edge_ids : List ℕ) (rows : List EdgeRow)
      → All (λ (id : ℕ). has_id open_edges id ≡ true) edge_ids
      → AreResolutions rows (set_statuses edge_ids rows)
  unfolding set_statuses
  set_statuses_effect [] rows h = Pointwise-refl IsResolution (λ x. inl refl) rows
  set_statuses_effect (id ∷ rest) rows (o, h) =
      Pointwise-trans IsResolution IsResolution-trans rows (set_status "ambiguous" id rows) _
        (set_status_effect "ambiguous" id rows o)
        (set_statuses_effect rest (set_status "ambiguous" id rows) h)

  abbrev ArePlanned : Updates → Type 0
  ArePlanned updates =
      All IsPlanned updates.resolved
      × All (λ (id : ℕ). has_id open_edges id ≡ true) updates.ambiguous

  add_update-planned :
      (edge : EdgeRow) (cs : List Candidate) (updates : Updates)
      → has_id open_edges edge.id ≡ true
      → All (IsNode ids) cs
      → ArePlanned updates
      → ArePlanned (add_update edge cs updates)
  add_update-planned edge [] updates o h k = k
  add_update-planned edge (c ∷ []) updates o (p, h) (r, a) = (((p, o), r), a)
  add_update-planned edge (c ∷ d ∷ cs) updates o h (r, a) = (r, (o, a))

  plan_updates-planned :
      (db : Db) (by_name by_fqn : Map (List Candidate)) (edges : List EdgeRow)
      → AllUnder (IsNode ids) by_name
      → AllUnder (IsNode ids) by_fqn
      → All (λ (edge : EdgeRow). has_id open_edges edge.id ≡ true) edges
      → ArePlanned (plan_updates db by_name by_fqn edges)
  unfolding plan_updates
  plan_updates-planned db by_name by_fqn [] n f h = (tt, tt)
  plan_updates-planned db by_name by_fqn (edge ∷ edges) n f (o, h) =
      add_update-planned edge _ (plan_updates db by_name by_fqn edges) o
        (resolve_one-All (IsNode ids) edge (source_language db edge) by_name by_fqn n f)
        (plan_updates-planned db by_name by_fqn edges n f h)

has_own_id :
    (all edges : List EdgeRow)
    → ((id : ℕ) → has_id edges id ≡ true → has_id all id ≡ true)
    → All (λ (edge : EdgeRow). has_id all edge.id ≡ true) edges
has_own_id all [] sub = tt
has_own_id all (edge ∷ edges) sub =
    (sub edge.id (ground arith), has_own_id all edges (λ id h. sub id (ground arith)))

-- A run of the resolver keeps the nodes and the cache, and every edge in its place. An edge is left
-- as it was unless its number is that of an unresolved one; then only its target and its status can
-- change, and its target is the one it had or the identifier of a node.
pub resolve_unresolved_edges_effect :
    (db : Db)
    → let after = resolve_unresolved_edges db in
      (after.nodes ≡ db.nodes)
      × (after.file_cache ≡ db.file_cache)
      × Pointwise
          (IsResolution (node_ids db.nodes) (fetch_unresolved_edges db))
          db.edges
          after.edges
unfolding resolve_unresolved_edges apply_updates
resolve_unresolved_edges_effect db =
    let ids = node_ids db.nodes in
    let edges = fetch_unresolved_edges db in
    let targets = collect_targets edges in
    let candidates = candidates_of targets.0 targets.1 db.nodes in
    let known = candidates_of-All targets.0 targets.1 db.nodes in
    let updates = plan_updates db (lookup_by_name candidates) (lookup_by_fqn candidates) edges in
    let planned =
      plan_updates-planned ids edges db (lookup_by_name candidates) (lookup_by_fqn candidates) edges
        (lookup_by_name-All (IsNode ids) candidates known)
        (lookup_by_fqn-All (IsNode ids) candidates known) (has_own_id edges edges (λ id h. h)) in
    (
      refl,
      refl,
      Pointwise-trans (IsResolution ids edges) (IsResolution-trans ids edges) db.edges
          (set_targets updates.resolved db.edges) _
          (set_targets_effect ids edges updates.resolved db.edges planned.0)
          (set_statuses_effect ids edges updates.ambiguous _ planned.1),
    )
