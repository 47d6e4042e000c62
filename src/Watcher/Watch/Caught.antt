-- ===== src/Watcher/Watch/Caught.antt =====
-- watcher/src/watch.rs: whether the watch catches up with the files that events name.
use cortex_engine.Common.{
  ◌≡◌, refl, sym, ap, ◌∙◌, ◌⊎◌, inl, inr, String, Bool, true, false, Bool-cases, ◌&&◌, ◌||◌, not,
  none, List, [], ◌∷◌, if◌then◌else◌, any, arith,
}
use cortex_engine.Storage.Tables.{Db}
use cortex_engine.Storage.Cleanup.{load_file_cache_hash}
use cortex_engine.Watcher.Index.Inspect.{
  Env, Failure, Result, ok, err, InspectOutcome, to_index, to_skip, to_delete, inspect_path,
}
use cortex_engine.Watcher.Index.Cache.{settled}
use package.cortex_engine.Watcher.Watch.{
  Turn, Watch, Tracker, receive, flush_if_due, watch_turn, breaks, finish_watch, cmd_watch,
}
use package.cortex_engine.Watcher.Watch.Seen.{
  IsInspected, IsSeen, is_named, receive-IsSeen, flush_if_due-IsSeen, finish_watch-IsInspected,
}

-- The index has caught up with the file: the cache has the hash of its contents, or the file is gone
-- and has no hash, or the inspection of the file fails, which the watch logs and lets pass.
abbrev pub IsCaughtUp : Env → String → Db → Type 0
IsCaughtUp env path db =
    let known = load_file_cache_hash path db in
    let outcome = inspect_path env path false known false none in
    (outcome ≡ ok to_skip)
    ⊎ (((gone : String) × (outcome ≡ ok (to_delete gone)) × (known ≡ none))
        ⊎ ((why : Failure) × (outcome ≡ err why)))

pub IsInspected-IsCaughtUp :
    (env : Env) (path : String) (db : Db) → IsInspected env path db → IsCaughtUp env path db
IsInspected-IsCaughtUp env path db (quiet, kept) =
    pick (inspect_path env path false (load_file_cache_hash path db) false none) refl
  where
    pick :
        (outcome : Result InspectOutcome)
        → inspect_path env path false (load_file_cache_hash path db) false none ≡ outcome
        → IsCaughtUp env path db
    pick (ok (to_index p)) e = absurd (ground (arith, e, quiet))
    pick (ok to_skip) e = inl e
    pick (ok (to_delete gone)) e =
        inr (inl (gone, e, sym kept ∙ ap (λ o. settled o (load_file_cache_hash path db)) e))
    pick (err why) e = inr (inr (why, e))

-- An event before the first turn that breaks names the path.
unfoldable pub is_named_in_time : Tracker → String → List Turn → Bool
is_named_in_time t q [] = false
is_named_in_time t q (turn ∷ turns) =
    not (breaks turn) && (is_named t q turn.message || is_named_in_time t q turns)

cmd_watch-IsSeen-IsInspected :
    (env : Env) (t : Tracker) (turns : List Turn) (watch : Watch) (q : String)
    → any breaks turns ≡ true
    → (is_named_in_time t q turns ≡ true) ⊎ IsSeen env q watch
    → IsInspected env q (cmd_watch env t turns watch).db
unfolding cmd_watch is_named_in_time watch_turn
cmd_watch-IsSeen-IsInspected env t [] watch q ends seen = cc
cmd_watch-IsSeen-IsInspected env t (turn ∷ turns) watch q ends seen =
    pick (breaks turn) refl (λ later. cmd_watch-IsSeen-IsInspected env t turns next q later)
  where
    next : Watch
    next = flush_if_due env turn.now (receive t turn.now turn.message watch)

    pick :
        (b : Bool)
        → breaks turn ≡ b
        → (any breaks turns ≡ true
            → (is_named_in_time t q turns ≡ true) ⊎ IsSeen env q next
            → IsInspected env q (cmd_watch env t turns next).db)
        → IsInspected env q
            (if b then finish_watch env turn.now watch else cmd_watch env t turns next).db
    pick true e rest =
        finish_watch-IsInspected env turn.now watch q
          (elim seen [ inl named ↦ absurd (ground (arith, named, e)) | inr already ↦ already ])
    pick false e rest = rest (ground (arith, ends, e)) (elim seen [
      | inl named ↦ elim (Bool-cases (is_named t q turn.message)) [
        | inl here ↦ inr (
            flush_if_due-IsSeen env turn.now _ q
              (receive-IsSeen env t turn.now turn.message watch q (inl here)))
        | inr later ↦ inl (ground (arith, named, e, later))
      ]
      | inr already ↦ inr (
          flush_if_due-IsSeen env turn.now _ q
            (receive-IsSeen env t turn.now turn.message watch q (inr already)))
    ])

-- While the watch runs, a file that an event has named is pending, or the index has caught up with it.
pub cmd_watch-IsSeen :
    (env : Env) (t : Tracker) (turns : List Turn) (watch : Watch) (q : String)
    → any breaks turns ≡ false
    → (is_named_in_time t q turns ≡ true) ⊎ IsSeen env q watch
    → IsSeen env q (cmd_watch env t turns watch)
unfolding cmd_watch is_named_in_time watch_turn
cmd_watch-IsSeen env t [] watch q runs (inl named) = cc
cmd_watch-IsSeen env t [] watch q runs (inr seen) = seen
cmd_watch-IsSeen env t (turn ∷ turns) watch q runs seen =
    pick (breaks turn) (ground (arith, runs))
      (cmd_watch-IsSeen env t turns next q (ground (arith, runs)) (later (breaks turn) refl))
  where
    next : Watch
    next = flush_if_due env turn.now (receive t turn.now turn.message watch)

    later : (b : Bool) → breaks turn ≡ b → (is_named_in_time t q turns ≡ true) ⊎ IsSeen env q next
    later b e = elim seen [
      | inl named ↦ elim (Bool-cases (is_named t q turn.message)) [
        | inl here ↦ inr (
            flush_if_due-IsSeen env turn.now _ q
              (receive-IsSeen env t turn.now turn.message watch q (inl here)))
        | inr other ↦ inl (ground (arith, named, other))
      ]
      | inr already ↦ inr (
          flush_if_due-IsSeen env turn.now _ q
            (receive-IsSeen env t turn.now turn.message watch q (inr already)))
    ]

    pick :
        (b : Bool)
        → b ≡ false
        → IsSeen env q (cmd_watch env t turns next)
        → IsSeen env q (if b then finish_watch env turn.now watch else cmd_watch env t turns next)
    pick true e rest = cc
    pick false e rest = rest

-- When the watch ends, by a shutdown or a closed channel, the index has caught up with every tracked
-- file that was named by an event which the loop received before: the cache has the hash of the
-- file's contents, or the file is gone and has no hash, or the file's inspection fails, which the
-- watch only logs. Files do not change meanwhile. An event that is still queued when the shutdown
-- flag is seen is not received.
pub cmd_watch-IsCaughtUp :
    (env : Env) (t : Tracker) (turns : List Turn) (watch : Watch) (q : String)
    → any breaks turns ≡ true
    → is_named_in_time t q turns ≡ true
    → IsCaughtUp env q (cmd_watch env t turns watch).db
cmd_watch-IsCaughtUp env t turns watch q ends named =
    IsInspected-IsCaughtUp env q _
      (cmd_watch-IsSeen-IsInspected env t turns watch q ends (inl named))
