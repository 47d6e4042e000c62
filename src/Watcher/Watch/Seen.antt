-- ===== src/Watcher/Watch/Seen.antt =====
-- watcher/src/watch.rs: the files that are pending or inspected, across turns and batches.
use cortex_engine.Common.{
  ℕ, ◌≡◌, refl, sym, ap, subst, ◌∙◌, ◌⊎◌, inl, inr, String, Bool, true, false, ◌&&◌, ◌||◌, not,
  Option, none, some, List, [], ◌∷◌, if◌then◌else◌, is_empty, any, map, contains, option_eq, arith,
}
use cortex_engine.Common.Sets.{contains-set_insert}
use cortex_engine.Storage.Tables.{Db}
use cortex_engine.Storage.Cleanup.{load_file_cache_hash}
use cortex_engine.Watcher.Index.Inspect.{Env, Result, InspectOutcome, inspect_path}
use cortex_engine.Watcher.Index.{process_path, write_prepared, first_report, IndexReport}
use cortex_engine.Watcher.Index.Cache.{
  settled, inspect_path-IsAbout, load-write_prepared, load-resolve_unresolved_edges,
}
use cortex_engine.Watcher.Index.Rerun.{IsLast, inspected_again}
use package.cortex_engine.Watcher.Watch.{
  Message, event, watch_error, timeout, disconnected, Watch, Tracker, tracked_path, enqueue,
  enqueue_event_paths, process_batch, flush_pending_batch, receive, is_quiet, flush_if_due,
  finish_watch,
}

-- To inspect the file against the cache asks for no indexing and leaves the cache as it is.
abbrev pub IsInspected : Env → String → Db → Type 0
IsInspected env path db =
    IsLast env (λ c. inspect_path env path false c false none) (load_file_cache_hash path db)

process_batch-write_prepared :
    (env : Env) (now : ℕ) (origin : Db) (paths : List String) (db : Db) (report : IndexReport)
    → process_batch env now origin paths db
      ≡ (write_prepared now
          (map (λ p. inspect_path env p false (load_file_cache_hash p origin) false none) paths)
          (db, report)).0
unfolding process_batch write_prepared process_path
process_batch-write_prepared env now origin [] db report = refl
process_batch-write_prepared env now origin (path ∷ paths) db report =
    process_batch-write_prepared env now origin paths _ _

-- What a batch does to the hash that the cache has of a path.
load-flush_pending_batch :
    (env : Env) (now : ℕ) (watch : Watch) (q : String)
    → load_file_cache_hash q (flush_pending_batch env now watch).db ≡ (
        if contains q watch.pending
        then settled
            (inspect_path env q false (load_file_cache_hash q watch.db) false none)
            (load_file_cache_hash q watch.db)
        else load_file_cache_hash q watch.db)
unfolding flush_pending_batch
load-flush_pending_batch env now watch q =
    load-resolve_unresolved_edges _ q
    ∙ ap (load_file_cache_hash q)
        (process_batch-write_prepared env now watch.db watch.pending watch.db (first_report [] 0))
    ∙ load-write_prepared now
        (λ p. inspect_path env p false (load_file_cache_hash p watch.db) false none)
        (λ p. inspect_path-IsAbout env p false _ false none) watch.pending watch.db
        (first_report [] 0) q

-- The path is pending, or the index has caught up with it.
abbrev pub IsSeen : Env → String → Watch → Type 0
IsSeen env q watch = (contains q watch.pending ≡ true) ⊎ IsInspected env q watch.db

pub flush_pending_batch-IsInspected :
    (env : Env) (now : ℕ) (watch : Watch) (q : String)
    → IsSeen env q watch
    → IsInspected env q (flush_pending_batch env now watch).db
flush_pending_batch-IsInspected env now watch q seen =
    subst (IsLast env inspect) (sym (load-flush_pending_batch env now watch q))
      (pick (contains q watch.pending) refl)
  where
    inspect : Option String → Result InspectOutcome
    inspect c = inspect_path env q false c false none

    known : Option String
    known = load_file_cache_hash q watch.db

    pick :
        (b : Bool)
        → contains q watch.pending ≡ b
        → IsLast env inspect (if b then settled (inspect known) known else known)
    pick true e = inspected_again env q false known false
    pick false e = elim seen [
      | inl pending ↦ absurd (ground (arith, pending, e))
      | inr caught_up ↦ caught_up
    ]

-- The names that a list of paths gives to the index.
abbrev names : Tracker → String → List String → Bool
names t q paths = any (λ path. option_eq (tracked_path t path) (some q)) paths

enqueue-contains :
    (q : String) (named : Option String) (now : ℕ) (watch : Watch)
    → contains q (enqueue named now watch).pending
      ≡ option_eq named (some q) || contains q watch.pending
enqueue-contains q none now watch = refl
enqueue-contains q (some rel_path) now watch = contains-set_insert q rel_path watch.pending

enqueue_db :
    (named : Option String) (now : ℕ) (watch : Watch) → (enqueue named now watch).db ≡ watch.db
enqueue_db none now watch = refl
enqueue_db (some rel_path) now watch = refl

enqueue_event_paths_effect :
    (t : Tracker) (now : ℕ) (paths : List String) (watch : Watch) (q : String)
    → (contains q (enqueue_event_paths t now paths watch).pending
        ≡ names t q paths || contains q watch.pending)
      × ((enqueue_event_paths t now paths watch).db ≡ watch.db)
unfolding enqueue_event_paths
enqueue_event_paths_effect t now [] watch q = (refl, refl)
enqueue_event_paths_effect t now (path ∷ paths) watch q =
    let one = enqueue-contains q (tracked_path t path) now watch in
    let rest = enqueue_event_paths_effect t now paths (enqueue (tracked_path t path) now watch) q in
    (ground (arith, rest.0, one), rest.1 ∙ enqueue_db (tracked_path t path) now watch)

-- The message names the path.
abbrev pub is_named : Tracker → String → Message → Bool
is_named t q (event paths) = names t q paths
is_named t q watch_error = false
is_named t q timeout = false
is_named t q disconnected = false

pub receive-IsSeen :
    (env : Env) (t : Tracker) (now : ℕ) (message : Message) (watch : Watch) (q : String)
    → (is_named t q message ≡ true) ⊎ IsSeen env q watch
    → IsSeen env q (receive t now message watch)
receive-IsSeen env t now (event paths) watch q (inl named) =
    inl (ground (arith, named, (enqueue_event_paths_effect t now paths watch q).0))
receive-IsSeen env t now (event paths) watch q (inr (inl pending)) =
    inl (ground (arith, pending, (enqueue_event_paths_effect t now paths watch q).0))
receive-IsSeen env t now (event paths) watch q (inr (inr caught_up)) =
    inr
      (subst (IsInspected env q) (sym (enqueue_event_paths_effect t now paths watch q).1) caught_up)
receive-IsSeen env t now watch_error watch q (inl named) = cc
receive-IsSeen env t now watch_error watch q (inr seen) = seen
receive-IsSeen env t now timeout watch q (inl named) = cc
receive-IsSeen env t now timeout watch q (inr seen) = seen
receive-IsSeen env t now disconnected watch q (inl named) = cc
receive-IsSeen env t now disconnected watch q (inr seen) = seen

pub flush_if_due-IsSeen :
    (env : Env) (now : ℕ) (watch : Watch) (q : String)
    → IsSeen env q watch
    → IsSeen env q (flush_if_due env now watch)
unfolding flush_if_due
flush_if_due-IsSeen env now watch q seen =
    pick (is_quiet now watch.last_event_at && not (is_empty watch.pending))
  where
    pick :
        (b : Bool)
        → IsSeen env q (
            if b
            then record (flush_pending_batch env now watch) { last_event_at = none }
            else watch)
    pick true = inr (flush_pending_batch-IsInspected env now watch q seen)
    pick false = seen

pub finish_watch-IsInspected :
    (env : Env) (now : ℕ) (watch : Watch) (q : String)
    → IsSeen env q watch
    → IsInspected env q (finish_watch env now watch).db
unfolding finish_watch contains
finish_watch-IsInspected env now watch q (inr caught_up) = pick (is_empty watch.pending)
  where
    pick :
        (b : Bool) → IsInspected env q (if b then watch else flush_pending_batch env now watch).db
    pick true = caught_up
    pick false = flush_pending_batch-IsInspected env now watch q (inr caught_up)
finish_watch-IsInspected env now watch q (inl pending) = pick watch.pending refl
  where
    pick :
        (paths : List String)
        → watch.pending ≡ paths
        → IsInspected env q (if is_empty paths then watch else flush_pending_batch env now watch).db
    pick [] e = absurd (ground (arith, pending, e))
    pick (p ∷ ps) e = flush_pending_batch-IsInspected env now watch q (inl pending)
