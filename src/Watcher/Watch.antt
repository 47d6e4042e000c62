-- ===== src/Watcher/Watch.antt =====
-- watcher/src/watch.rs: the watch over a workspace, its pending paths and their batches.
pub mod Seen
pub mod Caught
pub mod Debounce
use cortex_engine.Common.{
  ℕ, ◌-◌, String, Bool, true, false, ◌&&◌, ◌||◌, not, Option, none, some, List, [], ◌∷◌,
  if◌then◌else◌, is_empty, leb,
}
use cortex_engine.Common.Sets.{set_insert}
use cortex_engine.Storage.Tables.{Db}
use cortex_engine.Storage.Cleanup.{load_file_cache_hash}
use cortex_engine.Storage.Resolver.{resolve_unresolved_edges}
use cortex_engine.Watcher.Index.Inspect.{Env}
use cortex_engine.Watcher.Index.{process_path}

-- In milliseconds.
abbrev pub watch_debounce : ℕ
watch_debounce = 5000

-- What `recv_timeout` answers: an event with its paths, an error of the watcher, the time-out, or a
-- closed channel.
pub data Message : Type 0 where
  event : List String → Message
  watch_error : Message
  timeout : Message
  disconnected : Message

-- One turn of the loop: whether the shutdown flag is set when it begins, the message, and the clock
-- in milliseconds.
pub record Turn : Type 0 where
  pub shutdown : Bool
  pub message : Message
  pub now : ℕ

-- The variables of the loop. The heartbeat only logs.
pub record Watch : Type 0 where
  pub pending : List String
  pub last_event_at : Option ℕ
  pub db : Db

-- Where a path of the disk stands in the index, and whether the path is tracked.
pub record Tracker : Type 0 where
  pub db_path_for_source_path : String → Option String
  pub should_track_path : String → Bool

-- The path of the index that an event's path stands for, where it is tracked.
abbrev pub tracked_path : Tracker → String → Option String
tracked_path t path = elim (t.db_path_for_source_path path) [
  | none ↦ none
  | some rel_path ↦ if t.should_track_path rel_path then some rel_path else none
]

abbrev pub enqueue : Option String → ℕ → Watch → Watch
enqueue none now watch = watch
enqueue (some rel_path) now watch = record watch {
  pending = set_insert rel_path watch.pending;
  last_event_at = some now;
}

unfoldable pub enqueue_event_paths : Tracker → ℕ → List String → Watch → Watch
enqueue_event_paths t now [] watch = watch
enqueue_event_paths t now (path ∷ paths) watch =
    enqueue_event_paths t now paths (enqueue (tracked_path t path) now watch)

-- The loop of `flush_pending_batch`: the hashes were read from `origin`, before the first file. A file
-- that fails is logged.
unfoldable pub process_batch : Env → ℕ → Db → List String → Db → Db
unfolding process_path
process_batch env now origin [] db = db
process_batch env now origin (path ∷ paths) db =
    process_batch env now origin paths
      (process_path env now path false (load_file_cache_hash path origin) false none db).0

unfoldable pub flush_pending_batch : Env → ℕ → Watch → Watch
unfolding process_batch
flush_pending_batch env now watch = record watch {
  pending = [];
  db = resolve_unresolved_edges (process_batch env now watch.db watch.pending watch.db);
}

abbrev pub receive : Tracker → ℕ → Message → Watch → Watch
receive t now (event paths) watch = enqueue_event_paths t now paths watch
receive t now watch_error watch = watch
receive t now timeout watch = watch
receive t now disconnected watch = watch

-- The last event is long enough ago.
abbrev pub is_quiet : ℕ → Option ℕ → Bool
is_quiet now none = false
is_quiet now (some stamp) = leb watch_debounce (now - stamp)

unfoldable pub flush_if_due : Env → ℕ → Watch → Watch
unfolding flush_pending_batch
flush_if_due env now watch =
    if is_quiet now watch.last_event_at && not (is_empty watch.pending)
    then record (flush_pending_batch env now watch) { last_event_at = none }
    else watch

-- A turn that does not break.
unfoldable pub watch_turn : Env → Tracker → Turn → Watch → Watch
unfolding enqueue_event_paths flush_if_due
watch_turn env t turn watch = flush_if_due env turn.now (receive t turn.now turn.message watch)

abbrev pub is_disconnected : Message → Bool
is_disconnected (event paths) = false
is_disconnected watch_error = false
is_disconnected timeout = false
is_disconnected disconnected = true

abbrev pub breaks : Turn → Bool
breaks turn = turn.shutdown || is_disconnected turn.message

-- What is left to do after the loop.
unfoldable pub finish_watch : Env → ℕ → Watch → Watch
unfolding flush_pending_batch
finish_watch env now watch =
    if is_empty watch.pending then watch else flush_pending_batch env now watch

-- `cmd_watch` over its turns: it ends at the first one that breaks. Where none does, it is still
-- running.
unfoldable pub cmd_watch : Env → Tracker → List Turn → Watch → Watch
unfolding watch_turn finish_watch
cmd_watch env t [] watch = watch
cmd_watch env t (turn ∷ turns) watch =
    let rest = cmd_watch env t turns (watch_turn env t turn watch) in
    if breaks turn then finish_watch env turn.now watch else rest
