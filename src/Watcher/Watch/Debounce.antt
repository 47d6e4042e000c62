-- ===== src/Watcher/Watch/Debounce.antt =====
-- watcher/src/watch.rs: how long a path stays pending.
use cortex_engine.Common.{ℕ, ◌-◌, ◌<◌, ◌≡◌, ◌⊎◌, String, true, some, is_empty, contains}
use cortex_engine.Watcher.Index.Inspect.{Env}
use package.cortex_engine.Watcher.Watch.{watch_debounce, Watch}
use package.cortex_engine.Watcher.Watch.Caught.{IsCaughtUp}

-- What is pending has the time of an event.
abbrev IsTimed : Watch → Type 0
IsTimed watch = (is_empty watch.pending ≡ true) ⊎ ((stamp : ℕ) × (watch.last_event_at ≡ some stamp))

-- And the event is not long ago.
abbrev IsPrompt : ℕ → Watch → Type 0
IsPrompt now watch =
    (is_empty watch.pending ≡ true)
    ⊎ ((stamp : ℕ) × (watch.last_event_at ≡ some stamp) × (now - stamp < watch_debounce))

-- The path is pending, and the last event is not long ago; or the index has caught up with the file.
abbrev pub IsIndexedSoon : Env → String → ℕ → Watch → Type 0
IsIndexedSoon env q now watch =
    ((contains q watch.pending ≡ true)
      × (stamp : ℕ) × (watch.last_event_at ≡ some stamp)
      × (now - stamp < watch_debounce))
    ⊎ IsCaughtUp env q watch.db
