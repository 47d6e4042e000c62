-- ===== src/Runtime/Supervision.antt =====
-- runtime/src/worker.rs, idle.rs: the children that run after a request or an idle turn.
use cortex_engine.Common.{
  ℕ, ◌+◌, ◌≡◌, refl, ◌⊎◌, inl, inr, String, Bool, true, false, Option, none, some, List, [], ◌∷◌,
  if◌then◌else◌, arith, is_empty, ◌<◌,
}
use cortex_engine.Runtime.Worker.{
  Workers, Answer, Attempt, Reply, child_alive, exit_child, kill, start, touch, come_to,
  start_child, ensure_running, settle, retry_loop, forward_with_retry, shutdown, WorkerManager,
  begin_request, Gaps, idle_turn,
}

-- Nothing runs, or just the child that the manager holds.
abbrev pub IsSupervised : Option ℕ → List ℕ → Type 0
IsSupervised process running =
    (running ≡ []) ⊎ ((pid : ℕ) × (process ≡ some pid) × (running ≡ pid ∷ []))

exit_child-nothing :
    (process : Option ℕ) (running : List ℕ)
    → IsSupervised process running
    → exit_child process running ≡ []
unfolding exit_child
exit_child-nothing none running (inl e) = e
exit_child-nothing none running (inr (pid, p, e)) = absurd (ground (arith, p))
exit_child-nothing (some q) running (inl e) = rw e refl
exit_child-nothing (some q) running (inr (pid, p, e)) = rw e (ground (arith, p))

abbrev AreSupervised : Workers → Type 0
AreSupervised w = IsSupervised w.process w.running

kill-nothing : (w : Workers) → AreSupervised w → (kill w).running ≡ []
unfolding kill
kill-nothing w h = exit_child-nothing w.process w.running h

not_alive :
    (process : Option ℕ) (running : List ℕ)
    → IsSupervised process running
    → child_alive process running ≡ false
    → running ≡ []
not_alive process running (inl e) h = e
not_alive process running (inr (pid, p, e)) h = absurd (ground (arith, p, e, h))

-- A worker that could not be started leaves nothing running.
abbrev IsReady : Workers × Option String → Type 0
IsReady (w, none) = AreSupervised w
IsReady (w, some why) = w.running ≡ []

module _ {Value : Type 0} where
  come_to-IsSupervised :
      (a : Attempt Value) (w : Workers) → AreSupervised w → AreSupervised (come_to a w)
  come_to-IsSupervised a w h = pick a.has_exited
    where
      pick :
          (b : Bool)
          → AreSupervised (if b then record w { running = exit_child w.process w.running } else w)
      pick true = inl (exit_child-nothing w.process w.running h)
      pick false = h

  start_child-IsReady :
      (a : Attempt Value) (w : Workers) → w.running ≡ [] → IsReady (start_child a w)
  start_child-IsReady a w h = pick a.spawn_error a.listens
    where
      started : AreSupervised (start w)
      started = inr (w.next_pid, refl, rw h refl)

      pick :
          (e : Option String) (listens : Bool)
          → IsReady (elim e [
            | some why ↦ (record w { process = none }, some why)
            | none ↦
                if listens
                then (start w, none)
                else (kill (start w), some "worker did not listen on 127.0.0.1:42385")
          ])
      pick (some why) listens = h
      pick none true = started
      pick none false = kill-nothing (start w) started

  ensure_running-IsReady :
      (a : Attempt Value) (w : Workers) → AreSupervised w → IsReady (ensure_running a w)
  unfolding ensure_running
  ensure_running-IsReady a w h = pick (child_alive (come_to a w).process (come_to a w).running) refl
    where
      pick :
          (b : Bool)
          → child_alive (come_to a w).process (come_to a w).running ≡ b
          → IsReady (if b then (come_to a w, none) else start_child a (come_to a w))
      pick true e = come_to-IsSupervised a w h
      pick false e =
          start_child-IsReady a (come_to a w)
            (not_alive (come_to a w).process (come_to a w).running (come_to-IsSupervised a w h) e)

  -- Without an answer from the worker, nothing is left running.
  abbrev pub IsSettled : Workers × Reply Value → Type 0
  IsSettled (w, Reply.replied v) = AreSupervised w
  IsSettled (w, Reply.start_failed why) = w.running ≡ []
  IsSettled (w, Reply.crashed) = w.running ≡ []

  retry_loop-IsSettled :
      (attempts : List (Attempt Value)) (w : Workers)
      → AreSupervised w
      → (is_empty attempts ≡ true → w.running ≡ [])
      → IsSettled (retry_loop attempts w)
  unfolding retry_loop
  retry_loop-IsSettled [] w h e = e refl
  retry_loop-IsSettled (a ∷ attempts) w h e =
      pick (ensure_running a w) a.answer (ensure_running-IsReady a w h)
        (λ x n. retry_loop-IsSettled attempts x (inl n) (λ _. n))
    where
      pick :
          (r : Workers × Option String) (answer : Answer Value)
          → IsReady r
          → ((x : Workers) → x.running ≡ [] → IsSettled (retry_loop attempts x))
          → IsSettled (elim (settle answer r.1) [
            | some reply ↦ (r.0, reply)
            | none ↦ retry_loop attempts (kill r.0)
          ])
      pick (ready, some why) answer k later = k
      pick (ready, none) (Answer.response v) k later = k
      pick (ready, none) Answer.hangs_up k later = later (kill ready) (kill-nothing ready k)
      pick (ready, none) Answer.fails k later = later (kill ready) (kill-nothing ready k)

  -- From a state in which nothing runs but the child that the manager holds, a request with at least
  -- one attempt leads to such a state again; and when it is not answered, nothing is left running.
  pub forward_with_retry-IsSettled :
      (now : ℕ) (attempts : List (Attempt Value)) (w : Workers)
      → is_empty attempts ≡ false
      → IsSupervised w.process w.running
      → IsSettled (forward_with_retry now attempts w)
  unfolding forward_with_retry touch
  forward_with_retry-IsSettled now attempts w some_attempt h =
      retry_loop-IsSettled attempts (touch now w) h (λ e. absurd (ground (arith, e, some_attempt)))

shutdown-nothing : (w : Workers) → AreSupervised w → (shutdown w).running ≡ []
unfolding shutdown
shutdown-nothing w h = pick (child_alive w.process w.running) refl
  where
    pick :
        (b : Bool)
        → child_alive w.process w.running ≡ b
        → (if b then kill w else record w { process = none }).running ≡ []
    pick true e = kill-nothing w h
    pick false e = not_alive w.process w.running h e

-- One thing that other threads do, after the first question of the monitor, after the second, and
-- after the third.
abbrev before_lock : (WorkerManager → WorkerManager) → Gaps
before_lock act = record {
  after_is_alive = act;
  after_request_in_progress = λ m. m;
  after_idle_for = λ m. m;
}

abbrev before_time : (WorkerManager → WorkerManager) → Gaps
before_time act = record {
  after_is_alive = λ m. m;
  after_request_in_progress = act;
  after_idle_for = λ m. m;
}

abbrev pub before_shutdown : (WorkerManager → WorkerManager) → Gaps
before_shutdown act = record {
  after_is_alive = λ m. m;
  after_request_in_progress = λ m. m;
  after_idle_for = act;
}

-- What a turn does with a request that began before it, with one that begins during it, by the gap in
-- which it begins, and with none.
abbrev pub IsRaced : ℕ → ℕ → WorkerManager → Type 0
IsRaced now timeout_secs m =
    let begins = begin_request now in
    let raced = idle_turn now timeout_secs (before_shutdown begins) m in
    (idle_turn now timeout_secs (before_lock (λ other. other)) (record m { request_lock = true })
      ≡ record m { request_lock = true })
    × (idle_turn now timeout_secs (before_lock begins) m ≡ begins m)
    × (idle_turn now timeout_secs (before_time begins) m ≡ begins m)
    × (raced.request_lock ≡ true)
    × (raced.state.running ≡ [])
    × ((idle_turn now timeout_secs (before_shutdown (λ other. other)) m).state.running ≡ [])

-- A worker has been idle for longer than the timeout, and no request runs, when a turn of the idle
-- monitor begins. If a request begins before the turn has looked at the request lock, or before it
-- has looked at the idle time, the turn leaves the worker alone. If it begins after that, it holds the
-- request lock, and still nothing runs at the end of the turn. If none begins, nothing runs either. And
-- if in the same state a request holds the lock already, for however long, the turn changes nothing.
pub idle_turn-IsRaced :
    (now timeout_secs : ℕ) (m : WorkerManager)
    → child_alive m.state.process m.state.running ≡ true
    → m.request_lock ≡ false
    → m.state.last_activity + timeout_secs < now
    → IsSupervised m.state.process m.state.running
    → IsRaced now timeout_secs m
unfolding idle_turn begin_request touch
idle_turn-IsRaced now timeout_secs m alive free idle h = (
  ground (arith, alive),
  ground (arith, alive),
  ground (arith, alive, free),
  ground (arith, alive, free, idle),
  ground (arith, alive, free, idle, shutdown-nothing (touch now m.state) h),
  ground (arith, alive, free, idle, shutdown-nothing m.state h),
)
