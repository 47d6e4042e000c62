-- ===== src/Runtime/Worker.antt =====
-- runtime/src/worker.rs, idle.rs: the worker process, its restarts and its idle shutdown. One request
-- runs at a time, behind the request lock; what the operating system and the worker do is an argument.
use cortex_engine.Common.{
  ℕ, ◌+◌, String, Bool, true, false, not, Option, none, some, List, [], ◌∷◌, if◌then◌else◌, ◌+++◌,
  eqb, ltb, any, filter,
}

-- `process` is the child that the manager holds; `running` are the children that have not exited.
pub record Workers : Type 0 where
  pub process : Option ℕ
  pub running : List ℕ
  pub next_pid : ℕ
  pub last_activity : ℕ

-- What the worker makes of a request.
pub data Answer (Value : Type 0) : Type 0 where
  response : Value → Answer Value
  hangs_up : Answer Value
  fails : Answer Value

-- What happens around one attempt: whether the child has exited by then, what keeps a new one from
-- being started, whether it listens within its 30 seconds, and the answer.
pub record Attempt (Value : Type 0) : Type 0 where
  pub has_exited : Bool
  pub spawn_error : Option String
  pub listens : Bool
  pub answer : Answer Value

pub data Reply (Value : Type 0) : Type 0 where
  replied : Value → Reply Value
  start_failed : String → Reply Value
  crashed : Reply Value

abbrev without : ℕ → List ℕ → List ℕ
without pid pids = filter (λ p. not (eqb p pid)) pids

-- `child_alive`: the child is there and has not exited.
abbrev pub child_alive : Option ℕ → List ℕ → Bool
child_alive none running = false
child_alive (some pid) running = any (λ p. eqb p pid) running

-- The child exits by itself.
unfoldable pub exit_child : Option ℕ → List ℕ → List ℕ
exit_child none running = running
exit_child (some pid) running = without pid running

unfoldable pub kill : Workers → Workers
unfolding exit_child
kill w = record w { process = none; running = exit_child w.process w.running }

abbrev pub start : Workers → Workers
start w = record w {
  process = some w.next_pid;
  running = w.next_pid ∷ w.running;
  next_pid = w.next_pid + 1;
}

unfoldable pub touch : ℕ → Workers → Workers
touch now w = record w { last_activity = now }

module _ {Value : Type 0} where
  -- The child of an attempt, when the attempt comes to it.
  abbrev pub come_to : Attempt Value → Workers → Workers
  come_to a w = if a.has_exited then record w { running = exit_child w.process w.running } else w

  abbrev pub start_child : Attempt Value → Workers → Workers × Option String
  start_child a w = elim a.spawn_error [
    | some why ↦ (record w { process = none }, some why)
    | none ↦
        if a.listens
        then (start w, none)
        else (kill (start w), some "worker did not listen on 127.0.0.1:42385")
  ]

  -- The workers afterwards, and the error if there is one.
  unfoldable pub ensure_running : Attempt Value → Workers → Workers × Option String
  unfolding kill
  ensure_running a w =
      let seen = come_to a w in
      if child_alive seen.process seen.running then (seen, none) else start_child a seen

  -- What an attempt ends with: an answer for the client, or the next attempt.
  abbrev pub settle : Answer Value → Option String → Option (Reply Value)
  settle answer (some why) =
      some (Reply.start_failed ("Failed to start PyTorch worker process: " +++ why))
  settle (Answer.response v) none = some (Reply.replied v)
  settle Answer.hangs_up none = none
  settle Answer.fails none = none

  unfoldable pub retry_loop : List (Attempt Value) → Workers → Workers × Reply Value
  unfolding ensure_running
  retry_loop [] w = (w, Reply.crashed)
  retry_loop (a ∷ attempts) w =
      let (ready, failure) = ensure_running a w in
      let later = retry_loop attempts (kill ready) in
      elim (settle a.answer failure) [ some reply ↦ (ready, reply) | none ↦ later ]

  unfoldable pub forward_with_retry : ℕ → List (Attempt Value) → Workers → Workers × Reply Value
  unfolding retry_loop touch
  forward_with_retry now attempts w = retry_loop attempts (touch now w)

-- The child exits on request or is killed after five seconds.
unfoldable pub shutdown : Workers → Workers
unfolding kill
shutdown w = if child_alive w.process w.running then kill w else record w { process = none }

-- `WorkerManager`: whether a request holds the request lock, and the state.
pub record WorkerManager : Type 0 where
  pub request_lock : Bool
  pub state : Workers

-- How `forward_with_retry` begins: it takes the request lock and notes the time.
unfoldable pub begin_request : ℕ → WorkerManager → WorkerManager
unfolding touch
begin_request now m = record { request_lock = true; state = touch now m.state }

-- What other threads do between the steps of the idle monitor.
pub record Gaps : Type 0 where
  pub after_is_alive : WorkerManager → WorkerManager
  pub after_request_in_progress : WorkerManager → WorkerManager
  pub after_idle_for : WorkerManager → WorkerManager

-- One turn of the idle monitor. It asks for the worker, the request lock and the idle time one after
-- another, and holds no lock between the questions and the shutdown.
unfoldable pub idle_turn : ℕ → ℕ → Gaps → WorkerManager → WorkerManager
unfolding shutdown
idle_turn now timeout_secs gaps m =
    let asked = gaps.after_is_alive m in
    let timed = gaps.after_request_in_progress asked in
    let stopped = gaps.after_idle_for timed in
    if not (child_alive m.state.process m.state.running)
    then m
    else if asked.request_lock
    then asked
    else if ltb (timed.state.last_activity + timeout_secs) now
    then record stopped { state = shutdown stopped.state }
    else timed
