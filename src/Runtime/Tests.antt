-- ===== src/Runtime/Tests.antt =====
-- A message in three pieces, with a small format of Booleans.
use cortex_engine.Common.{
  ℕ, ◌≡◌, refl, Bool, true, false, Option, none, some, List, [], ◌∷◌, arith, eqb, inr, Option,
  if◌then◌else◌,
}
use cortex_engine.Runtime.Framing.{Segment, Stream, Received, recv_msg, send_msg}
use cortex_engine.Runtime.Worker.{
  Workers, Attempt, Answer, Reply, forward_with_retry, WorkerManager, begin_request, shutdown,
  idle_turn,
}
use cortex_engine.Runtime.Supervision.{
  IsSettled, forward_with_retry-IsSettled, before_shutdown, IsRaced, idle_turn-IsRaced,
}
use cortex_engine.Runtime.Delivery.{IsWhole, content, recv_msg-send_msg}

abbrev to_vec : Bool → List ℕ
to_vec true = 116 ∷ 114 ∷ []
to_vec false = 102 ∷ []

abbrev from_slice : List ℕ → Option Bool
from_slice [] = none
from_slice (b ∷ bs) = if eqb b 116 then some true else some false

reads_back : (b : Bool) → from_slice (to_vec b) ≡ some b
reads_back true = refl
reads_back false = refl

abbrev pieces : Stream
pieces =
    Segment.bytes (0 ∷ 0 ∷ 0 ∷ [])
    ∷ Segment.bytes (2 ∷ 116 ∷ [])
    ∷ Segment.bytes (114 ∷ 0 ∷ [])
    ∷ []

received : recv_msg to_vec from_slice pieces ≡ (Received.message true, Segment.bytes (0 ∷ []) ∷ [])
unfolding recv_msg
received = refl

recv_msg-send_msg_example :
    (rest : Stream) × (recv_msg to_vec from_slice pieces ≡ (Received.message true, rest))
    × IsWhole rest
    × (content rest ≡ 0 ∷ [])
unfolding IsWhole content send_msg
recv_msg-send_msg_example =
    recv_msg-send_msg to_vec from_slice reads_back true pieces (0 ∷ []) (omega arith) tt refl

-- A worker that runs, with two requests: it hangs up, and the next one answers.
abbrev workers : Workers
workers = record { process = some 1; running = 1 ∷ []; next_pid = 2; last_activity = 10 }

abbrev attempts : List (Attempt ℕ)
attempts =
    record { has_exited = false; spawn_error = none; listens = true; answer = Answer.hangs_up }
    ∷ record { has_exited = false; spawn_error = none; listens = true; answer = Answer.response 7 }
    ∷ []

restarted : forward_with_retry 20 attempts workers ≡ (
  record { process = some 2; running = 2 ∷ []; next_pid = 3; last_activity = 20 },
  Reply.replied 7,
)
unfolding forward_with_retry
restarted = refl

forward_with_retry-IsSettled_example : IsSettled (forward_with_retry 20 attempts workers)
forward_with_retry-IsSettled_example =
    forward_with_retry-IsSettled 20 attempts workers refl (inr (1, refl, refl))

abbrev manager : WorkerManager
manager = record { request_lock = false; state = workers }

killed_under_request :
    (idle_turn 400 300 (before_shutdown (begin_request 400)) manager).state.running ≡ []
unfolding idle_turn begin_request shutdown
killed_under_request = refl

idle_turn-IsRaced_example : IsRaced 400 300 manager
idle_turn-IsRaced_example =
    idle_turn-IsRaced 400 300 manager refl refl (omega arith) (inr (1, refl, refl))
