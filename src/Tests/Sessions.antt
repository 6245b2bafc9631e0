-- ===== src/Tests/Sessions.antt =====
-- Runs of src/sessions/resume-manager.ts.
use hugin_agent.Prelude.{◌+◌, ◌≡◌, refl, String, false, none, some, List, [], ◌∷◌, arith}
use hugin_agent.Prelude.Map
use hugin_agent.Jobs.Types.{claude, EngineOutcome}
use hugin_agent.Sessions.ResumeManager.{
  Env, ResumeManager, SessionHandleTarget, started, contains, Input, turn_start, run_event,
  session_ack, run_done, run, cancel_active_turns, step, start_turn, begin_turn, send, enter_turn,
  add_key,
}
use hugin_agent.Sessions.Busy.Kept.{Busy, FreshIds}
use hugin_agent.Sessions.Busy.Timeouts.{Timed, Ending}
use hugin_agent.Sessions.Busy.{run-Busy}
use hugin_agent.Sessions.Terminal.Counts.{Balanced, accepts, results, occupied}
use hugin_agent.Sessions.Terminal.{run_settles}
use hugin_agent.Sessions.Backpressure.{Flow, run-Flow}
use hugin_agent.Tests.Fixtures.{token}

abbrev target : SessionHandleTarget
target = record {
  engine = claude;
  session_id = "s-1";
  cwd = "/repo";
  path = "/p/s-1.jsonl";
  mtime = 3;
}

abbrev env : Env
env = record {
  validate_handle = λ h. some target;
  register_forked = λ t. some "handle-2";
  runner = λ e. some (λ s. started);
  forked_path = λ p id. id;
  now = 9;
  backpressure_cap = 2;
  cancel_grace_ms = 5000;
}

abbrev idle : ResumeManager
idle = record { active = []; turns = []; timers = []; run_count = 0; trace = [] }

abbrev request : String → Input
request turn = turn_start turn (record { request_id = "req-1"; handle = "h-1"; message = "hello" })

-- A turn, a second request for the same session, two events, an acknowledgement and the end.
abbrev inputs : List Input
inputs =
    request "turn-1"
    ∷ request "turn-2"
    ∷ run_event "turn-1" token
    ∷ run_event "turn-1" token
    ∷ session_ack "turn-1" 9
    ∷ run_done "turn-1" (record {
      outcome = EngineOutcome.success none;
      final_message = "done";
      new_session_id = some "s-2";
    })
    ∷ []

idle-Busy : Busy idle
unfolding Map.get contains
idle-Busy = record {
  live_is_active = λ id st h. absurd (ground arith);
  one_per_session = λ i j s t h k e. absurd (ground arith);
  active_has_turn = λ k h. absurd (ground arith);
}

idle-Balanced : Balanced idle
unfolding Map.get accepts results
idle-Balanced = record { balance = λ id. refl }

idle-Flow : Flow 2 idle
unfolding Map.get
idle-Flow = record { flows = λ id st h. absurd (ground arith) }

inputs-FreshIds : FreshIds env inputs idle
unfolding Map.get Map.set step start_turn begin_turn send enter_turn add_key contains
inputs-FreshIds = (refl, (refl, (tt, (tt, (tt, (tt, tt))))))

idle-Timed : Timed idle
unfolding Map.get
idle-Timed = record { armed = λ j h. absurd (ground arith) }

run-Busy_example :
    Busy (run env inputs idle) × Timed (run env inputs idle) × Ending env (run env inputs idle)
run-Busy_example = run-Busy env inputs idle inputs-FreshIds idle-Busy idle-Timed

run_settles_example :
    let m' = run env inputs idle in
    let closed = cancel_active_turns env m' in
    (accepts "turn-1" m'.trace ≡ results "turn-1" m'.trace + occupied (Map.get m'.turns "turn-1"))
    × (accepts "turn-1" closed.trace ≡ results "turn-1" closed.trace)
    × (Map.get closed.turns "turn-1" ≡ none)
    × ((key : String) → contains key closed.active ≡ false)
run_settles_example = run_settles env inputs idle "turn-1" inputs-FreshIds idle-Busy idle-Balanced

run-Flow_example : Flow 2 (run env inputs idle)
run-Flow_example = run-Flow env inputs idle (omega arith) idle-Flow
