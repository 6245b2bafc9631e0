-- ===== src/Sessions/ResumeManager.antt =====
-- Turns of attached sessions: SessionResumeManager of src/sessions/resume-manager.ts. Sends and calls of
-- the runner's process are recorded in `trace`, newest first. A run calls back in a later step.
pub mod State
unfoldable pub use State.*
use hugin_agent.Prelude.{
  ℕ, suc, ◌-◌, ◌≡◌, refl, String, Bool, true, false, not, ◌&&◌, ◌||◌, Option, none, some, List, [],
  ◌∷◌, ◌++◌, leb, str_eq, if◌then◌else◌, min, max, filter, ◌<>◌, arith, eq_iff,
}
use hugin_agent.Prelude.Map
use hugin_agent.Prelude.Map.{Map}
use hugin_agent.Conn.Outbound.{EngineEvent}
use hugin_agent.Jobs.Types.{EngineName, claude, codex, EngineOutcome}

unfoldable pub reject : TurnStart → String → String → ResumeManager → ResumeManager
unfolding send
reject req code message m = send (resume_reject req.request_id code message) m

-- The exception handler of `startTurn`.
unfoldable pub fail_start : String → String → String → ResumeManager → ResumeManager
unfolding finalize send
fail_start id key message m =
    let ended = finalize id error message none m in
    if Map.has m.turns id
    then ended
    else record (send (turn_result id error message none) m) { active = delete_key key m.active }

abbrev pub new_turn : SessionHandleTarget → ℕ → TurnState
new_turn target run = record {
  key = session_key target;
  target = target;
  run = run;
  sent_seq = 0;
  acked_seq = 0;
  finalized = false;
  paused = false;
}

-- The run is there: the turn is entered, and its timeout armed.
unfoldable pub enter_turn :
    String → SessionHandleTarget → ResumeSpec → ResumeManager → ResumeManager
enter_turn id target spec m = record m {
  turns = Map.set m.turns id (new_turn target m.run_count);
  timers = id ∷ m.timers;
  run_count = suc m.run_count;
  trace = runs m.run_count spec ∷ m.trace;
}

abbrev pub spec_of : SessionHandleTarget → String → ResumeSpec
spec_of target message = record {
  engine = target.engine;
  session_id = target.session_id;
  cwd = target.cwd;
  message = message;
  fork = plan_forks target.engine;
}

unfoldable pub begin_turn :
    String
    → TurnStart
    → SessionHandleTarget
    → (ResumeSpec → Started)
    → ResumeManager
    → ResumeManager
unfolding send fail_start enter_turn
begin_turn id req target run m =
    let fork = plan_forks target.engine in
    let spec = spec_of target req.message in
    let accepted =
      send (resume_accept req.request_id id fork (not fork))
        (record m { active = add_key (session_key target) m.active }) in
    elim (run spec) [
      | started ↦ enter_turn id target spec accepted
      | throws message ↦ fail_start id (session_key target) message accepted
      | attach_throws message ↦
          fail_start id (session_key target) message (enter_turn id target spec accepted)
    ]

-- `startTurn`; the turn's id is drawn outside.
unfoldable pub start_turn : Env → String → TurnStart → ResumeManager → ResumeManager
unfolding begin_turn reject
start_turn env id req m = elim (env.validate_handle req.handle) [
  | none ↦ reject req "handle_invalid" "session handle is invalid or stale" m
  | some target ↦ elim (env.runner target.engine) [
    | none ↦
        reject req "engine_unavailable"
          (engine_text target.engine <> " resume runner is not available") m
    | some run ↦
        if contains (session_key target) m.active
        then reject req "session_busy" "a resume turn is already active for this session" m
        else begin_turn id req target run m
  ]
]

unfoldable pub handle_cancel : Env → String → ResumeManager → ResumeManager
handle_cancel env id m = elim (live_turn m id) [
  | none ↦ m
  | some st ↦ record m { trace = cancels st.run env.cancel_grace_ms ∷ m.trace }
]

unfoldable pub maybe_resume : Env → String → TurnState → ResumeManager → ResumeManager
unfolding write_turn
maybe_resume env id st m =
    if not st.paused || leb env.backpressure_cap (st.sent_seq - st.acked_seq)
    then write_turn id st m
    else write_turn id (record st { paused = false })
        (record m { trace = resumes st.run ∷ m.trace })

unfoldable pub handle_ack : Env → String → ℕ → ResumeManager → ResumeManager
unfolding maybe_resume
handle_ack env id ack_seq m = elim (live_turn m id) [
  | none ↦ m
  | some st ↦
      maybe_resume env id (record st { acked_seq = max st.acked_seq (min ack_seq st.sent_seq) }) m
]

unfoldable pub handle_run_event : Env → String → EngineEvent → ResumeManager → ResumeManager
unfolding send write_turn
handle_run_event env id ev m = elim (live_turn m id) [
  | none ↦ m
  | some st ↦
      let counted = record st { sent_seq = suc st.sent_seq } in
      let sent = send (session_event id (suc st.sent_seq) ev) m in
      if not st.paused && leb env.backpressure_cap (suc st.sent_seq - st.acked_seq)
      then write_turn id (record counted { paused = true })
          (record sent { trace = pauses st.run ∷ sent.trace })
      else write_turn id counted sent
]

-- `plan.fork && result.newSessionId ? this.registerFork(…) : undefined`
unfoldable pub fork_handle : Env → SessionHandleTarget → Option String → Option String
fork_handle env target none = none
fork_handle env target (some id) =
    if plan_forks target.engine && not (str_eq id "")
    then env.register_forked
        (record target { session_id = id; path = env.forked_path target.path id; mtime = env.now })
    else none

unfoldable pub handle_run_done : Env → String → ResumeDone → ResumeManager → ResumeManager
unfolding finalize fork_handle
handle_run_done env id result m = elim (live_turn m id) [
  | none ↦ m
  | some st ↦
      finalize id (status_from_outcome result.outcome) result.final_message
        (fork_handle env st.target result.new_session_id) m
]

-- The timeout of a turn runs out, if it is still armed.
unfoldable pub turn_times_out : Env → String → ResumeManager → ResumeManager
unfolding finalize
turn_times_out env id m =
    let fired = record m { timers = delete_key id m.timers } in
    if contains id m.timers
    then elim (live_turn m id) [
      | none ↦ fired
      | some st ↦
          finalize id error "resume turn timed out" none
            (record fired { trace = cancels st.run env.cancel_grace_ms ∷ m.trace })
    ]
    else m

unfoldable pub cancel_turns : Env → List (String × TurnState) → ResumeManager → ResumeManager
unfolding finalize
cancel_turns env [] m = m
cancel_turns env ((id, st) ∷ rest) m =
    let cancelled_one =
      finalize id cancelled "session connection closed" none
        (record m { trace = cancels st.run env.cancel_grace_ms ∷ m.trace }) in
    if st.finalized then cancel_turns env rest m else cancel_turns env rest cancelled_one

-- `cancelActiveTurns`, over a copy of the map's entries.
unfoldable pub cancel_active_turns : Env → ResumeManager → ResumeManager
unfolding cancel_turns
cancel_active_turns env m = cancel_turns env m.turns m

pub data Input : Type 0 where
  turn_start : String → TurnStart → Input
  session_cancel : String → Input
  session_ack : String → ℕ → Input
  run_event : String → EngineEvent → Input
  run_done : String → ResumeDone → Input
  turn_timeout : String → Input
  connection_closed : Input

unfoldable pub step : Env → Input → ResumeManager → ResumeManager
step env (turn_start id req) m = start_turn env id req m
step env (session_cancel id) m = handle_cancel env id m
step env (session_ack id ack_seq) m = handle_ack env id ack_seq m
step env (run_event id ev) m = handle_run_event env id ev m
step env (run_done id result) m = handle_run_done env id result m
step env (turn_timeout id) m = turn_times_out env id m
step env connection_closed m = cancel_active_turns env m

unfoldable pub run : Env → List Input → ResumeManager → ResumeManager
run env [] m = m
run env (i ∷ is) m = run env is (step env i m)
