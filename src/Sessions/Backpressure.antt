-- ===== src/Sessions/Backpressure.antt =====
-- Backpressure of src/sessions/resume-manager.ts: a turn is paused exactly while too many of its events
-- are unacknowledged.
use hugin_agent.Prelude.{
  ℕ, suc, ◌-◌, ◌≤◌, ◌<◌, ◌≡◌, refl, sym, ap, inl, inr, String, ◌&&◌, ◌||◌, Option, none, some, List,
  [], ◌∷◌, leb, Bool-cases, Option-cases, arith, min, max,
}
use mathlib.Core.Path.{subst}
use hugin_agent.Prelude.Map
use hugin_agent.Conn.Outbound.{EngineEvent}
use hugin_agent.Sessions.ResumeManager.{
  Env, ResumeManager, TurnState, TurnStart, SessionHandleTarget, Started, cancels, ResumeSpec,
  ResumeDone, cancelled, TurnStatus, live_turn, write_turn, finalize, fail_start, enter_turn,
  new_turn, spec_of, begin_turn, start_turn, reject, handle_cancel, maybe_resume, handle_ack,
  handle_run_event, handle_run_done, turn_times_out, cancel_turns, cancel_active_turns, Input, step,
  run, send, turn_start, session_cancel, session_ack, run_event, run_done, turn_timeout,
  connection_closed,
}
use hugin_agent.Sessions.Busy.Kept.{live_turn-some}
use hugin_agent.Sessions.Busy.Start.{start_cases, Started-cases}

abbrev InFlow : ℕ → TurnState → Type 0
InFlow cap st = (st.acked_seq ≤ st.sent_seq) × (st.paused ≡ leb cap (st.sent_seq - st.acked_seq))

-- No turn has more acknowledged than sent, and each is paused exactly while the unacknowledged events
-- reach the cap.
pub record Flow (cap : ℕ) (m : ResumeManager) : Type 0 where
  pub flows : (id : String) (st : TurnState) → Map.get m.turns id ≡ some st → InFlow cap st

Flow-same : (cap : ℕ) (m m' : ResumeManager) → m'.turns ≡ m.turns → Flow cap m → Flow cap m'
Flow-same cap m m' t f = record { flows = λ id st h. f.flows id st (rw (← t) h) }

Flow-set :
    (cap : ℕ) (m m' : ResumeManager) (id : String) (st : TurnState)
    → m'.turns ≡ Map.set m.turns id st
    → InFlow cap st
    → Flow cap m
    → Flow cap m'
Flow-set cap m m' id st t ok f = record {
  flows = λ j s h.
      ground (arith, ap (λ ts. Map.get ts j) t, h, Map.get-set m.turns id j st, f.flows j s, ok);
}

Flow-finalize :
    (cap : ℕ) (id : String) (status : TurnStatus) (message : String) (handle : Option String)
    (m : ResumeManager)
    → Flow cap m
    → Flow cap (finalize id status message handle m)
unfolding finalize
Flow-finalize cap id status message handle m f = record {
  flows = λ j s h. ground (arith, h, Map.get-remove m.turns id j, f.flows j s);
}

begin_turn-Flow :
    (cap : ℕ) (id : String) (req : TurnStart) (target : SessionHandleTarget)
    (runner : ResumeSpec → Started) (m : ResumeManager)
    → 0 < cap
    → Flow cap m
    → Flow cap (begin_turn id req target runner m)
unfolding begin_turn fail_start send enter_turn finalize
begin_turn-Flow cap id req target runner m pos f = record {
  flows = λ j s h. ground (
    arith,
    h,
    Started-cases (runner (spec_of target req.message)),
    Map.get-set m.turns id j (new_turn target m.run_count),
    Map.get-remove m.turns id j,
    Map.get-remove (Map.set m.turns id (new_turn target m.run_count)) id j,
    f.flows j s,
  );
}

handle_ack-Flow :
    (env : Env) (id : String) (ack_seq : ℕ) (m : ResumeManager)
    → Flow env.backpressure_cap m
    → Flow env.backpressure_cap (handle_ack env id ack_seq m)
unfolding handle_ack maybe_resume write_turn
handle_ack-Flow env id ack_seq m f = elim (Option-cases (live_turn m id)) [
  | inl gone ↦ Flow-same env.backpressure_cap m m' (ground arith) f
  | inr (st, live) ↦
      let acked = max st.acked_seq (min ack_seq st.sent_seq) in
      let kept = f.flows id st (live_turn-some m id st live) in
      let now_paused = st.paused && leb env.backpressure_cap (st.sent_seq - acked) in
      Flow-set env.backpressure_cap m m' id (record st { acked_seq = acked; paused = now_paused })
        (ground arith) (ground arith) f
]
  where
    m' : ResumeManager
    m' = handle_ack env id ack_seq m

handle_run_event-Flow :
    (env : Env) (id : String) (ev : EngineEvent) (m : ResumeManager)
    → Flow env.backpressure_cap m
    → Flow env.backpressure_cap (handle_run_event env id ev m)
unfolding handle_run_event write_turn send
handle_run_event-Flow env id ev m f = elim (Option-cases (live_turn m id)) [
  | inl gone ↦ Flow-same env.backpressure_cap m m' (ground arith) f
  | inr (st, live) ↦
      let kept = f.flows id st (live_turn-some m id st live) in
      let now_paused = st.paused || leb env.backpressure_cap (suc st.sent_seq - st.acked_seq) in
      Flow-set env.backpressure_cap m m' id
        (record st { sent_seq = suc st.sent_seq; paused = now_paused }) (ground arith)
        (ground arith) f
]
  where
    m' : ResumeManager
    m' = handle_run_event env id ev m

start_turn-Flow :
    (env : Env) (id : String) (req : TurnStart) (m : ResumeManager)
    → 0 < env.backpressure_cap
    → Flow env.backpressure_cap m
    → Flow env.backpressure_cap (start_turn env id req m)
unfolding reject send
start_turn-Flow env id req m pos f = elim (start_cases env id req m) [
  | inl (code, message, e) ↦
      Flow-same env.backpressure_cap m (start_turn env id req m)
        (ap (λ (x : ResumeManager). x.turns) e) f
  | inr (target, runner, e, idle) ↦
      subst (Flow env.backpressure_cap) (sym e)
        (begin_turn-Flow env.backpressure_cap id req target runner m pos f)
]

handle_run_done-Flow :
    (env : Env) (id : String) (result : ResumeDone) (m : ResumeManager)
    → Flow env.backpressure_cap m
    → Flow env.backpressure_cap (handle_run_done env id result m)
unfolding handle_run_done finalize
handle_run_done-Flow env id result m f = record {
  flows = λ j s h. ground (arith, h, Map.get-remove m.turns id j, f.flows j s);
}

turn_times_out-Flow :
    (env : Env) (id : String) (m : ResumeManager)
    → Flow env.backpressure_cap m
    → Flow env.backpressure_cap (turn_times_out env id m)
unfolding turn_times_out finalize
turn_times_out-Flow env id m f = record {
  flows = λ j s h. ground (arith, h, Map.get-remove m.turns id j, f.flows j s);
}

cancel_turns-Flow :
    (env : Env) (ts : List (String × TurnState)) (m : ResumeManager)
    → Flow env.backpressure_cap m
    → Flow env.backpressure_cap (cancel_turns env ts m)
unfolding cancel_turns
cancel_turns-Flow env [] m f = f
cancel_turns-Flow env ((id, st) ∷ rest) m f =
    let told = record m { trace = cancels st.run env.cancel_grace_ms ∷ m.trace } in
    let ended = finalize id cancelled "session connection closed" none told in
    elim (Bool-cases st.finalized) [
      | inl over ↦
          subst (Flow env.backpressure_cap) (sym (ground arith)) (cancel_turns-Flow env rest m f)
      | inr live ↦ subst (Flow env.backpressure_cap) (sym (ground arith)) (
          cancel_turns-Flow env rest ended (
            Flow-finalize env.backpressure_cap id cancelled "session connection closed" none told
              (Flow-same env.backpressure_cap m told refl f)))
    ]

step-Flow :
    (env : Env) (i : Input) (m : ResumeManager)
    → 0 < env.backpressure_cap
    → Flow env.backpressure_cap m
    → Flow env.backpressure_cap (step env i m)
unfolding step handle_cancel
step-Flow env (turn_start id req) m pos f = start_turn-Flow env id req m pos f
step-Flow env (session_cancel id) m pos f =
    Flow-same env.backpressure_cap m (handle_cancel env id m) (ground arith) f
step-Flow env (session_ack id n) m pos f = handle_ack-Flow env id n m f
step-Flow env (run_event id ev) m pos f = handle_run_event-Flow env id ev m f
step-Flow env (run_done id result) m pos f = handle_run_done-Flow env id result m f
step-Flow env (turn_timeout id) m pos f = turn_times_out-Flow env id m f
step-Flow env connection_closed m pos f =
    unfold cancel_active_turns in cancel_turns-Flow env m.turns m f

-- With a positive cap, along any run every turn has acknowledged at most what was sent to the relay,
-- whatever numbers the acknowledgements carry, and is paused exactly while its unacknowledged events
-- reach the cap: none is left paused below it.
pub run-Flow :
    (env : Env) (is : List Input) (m : ResumeManager)
    → 0 < env.backpressure_cap
    → Flow env.backpressure_cap m
    → Flow env.backpressure_cap (run env is m)
unfolding run
run-Flow env [] m pos f = f
run-Flow env (i ∷ is) m pos f = run-Flow env is (step env i m) pos (step-Flow env i m pos f)
