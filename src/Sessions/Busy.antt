-- ===== src/Sessions/Busy.antt =====
-- One turn per session: the active set of src/sessions/resume-manager.ts and its turns agree.
pub mod Kept
pub mod Start
pub mod Timeouts
use hugin_agent.Prelude.{
  ℕ, suc, ◌≡◌, refl, sym, ap, ◌∙◌, ◌⊎◌, inl, inr, String, Bool, true, false, not, ◌&&◌, ◌||◌,
  Option, none, some, List, [], ◌∷◌, leb, str_eq, ◌<>◌, if◌then◌else◌, Bool-cases, Option-cases,
  arith, eq_iff, is_some, ◌-◌, min, max,
}
use mathlib.Core.Path.{subst}
use hugin_agent.Prelude.Map
use hugin_agent.Conn.Outbound.{EngineEvent}
use hugin_agent.Sessions.ResumeManager.{
  Env, ResumeManager, TurnState, TurnStart, SessionHandleTarget, Started, started, throws,
  attach_throws, ResumeSpec, ResumeDone, cancelled, status_from_outcome, fork_handle, delete_key,
  TurnStatus, Effect, resumes, pauses, cancels, error, resume_accept, engine_text, plan_forks,
  add_key, contains, contains-add_key, contains-delete_key, session_key, live_turn, write_turn,
  finalize, fail_start, enter_turn, new_turn, spec_of, begin_turn, start_turn, reject,
  handle_cancel, maybe_resume, handle_ack, handle_run_event, handle_run_done, turn_times_out,
  cancel_turns, cancel_active_turns, Input, step, run, send, turn_start, session_cancel,
  session_ack, run_event, run_done, turn_timeout, connection_closed,
}
use Timeouts.{Timed, Ending, step-Timed, Busy-Ending}
use Kept.{
  Busy, Unused, FreshIds, Busy-equal, Busy-same, written_before, Busy-write, live_turn-some,
  live_turn-none, removed_before, finalized-Busy, Busy-finalize,
}
use Start.{
  entered-Busy, Started-cases, start_cases, entered_turn-Busy, begin_turn-Busy, start_turn-Busy,
}

maybe_resume-Busy :
    (env : Env) (m : ResumeManager) (id : String) (old st : TurnState)
    → Map.get m.turns id ≡ some old
    → st.key ≡ old.key
    → st.finalized ≡ false
    → Busy m
    → Busy (maybe_resume env id st m)
unfolding maybe_resume
maybe_resume-Busy env m id old st at key fin b =
    elim (Bool-cases (not st.paused || leb env.backpressure_cap (st.sent_seq - st.acked_seq))) [
      | inl stays ↦ subst Busy (sym (ground arith)) (Busy-write m id old st at key fin b)
      | inr runs_on ↦ subst Busy (sym (ground arith)) (
          Busy-write (record m { trace = resumes st.run ∷ m.trace }) id old
            (record st { paused = false }) at key fin
            (Busy-same m (record m { trace = resumes st.run ∷ m.trace }) refl refl b))
    ]

handle_ack-Busy :
    (env : Env) (id : String) (ack_seq : ℕ) (m : ResumeManager)
    → Busy m
    → Busy (handle_ack env id ack_seq m)
unfolding handle_ack
handle_ack-Busy env id ack_seq m b = elim (Option-cases (live_turn m id)) [
  | inl gone ↦ Busy-same m (handle_ack env id ack_seq m) (ground arith) (ground arith) b
  | inr (st, live) ↦
      let at = live_turn-some m id st live in
      subst Busy (sym (ground arith)) (
        maybe_resume-Busy env m id st
          (record st { acked_seq = max st.acked_seq (min ack_seq st.sent_seq) }) at refl
          (b.live_is_active id st at).1 b)
]

handle_run_event-Busy :
    (env : Env) (id : String) (ev : EngineEvent) (m : ResumeManager)
    → Busy m
    → Busy (handle_run_event env id ev m)
unfolding handle_run_event write_turn send
handle_run_event-Busy env id ev m b = elim (Option-cases (live_turn m id)) [
  | inl gone ↦ Busy-same m m' (ground arith) (ground arith) b
  | inr (st, live) ↦
      let at = live_turn-some m id st live in
      let now_paused =
        if not st.paused && leb env.backpressure_cap (suc st.sent_seq - st.acked_seq)
        then true
        else st.paused in
      let st' = record st { sent_seq = suc st.sent_seq; paused = now_paused } in
      Busy-same (write_turn id st' m) m' (ground arith) (ground arith)
        (Busy-write m id st st' at refl (b.live_is_active id st at).1 b)
]
  where
    m' : ResumeManager
    m' = handle_run_event env id ev m

handle_cancel-Busy :
    (env : Env) (id : String) (m : ResumeManager) → Busy m → Busy (handle_cancel env id m)
unfolding handle_cancel
handle_cancel-Busy env id m b = Busy-same m (handle_cancel env id m) (ground arith) (ground arith) b

handle_run_done-Busy :
    (env : Env) (id : String) (result : ResumeDone) (m : ResumeManager)
    → Busy m
    → Busy (handle_run_done env id result m)
unfolding handle_run_done
handle_run_done-Busy env id result m b = elim (Option-cases (live_turn m id)) [
  | inl gone ↦ subst Busy (sym (ground arith)) b
  | inr (st, live) ↦ subst Busy (sym (ground arith)) (
      Busy-finalize id (status_from_outcome result.outcome) result.final_message
        (fork_handle env st.target result.new_session_id) m b)
]

turn_times_out-Busy :
    (env : Env) (id : String) (m : ResumeManager) → Busy m → Busy (turn_times_out env id m)
unfolding turn_times_out
turn_times_out-Busy env id m b = elim (Bool-cases (contains id m.timers)) [
  | inr unarmed ↦ subst Busy (sym (ground arith)) b
  | inl armed ↦ elim (Option-cases (live_turn m id)) [
    | inl gone ↦ Busy-same m (turn_times_out env id m) (ground arith) (ground arith) b
    | inr (st, live) ↦
        let fired = record m {
          timers = delete_key id m.timers;
          trace = cancels st.run env.cancel_grace_ms ∷ m.trace;
        } in
        subst Busy (sym (ground arith)) (
          Busy-finalize id error "resume turn timed out" none fired (Busy-same m fired refl refl b))
  ]
]

pub cancel_turns-Busy :
    (env : Env) (ts : List (String × TurnState)) (m : ResumeManager)
    → Busy m
    → Busy (cancel_turns env ts m)
unfolding cancel_turns
cancel_turns-Busy env [] m b = b
cancel_turns-Busy env ((id, st) ∷ rest) m b =
    let told = record m { trace = cancels st.run env.cancel_grace_ms ∷ m.trace } in
    let ended = finalize id cancelled "session connection closed" none told in
    elim (Bool-cases st.finalized) [
      | inl over ↦ subst Busy (sym (ground arith)) (cancel_turns-Busy env rest m b)
      | inr live ↦ subst Busy (sym (ground arith)) (
          cancel_turns-Busy env rest ended (
            Busy-finalize id cancelled "session connection closed" none told
              (Busy-same m told refl refl b)))
    ]

step-Busy : (env : Env) (i : Input) (m : ResumeManager) → Unused i m → Busy m → Busy (step env i m)
unfolding step
step-Busy env (turn_start id req) m u b = start_turn-Busy env id req m u b
step-Busy env (session_cancel id) m u b = handle_cancel-Busy env id m b
step-Busy env (session_ack id n) m u b = handle_ack-Busy env id n m b
step-Busy env (run_event id ev) m u b = handle_run_event-Busy env id ev m b
step-Busy env (run_done id result) m u b = handle_run_done-Busy env id result m b
step-Busy env (turn_timeout id) m u b = turn_times_out-Busy env id m b
step-Busy env connection_closed m u b =
    unfold cancel_active_turns in cancel_turns-Busy env m.turns m b

run-Kept :
    (env : Env) (is : List Input) (m : ResumeManager)
    → FreshIds env is m
    → Busy m
    → Timed m
    → Busy (run env is m) × Timed (run env is m)
unfolding run
run-Kept env [] m f b k = (b, k)
run-Kept env (i ∷ is) m f b k =
    run-Kept env is (step env i m) f.1 (step-Busy env i m f.0 b) (step-Timed env i m f.0 b k)

pub run_stays-Busy :
    (env : Env) (is : List Input) (m : ResumeManager)
    → FreshIds env is m
    → Busy m
    → Busy (run env is m)
unfolding run
run_stays-Busy env [] m f b = b
run_stays-Busy env (i ∷ is) m f b =
    run_stays-Busy env is (step env i m) f.1 (step-Busy env i m f.0 b)

-- Whatever arrives, and in whatever order, the active set and the turns stay in step: no session has
-- two turns at once, and no session stays marked as busy without a turn that will end: the timeout of every
-- turn is armed, and when that of the session's turn runs out, the turn is gone and the session is free. The
-- ids that are drawn for new turns are not in use.
pub run-Busy :
    (env : Env) (is : List Input) (m : ResumeManager)
    → FreshIds env is m
    → Busy m
    → Timed m
    → Busy (run env is m) × Timed (run env is m) × Ending env (run env is m)
run-Busy env is m f b k =
    let kept = run-Kept env is m f b k in
    (kept.0, kept.1, Busy-Ending env (run env is m) kept.0 kept.1)
