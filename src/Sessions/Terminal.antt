-- ===== src/Sessions/Terminal.antt =====
-- One terminal result per accepted turn: the messages of src/sessions/resume-manager.ts.
pub mod Counts
pub mod Start
use hugin_agent.Prelude.{
  ℕ, suc, ◌+◌, ◌-◌, ◌≤◌, ◌≡◌, refl, sym, ap, ◌∙◌, ◌⊎◌, inl, inr, String, Bool, true, false, not,
  ◌&&◌, ◌||◌, Option, none, some, List, [], ◌∷◌, leb, str_eq, if◌then◌else◌, Bool-cases,
  Option-cases, arith, eq_iff, min, max,
}
use mathlib.Core.Path.{subst}
use hugin_agent.Prelude.Map
use hugin_agent.Conn.Outbound.{EngineEvent}
use hugin_agent.Sessions.ResumeManager.{
  Env, ResumeManager, TurnState, TurnStart, SessionHandleTarget, SessionMessage, resume_accept,
  resume_reject, session_event, turn_result, Started, started, throws, attach_throws, Effect, sends,
  runs, pauses, resumes, cancels, ResumeSpec, ResumeDone, cancelled, error, status_from_outcome,
  fork_handle, delete_key, add_key, contains, TurnStatus, session_key, live_turn, write_turn,
  finalize, fail_start, enter_turn, new_turn, spec_of, plan_forks, begin_turn, start_turn, reject,
  handle_cancel, maybe_resume, handle_ack, handle_run_event, handle_run_done, turn_times_out,
  cancel_turns, cancel_active_turns, Input, step, run, send, turn_start, session_cancel,
  session_ack, run_event, run_done, turn_timeout, connection_closed,
}
use hugin_agent.Sessions.Busy.Kept.{
  Busy, Unused, FreshIds, Busy-same, Busy-finalize, live_turn-some, live_turn-none,
}
use hugin_agent.Sessions.Busy.{run_stays-Busy, cancel_turns-Busy}
use hugin_agent.Sessions.Busy.Start.{start_cases, Started-cases}
use Counts.{accepts, results, occupied, Balanced, Balanced-finalize}
use Start.{
  Balanced-write, maybe_resume-Balanced, entered-Balanced, begin_turn-Balanced, start_turn-Balanced,
}

handle_ack-Balanced :
    (env : Env) (id : String) (ack_seq : ℕ) (m : ResumeManager)
    → Balanced m
    → Balanced (handle_ack env id ack_seq m)
unfolding handle_ack
handle_ack-Balanced env id ack_seq m b = elim (Option-cases (live_turn m id)) [
  | inl gone ↦ subst Balanced (sym (ground arith)) b
  | inr (st, live) ↦ subst Balanced (sym (ground arith)) (
      maybe_resume-Balanced env m id st
        (record st { acked_seq = max st.acked_seq (min ack_seq st.sent_seq) })
        (live_turn-some m id st live) b)
]

handle_run_event-Balanced :
    (env : Env) (id : String) (ev : EngineEvent) (m : ResumeManager)
    → Balanced m
    → Balanced (handle_run_event env id ev m)
unfolding handle_run_event write_turn send accepts results
handle_run_event-Balanced env id ev m b = record {
  balance = λ j. (elim (Option-cases (live_turn m id)) [
    | inl gone ↦ ground (arith, b.balance j)
    | inr (st, live) ↦ ground (
      arith,
      b.balance j,
      live,
      live_turn-some m id st live,
      Map.get-set m.turns id j (record st { sent_seq = suc st.sent_seq }),
      Map.get-set m.turns id j (record st { sent_seq = suc st.sent_seq; paused = true }),
      eq_iff id j,
    )
  ]);
}

handle_cancel-Balanced :
    (env : Env) (id : String) (m : ResumeManager) → Balanced m → Balanced (handle_cancel env id m)
unfolding handle_cancel accepts results
handle_cancel-Balanced env id m b = record { balance = λ j. (ground (arith, b.balance j)) }

handle_run_done-Balanced :
    (env : Env) (id : String) (result : ResumeDone) (m : ResumeManager)
    → Balanced m
    → Balanced (handle_run_done env id result m)
unfolding handle_run_done
handle_run_done-Balanced env id result m b = elim (Option-cases (live_turn m id)) [
  | inl gone ↦ subst Balanced (sym (ground arith)) b
  | inr (st, live) ↦ subst Balanced (sym (ground arith)) (
      Balanced-finalize id (status_from_outcome result.outcome) result.final_message
        (fork_handle env st.target result.new_session_id) m b)
]

turn_times_out-Balanced :
    (env : Env) (id : String) (m : ResumeManager) → Balanced m → Balanced (turn_times_out env id m)
unfolding turn_times_out accepts results
turn_times_out-Balanced env id m b = elim (Bool-cases (contains id m.timers)) [
  | inr unarmed ↦ subst Balanced (sym (ground arith)) b
  | inl armed ↦ elim (Option-cases (live_turn m id)) [
    | inl gone ↦ record { balance = λ j. ground (arith, b.balance j) }
    | inr (st, live) ↦
        let fired = record m {
          timers = delete_key id m.timers;
          trace = cancels st.run env.cancel_grace_ms ∷ m.trace;
        } in
        subst Balanced (sym (ground arith)) (
          Balanced-finalize id error "resume turn timed out" none fired
            (record { balance = b.balance }))
  ]
]

cancel_turns-Balanced :
    (env : Env) (ts : List (String × TurnState)) (m : ResumeManager)
    → Balanced m
    → Balanced (cancel_turns env ts m)
unfolding cancel_turns accepts results
cancel_turns-Balanced env [] m b = b
cancel_turns-Balanced env ((id, st) ∷ rest) m b =
    let told = record m { trace = cancels st.run env.cancel_grace_ms ∷ m.trace } in
    let ended = finalize id cancelled "session connection closed" none told in
    elim (Bool-cases st.finalized) [
      | inl over ↦ subst Balanced (sym (ground arith)) (cancel_turns-Balanced env rest m b)
      | inr live ↦ subst Balanced (sym (ground arith)) (
          cancel_turns-Balanced env rest ended (
            Balanced-finalize id cancelled "session connection closed" none told
              (record { balance = b.balance })))
    ]

step-Balanced :
    (env : Env) (i : Input) (m : ResumeManager) → Unused i m → Balanced m → Balanced (step env i m)
unfolding step
step-Balanced env (turn_start id req) m u b = start_turn-Balanced env id req m u b
step-Balanced env (session_cancel id) m u b = handle_cancel-Balanced env id m b
step-Balanced env (session_ack id n) m u b = handle_ack-Balanced env id n m b
step-Balanced env (run_event id ev) m u b = handle_run_event-Balanced env id ev m b
step-Balanced env (run_done id result) m u b = handle_run_done-Balanced env id result m b
step-Balanced env (turn_timeout id) m u b = turn_times_out-Balanced env id m b
step-Balanced env connection_closed m u b =
    unfold cancel_active_turns in cancel_turns-Balanced env m.turns m b

-- Every turn in the map is one that the loop is to end.
abbrev Covers : List (String × TurnState) → ResumeManager → Type 0
Covers ts m =
    (j : String)
    → (Map.get m.turns j ≡ none)
      ⊎ ((st : TurnState) × (Map.get ts j ≡ some st) × (st.finalized ≡ false))

get-finalize :
    (id j : String) (status : TurnStatus) (message : String) (handle : Option String)
    (m : ResumeManager)
    → Busy m
    → Map.get (finalize id status message handle m).turns j
      ≡ (if str_eq id j then none else Map.get m.turns j)
unfolding finalize
get-finalize id j status message handle m b = elim (Option-cases (live_turn m id)) [
  | inl gone ↦ ground (arith, live_turn-none m id b gone, eq_iff id j)
  | inr (st, live) ↦ ground (arith, live, Map.get-remove m.turns id j)
]

cancel_turns_clears :
    (env : Env) (ts : List (String × TurnState)) (m : ResumeManager)
    → Busy m
    → Covers ts m
    → (j : String) → Map.get (cancel_turns env ts m).turns j ≡ none
unfolding cancel_turns Map.get
cancel_turns_clears env [] m b c j = ground (arith, c j)
cancel_turns_clears env ((id, st) ∷ rest) m b c j = elim (Bool-cases st.finalized) [
  | inl over ↦ ground (
    arith,
    cancel_turns_clears env rest m b
        (λ k. elim (c k) [ inl gone ↦ inl gone | inr (s, at, fin) ↦ inr (s, ground arith, fin) ]) j,
  )
  | inr live ↦ ground (
    arith,
    cancel_turns_clears env rest ended (Busy-finalize id cancelled text none told told-Busy)
        (λ k. elim (c k) [
          | inl gone ↦ inl (ground (arith, get-finalize id k cancelled text none told told-Busy))
          | inr (s, at, fin) ↦ elim (Bool-cases (str_eq id k)) [
            | inl same ↦ inl (ground (arith, get-finalize id k cancelled text none told told-Busy))
            | inr other ↦ inr (s, ground arith, fin)
          ]
        ])
        j,
  )
]
  where
    text : String
    text = "session connection closed"

    told : ResumeManager
    told = record m { trace = cancels st.run env.cancel_grace_ms ∷ m.trace }

    told-Busy : Busy told
    told-Busy = Busy-same m told refl refl b

    ended : ResumeManager
    ended = finalize id cancelled text none told

run-Balanced :
    (env : Env) (is : List Input) (m : ResumeManager)
    → FreshIds env is m
    → Balanced m
    → Balanced (run env is m)
unfolding run
run-Balanced env [] m f b = b
run-Balanced env (i ∷ is) m f b =
    run-Balanced env is (step env i m) f.1 (step-Balanced env i m f.0 b)

-- Along any run each acceptance of a turn is matched by one terminal result or by the turn that still
-- runs; and once the connection's turns are cancelled, every turn has ended as often as it was
-- accepted, none is left, and no session is busy.
pub run_settles :
    (env : Env) (is : List Input) (m : ResumeManager) (id : String)
    → FreshIds env is m
    → Busy m
    → Balanced m
    → let m' = run env is m in
      let closed = cancel_active_turns env m' in
      (accepts id m'.trace ≡ results id m'.trace + occupied (Map.get m'.turns id))
      × (accepts id closed.trace ≡ results id closed.trace)
      × (Map.get closed.turns id ≡ none)
      × ((key : String) → contains key closed.active ≡ false)
unfolding cancel_active_turns
run_settles env is m id f busy b =
    let m' = run env is m in
    let closed = cancel_turns env m'.turns m' in
    let busy' = run_stays-Busy env is m f busy in
    let balanced' = run-Balanced env is m f b in
    let gone = cancel_turns_clears env m'.turns m' busy' (all_covered m' busy') in
    let final = cancel_turns-Balanced env m'.turns m' balanced' in
    (
      balanced'.balance id,
      ground (arith, final.balance id, gone id),
      gone id,
      λ key. elim (Bool-cases (contains key closed.active)) [
        | inr idle ↦ idle
        | inl active ↦
            let (j, st, at, same) =
              (cancel_turns-Busy env m'.turns m' busy').active_has_turn key active in
            absurd (ground (arith, gone j))
      ],
    )
  where
    all_covered : (m : ResumeManager) → Busy m → Covers m.turns m
    all_covered m b j = elim (Option-cases (Map.get m.turns j)) [
      | inl gone ↦ inl gone
      | inr (st, at) ↦ inr (st, at, (b.live_is_active j st at).1)
    ]
