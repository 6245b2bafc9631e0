-- ===== src/Sessions/Busy/Timeouts.antt =====
-- The timeouts of turns in src/sessions/resume-manager.ts: every turn has one that is armed.
use hugin_agent.Prelude.{
  ℕ, suc, ◌≡◌, refl, sym, ap, ◌∙◌, inl, inr, String, true, false, not, ◌&&◌, ◌||◌, Option, none,
  some, List, [], ◌∷◌, leb, if◌then◌else◌, Bool-cases, Option-cases, arith, eq_iff, is_some, ◌-◌,
  min, max,
}
use mathlib.Core.Path.{subst}
use hugin_agent.Prelude.Map
use hugin_agent.Conn.Outbound.{EngineEvent}
use hugin_agent.Sessions.ResumeManager.{
  Env, ResumeManager, TurnState, TurnStart, SessionHandleTarget, Started, ResumeSpec, ResumeDone,
  cancelled, error, status_from_outcome, fork_handle, TurnStatus, cancels, plan_forks,
  resume_accept, contains, delete_key, contains-delete_key, session_key, live_turn, write_turn,
  finalize, fail_start, enter_turn, new_turn, spec_of, begin_turn, start_turn, reject,
  handle_cancel, maybe_resume, handle_ack, handle_run_event, handle_run_done, turn_times_out,
  cancel_turns, cancel_active_turns, add_key, Input, step, send, turn_start, session_cancel,
  session_ack, run_event, run_done, turn_timeout, connection_closed,
}
use hugin_agent.Sessions.Busy.Kept.{Busy, Unused, live_turn-some, live_turn-none}
use hugin_agent.Sessions.Busy.Start.{Started-cases, start_cases}

pub record Timed (m : ResumeManager) : Type 0 where
  pub armed : (j : String) → is_some (Map.get m.turns j) ≡ true → contains j m.timers ≡ true

same-Timed : (m m' : ResumeManager) → m'.turns ≡ m.turns → m'.timers ≡ m.timers → Timed m → Timed m'
same-Timed m m' t s k = record { armed = λ j h. rw s (k.armed j (rw (← t) h)) }

written-Timed :
    (m m' : ResumeManager) (id : String) (old st : TurnState)
    → Map.get m.turns id ≡ some old
    → m'.turns ≡ Map.set m.turns id st
    → m'.timers ≡ m.timers
    → Timed m
    → Timed m'
written-Timed m m' id old st at t s k = record {
  armed = λ j h.
      (let found : is_some (Map.get (Map.set m.turns id st) j) ≡ true = rw (← t) h in
        rw s (k.armed j (ground (arith, found, at, Map.get-set m.turns id j st, eq_iff id j))));
}

entered-Timed :
    (m m' : ResumeManager) (id : String) (st : TurnState)
    → m'.turns ≡ Map.set m.turns id st
    → m'.timers ≡ id ∷ m.timers
    → Timed m
    → Timed m'
unfolding contains
entered-Timed m m' id st t s k = record {
  armed = λ j h.
      (let found : is_some (Map.get (Map.set m.turns id st) j) ≡ true = rw (← t) h in
        rw s (ground (arith, found, k.armed j, Map.get-set m.turns id j st, eq_iff id j)));
}

removed-Timed :
    (m m' : ResumeManager) (id : String)
    → m'.turns ≡ Map.remove m.turns id
    → m'.timers ≡ delete_key id m.timers
    → Timed m
    → Timed m'
removed-Timed m m' id t s k = record {
  armed = λ j h.
      (let found : is_some (Map.get (Map.remove m.turns id) j) ≡ true = rw (← t) h in
        rw s (
          ground (
            arith,
            found,
            k.armed j,
            Map.get-remove m.turns id j,
            eq_iff id j,
            contains-delete_key id j m.timers,
          )));
}

finalize-Timed :
    (id : String) (status : TurnStatus) (message : String) (handle : Option String)
    (m : ResumeManager)
    → Timed m
    → Timed (finalize id status message handle m)
unfolding finalize
finalize-Timed id status message handle m k = elim (Option-cases (live_turn m id)) [
  | inl gone ↦ same-Timed m (finalize id status message handle m) (ground arith) (ground arith) k
  | inr (st, live) ↦
      removed-Timed m (finalize id status message handle m) id (ground arith) (ground arith) k
]

begin_turn-Timed :
    (id : String) (req : TurnStart) (target : SessionHandleTarget) (run : ResumeSpec → Started)
    (m : ResumeManager)
    → Map.get m.turns id ≡ none
    → Timed m
    → Timed (begin_turn id req target run m)
unfolding begin_turn fail_start send enter_turn Map.has
begin_turn-Timed id req target run m unused k = elim (Started-cases (run spec)) [
  | inl ran ↦ subst Timed (sym (ground (arith, ran))) entered
  | inr (inl (message, threw)) ↦
      same-Timed m (begin_turn id req target run m) (ground (arith, threw, unused))
        (ground (arith, threw, unused)) k
  | inr (inr (message, threw)) ↦
      subst Timed
        (sym (
          ground
            (arith, threw, Map.get-set m.turns id id (new_turn target m.run_count), eq_iff id id)))
        (finalize-Timed id error message none (enter_turn id target spec accepted) entered)
]
  where
    spec : ResumeSpec
    spec = spec_of target req.message

    accepted : ResumeManager
    accepted =
        send
          (resume_accept req.request_id id (plan_forks target.engine)
            (not (plan_forks target.engine)))
          (record m { active = add_key (session_key target) m.active })

    entered : Timed (enter_turn id target spec accepted)
    entered =
        entered-Timed m (enter_turn id target spec accepted) id (new_turn target m.run_count) refl
          refl k

start_turn-Timed :
    (env : Env) (id : String) (req : TurnStart) (m : ResumeManager)
    → Map.get m.turns id ≡ none
    → Timed m
    → Timed (start_turn env id req m)
unfolding reject send
start_turn-Timed env id req m unused k = elim (start_cases env id req m) [
  | inl (code, message, e) ↦
      same-Timed m (start_turn env id req m) (ap (λ (x : ResumeManager). x.turns) e)
        (ap (λ (x : ResumeManager). x.timers) e) k
  | inr (target, run, e, idle) ↦ subst Timed (sym e) (begin_turn-Timed id req target run m unused k)
]

handle_ack-Timed :
    (env : Env) (id : String) (ack_seq : ℕ) (m : ResumeManager)
    → Timed m
    → Timed (handle_ack env id ack_seq m)
unfolding handle_ack maybe_resume write_turn
handle_ack-Timed env id ack_seq m k = elim (Option-cases (live_turn m id)) [
  | inl gone ↦ same-Timed m (handle_ack env id ack_seq m) (ground arith) (ground arith) k
  | inr (st, live) ↦
      let st' = record st { acked_seq = max st.acked_seq (min ack_seq st.sent_seq) } in
      let at = live_turn-some m id st live in
      elim (Bool-cases
        (not st'.paused || leb env.backpressure_cap (st'.sent_seq - st'.acked_seq))) [
          | inl stays ↦
              written-Timed m (handle_ack env id ack_seq m) id st st' at (ground arith)
                (ground arith) k
          | inr runs_on ↦
              written-Timed m (handle_ack env id ack_seq m) id st (record st' { paused = false }) at
                (ground arith) (ground arith) k
        ]
]

handle_run_event-Timed :
    (env : Env) (id : String) (ev : EngineEvent) (m : ResumeManager)
    → Timed m
    → Timed (handle_run_event env id ev m)
unfolding handle_run_event write_turn send
handle_run_event-Timed env id ev m k = elim (Option-cases (live_turn m id)) [
  | inl gone ↦ same-Timed m (handle_run_event env id ev m) (ground arith) (ground arith) k
  | inr (st, live) ↦
      let now_paused =
        if not st.paused && leb env.backpressure_cap (suc st.sent_seq - st.acked_seq)
        then true
        else st.paused in
      written-Timed m (handle_run_event env id ev m) id st
        (record st { sent_seq = suc st.sent_seq; paused = now_paused })
        (live_turn-some m id st live) (ground arith) (ground arith) k
]

handle_run_done-Timed :
    (env : Env) (id : String) (result : ResumeDone) (m : ResumeManager)
    → Timed m
    → Timed (handle_run_done env id result m)
unfolding handle_run_done
handle_run_done-Timed env id result m k = elim (Option-cases (live_turn m id)) [
  | inl gone ↦ subst Timed (sym (ground arith)) k
  | inr (st, live) ↦ subst Timed (sym (ground arith)) (
      finalize-Timed id (status_from_outcome result.outcome) result.final_message
        (fork_handle env st.target result.new_session_id) m k)
]

-- A timer that runs out takes its turn, if there is one, with it.
timed_out :
    (env : Env) (id : String) (st : TurnState) (m : ResumeManager)
    → contains id m.timers ≡ true
    → live_turn m id ≡ some st
    → ((turn_times_out env id m).turns ≡ Map.remove m.turns id)
      × ((turn_times_out env id m).timers ≡ delete_key id (delete_key id m.timers))
      × ((turn_times_out env id m).active ≡ delete_key st.key m.active)
unfolding turn_times_out finalize live_turn
timed_out env id st m armed live = (ground arith, ground arith, ground arith)

turn_times_out-Timed :
    (env : Env) (id : String) (m : ResumeManager)
    → Busy m
    → Timed m
    → Timed (turn_times_out env id m)
turn_times_out-Timed env id m b k = elim (Bool-cases (contains id m.timers)) [
  | inr unarmed ↦
      let same : turn_times_out env id m ≡ m = unfold turn_times_out in ground arith in
      subst Timed (sym same) k
  | inl armed ↦ elim (Option-cases (live_turn m id)) [
    | inl gone ↦
        let none_left = live_turn-none m id b gone in
        let fired : turn_times_out env id m ≡ record m { timers = delete_key id m.timers } =
          unfold turn_times_out in ground arith in
        subst Timed (sym fired) (record {
          armed = λ j h.
              ground
                (arith, h, k.armed j, none_left, eq_iff id j, contains-delete_key id j m.timers);
        })
    | inr (st, live) ↦
        let e = timed_out env id st m armed live in
        record {
          armed = λ j h.
              (let found : is_some (Map.get (Map.remove m.turns id) j) ≡ true = rw (← e.0) h in
                rw (e.1) (
                  ground (
                    arith,
                    found,
                    k.armed j,
                    Map.get-remove m.turns id j,
                    eq_iff id j,
                    contains-delete_key id j m.timers,
                    contains-delete_key id j (delete_key id m.timers),
                  )));
        }
  ]
]

cancel_turns-Timed :
    (env : Env) (ts : List (String × TurnState)) (m : ResumeManager)
    → Timed m
    → Timed (cancel_turns env ts m)
unfolding cancel_turns
cancel_turns-Timed env [] m k = k
cancel_turns-Timed env ((id, st) ∷ rest) m k =
    let told = record m { trace = cancels st.run env.cancel_grace_ms ∷ m.trace } in
    let ended = finalize id cancelled "session connection closed" none told in
    elim (Bool-cases st.finalized) [
      | inl over ↦ subst Timed (sym (ground arith)) (cancel_turns-Timed env rest m k)
      | inr live ↦ subst Timed (sym (ground arith)) (
          cancel_turns-Timed env rest ended (
            finalize-Timed id cancelled "session connection closed" none told
              (same-Timed m told refl refl k)))
    ]

handle_cancel-Timed :
    (env : Env) (id : String) (m : ResumeManager) → Timed m → Timed (handle_cancel env id m)
unfolding handle_cancel
handle_cancel-Timed env id m k =
    same-Timed m (handle_cancel env id m) (ground arith) (ground arith) k

pub step-Timed :
    (env : Env) (i : Input) (m : ResumeManager)
    → Unused i m
    → Busy m
    → Timed m
    → Timed (step env i m)
unfolding step
step-Timed env (turn_start id req) m u b k = start_turn-Timed env id req m u k
step-Timed env (session_cancel id) m u b k = handle_cancel-Timed env id m k
step-Timed env (session_ack id n) m u b k = handle_ack-Timed env id n m k
step-Timed env (run_event id ev) m u b k = handle_run_event-Timed env id ev m k
step-Timed env (run_done id result) m u b k = handle_run_done-Timed env id result m k
step-Timed env (turn_timeout id) m u b k = turn_times_out-Timed env id m b k
step-Timed env connection_closed m u b k =
    unfold cancel_active_turns in cancel_turns-Timed env m.turns m k

-- Of every active session there is a turn whose timer, when it runs out, ends the turn and frees the session.
abbrev pub Ending : Env → ResumeManager → Type 0
Ending env m =
    (key : String)
    → contains key m.active ≡ true
    → (id : String) × (contains id m.timers ≡ true)
      × (Map.get (turn_times_out env id m).turns id ≡ none)
      × (contains key (turn_times_out env id m).active ≡ false)

pub Busy-Ending : (env : Env) (m : ResumeManager) → Busy m → Timed m → Ending env m
Busy-Ending env m b k key busy =
    let (id, st, at, same) = b.active_has_turn key busy in
    let armed : contains id m.timers ≡ true = k.armed id (ground (arith, at)) in
    let live : live_turn m id ≡ some st =
      unfold live_turn in ground (arith, at, b.live_is_active id st at) in
    let e = timed_out env id st m armed live in
    (
      id,
      armed,
      ap (λ ts. Map.get ts id) e.0 ∙ ground (arith, Map.get-remove m.turns id id, eq_iff id id),
      ap (contains key) e.2
          ∙ ground (arith, contains-delete_key st.key key m.active, eq_iff st.key key, same),
    )
