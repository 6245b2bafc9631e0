-- ===== src/Sessions/Terminal/Start.antt =====
-- A new turn of src/sessions/resume-manager.ts is accepted once.
use hugin_agent.Prelude.{◌≡◌, sym, inl, inr, String, false, not, none, some, List, arith, eq_iff}
use mathlib.Core.Path.{subst}
use hugin_agent.Prelude.Map
use hugin_agent.Sessions.ResumeManager.{
  Env, ResumeManager, TurnState, TurnStart, SessionHandleTarget, resume_accept, Started, ResumeSpec,
  error, add_key, session_key, write_turn, fail_start, enter_turn, new_turn, spec_of, plan_forks,
  begin_turn, start_turn, reject, maybe_resume, run, send,
}
use hugin_agent.Sessions.Busy.Start.{start_cases, Started-cases}
use hugin_agent.Sessions.Terminal.Counts.{accepts, results, Balanced, Balanced-finalize}

pub Balanced-write :
    (m : ResumeManager) (id : String) (old st : TurnState)
    → Map.get m.turns id ≡ some old
    → Balanced m
    → Balanced (write_turn id st m)
unfolding write_turn
Balanced-write m id old st at b = record {
  balance = λ j. (ground (arith, b.balance j, at, Map.get-set m.turns id j st, eq_iff id j));
}

pub maybe_resume-Balanced :
    (env : Env) (m : ResumeManager) (id : String) (old st : TurnState)
    → Map.get m.turns id ≡ some old
    → Balanced m
    → Balanced (maybe_resume env id st m)
unfolding maybe_resume write_turn accepts results
maybe_resume-Balanced env m id old st at b = record {
  balance = λ j.
      (ground (
        arith,
        b.balance j,
        at,
        Map.get-set m.turns id j st,
        Map.get-set m.turns id j (record st { paused = false }),
        eq_iff id j,
      ));
}

pub entered-Balanced :
    (id req_id : String) (target : SessionHandleTarget) (spec : ResumeSpec) (m : ResumeManager)
    (active : List String)
    → Map.get m.turns id ≡ none
    → Balanced m
    → Balanced (
        enter_turn id target spec (
          send
            (resume_accept req_id id (plan_forks target.engine) (not (plan_forks target.engine)))
            (record m { active = active })))
unfolding send enter_turn accepts results
entered-Balanced id req_id target spec m active unused b = record {
  balance = λ j. ground (
    arith,
    b.balance j,
    unused,
    Map.get-set m.turns id j (new_turn target m.run_count),
    eq_iff id j,
  );
}

pub begin_turn-Balanced :
    (id : String) (req : TurnStart) (target : SessionHandleTarget) (run : ResumeSpec → Started)
    (m : ResumeManager)
    → Map.get m.turns id ≡ none
    → Balanced m
    → Balanced (begin_turn id req target run m)
unfolding begin_turn fail_start send enter_turn accepts results Map.has
begin_turn-Balanced id req target run m unused b =
    elim (Started-cases (run (spec_of target req.message))) [
      | inl ran ↦ subst Balanced (sym (ground (arith, ran))) entered
      | inr (inl (message, threw)) ↦ record {
        balance = λ j. ground (arith, threw, b.balance j, unused, eq_iff id j);
      }
      | inr (inr (message, threw)) ↦
          subst Balanced
            (sym (
              ground (
                arith,
                threw,
                Map.get-set m.turns id id (new_turn target m.run_count),
                eq_iff id id,
              )))
            (Balanced-finalize id error message none
              (enter_turn id target (spec_of target req.message) accepted) entered)
    ]
  where
    active : List String
    active = add_key (session_key target) m.active

    accepted : ResumeManager
    accepted =
        send
          (resume_accept req.request_id id (plan_forks target.engine)
            (not (plan_forks target.engine)))
          (record m { active = active })

    entered : Balanced (enter_turn id target (spec_of target req.message) accepted)
    entered =
        entered-Balanced id req.request_id target (spec_of target req.message) m active unused b

pub start_turn-Balanced :
    (env : Env) (id : String) (req : TurnStart) (m : ResumeManager)
    → Map.get m.turns id ≡ none
    → Balanced m
    → Balanced (start_turn env id req m)
unfolding reject send accepts results
start_turn-Balanced env id req m unused b = elim (start_cases env id req m) [
  | inl (code, message, e) ↦ record { balance = λ j. rw e (b.balance j) }
  | inr (target, runner, e, idle) ↦
      subst Balanced (sym e) (begin_turn-Balanced id req target runner m unused b)
]
