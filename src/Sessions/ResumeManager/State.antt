-- ===== src/Sessions/ResumeManager/State.antt =====
-- The turns and the active set of src/sessions/resume-manager.ts, with the types of src/sessions/resume.ts
-- that they hold.
use hugin_agent.Prelude.{
  ℕ, ◌≡◌, refl, String, Bool, true, false, not, ◌&&◌, ◌||◌, Option, none, some, List, [], ◌∷◌, ◌++◌,
  str_eq, if◌then◌else◌, filter, ◌<>◌, arith, eq_iff,
}
use hugin_agent.Prelude.Map
use hugin_agent.Prelude.Map.{Map}
use hugin_agent.Conn.Outbound.{EngineEvent}
use hugin_agent.Jobs.Types.{EngineName, claude, codex, EngineOutcome}

pub record SessionHandleTarget : Type 0 where
  pub engine : EngineName
  pub session_id : String
  pub cwd : String
  pub path : String
  pub mtime : ℕ

-- The sandbox of a turn is always `read_only`.
pub record ResumeSpec : Type 0 where
  pub engine : EngineName
  pub session_id : String
  pub cwd : String
  pub message : String
  pub fork : Bool

pub record ResumeDone : Type 0 where
  pub outcome : EngineOutcome
  pub final_message : String
  pub new_session_id : Option String

pub data TurnStatus : Type 0 where
  ok error cancelled : TurnStatus

-- `session.resume.request` and `session.message` alike.
pub record TurnStart : Type 0 where
  pub request_id : String
  pub handle : String
  pub message : String

pub data SessionMessage : Type 0 where
  resume_accept : String → String → Bool → Bool → SessionMessage
  resume_reject : String → String → String → SessionMessage
  session_event : String → ℕ → EngineEvent → SessionMessage
  turn_result : String → TurnStatus → String → Option String → SessionMessage

-- `run` is the handle of the runner's process.
pub record TurnState : Type 0 where
  pub key : String
  pub target : SessionHandleTarget
  pub run : ℕ
  pub sent_seq : ℕ
  pub acked_seq : ℕ
  pub finalized : Bool
  pub paused : Bool

pub data Effect : Type 0 where
  sends : SessionMessage → Effect
  runs : ℕ → ResumeSpec → Effect
  pauses : ℕ → Effect
  resumes : ℕ → Effect
  cancels : ℕ → ℕ → Effect

-- What starting a run comes to: an exception of `run` itself, or of a registration of a callback.
pub data Started : Type 0 where
  started : Started
  throws : String → Started
  attach_throws : String → Started

-- The options. `validate_handle` and `register_forked` are the enumerator's, the first `none` as well
-- if there is no enumerator; a runner is absent or starts a run; `forked_path` is the path of a fork
-- beside its source, and `now` the time that is stamped on it.
pub record Env : Type 0 where
  pub validate_handle : String → Option SessionHandleTarget
  pub register_forked : SessionHandleTarget → Option String
  pub runner : EngineName → Option (ResumeSpec → Started)
  pub forked_path : String → String → String
  pub now : ℕ
  pub backpressure_cap : ℕ
  pub cancel_grace_ms : ℕ

-- `active` is a set of session keys, and `timers` holds the turns whose timeout is armed.
pub record ResumeManager : Type 0 where
  pub active : List String
  pub turns : Map TurnState
  pub timers : List String
  pub run_count : ℕ
  pub trace : List Effect

unfoldable pub contains : String → List String → Bool
contains k [] = false
contains k (x ∷ xs) = str_eq x k || contains k xs

-- `Set.prototype.add`
unfoldable pub add_key : String → List String → List String
unfolding contains
add_key k xs = if contains k xs then xs else xs ++ k ∷ []

-- `Set.prototype.delete`
unfoldable pub delete_key : String → List String → List String
delete_key k xs = filter (λ x. not (str_eq x k)) xs

abbrev pub engine_text : EngineName → String
engine_text claude = "claude"
engine_text codex = "codex"

unfoldable pub session_key : SessionHandleTarget → String
session_key t = engine_text t.engine <> "\0" <> t.session_id <> "\0" <> t.cwd

abbrev pub status_from_outcome : EngineOutcome → TurnStatus
status_from_outcome (EngineOutcome.success code) = ok
status_from_outcome (EngineOutcome.error code kind) = error
status_from_outcome EngineOutcome.cancelled = cancelled

-- `planFor`: a Claude session is forked, a Codex session is changed.
abbrev pub plan_forks : EngineName → Bool
plan_forks claude = true
plan_forks codex = false

unfoldable pub send : SessionMessage → ResumeManager → ResumeManager
send msg m = record m { trace = sends msg ∷ m.trace }

unfoldable pub write_turn : String → TurnState → ResumeManager → ResumeManager
write_turn id st m = record m { turns = Map.set m.turns id st }

-- The turn that a handler goes on with: it exists and is not finalized.
unfoldable pub live_turn : ResumeManager → String → Option TurnState
live_turn m id = elim (Map.get m.turns id) [
  | none ↦ none
  | some st ↦ if st.finalized then none else some st
]

-- The object is marked as finalized and leaves the map in the same call.
unfoldable pub finalize :
    String → TurnStatus → String → Option String → ResumeManager → ResumeManager
unfolding delete_key
finalize id status message handle m = elim (live_turn m id) [
  | none ↦ m
  | some st ↦ record m {
    trace = sends (turn_result id status message handle) ∷ m.trace;
    active = delete_key st.key m.active;
    turns = Map.remove m.turns id;
    timers = delete_key id m.timers;
  }
]

contains-append :
    (j : String) (xs ys : List String) → contains j (xs ++ ys) ≡ (contains j xs || contains j ys)
unfolding contains
contains-append j [] ys = refl
contains-append j (x ∷ xs) ys = ground (arith, contains-append j xs ys)

pub contains-add_key :
    (k j : String) (xs : List String) → contains j (add_key k xs) ≡ (str_eq k j || contains j xs)
unfolding add_key contains
contains-add_key k j xs = ground (arith, eq_iff k j, contains-append j xs (k ∷ []))

pub contains-delete_key :
    (k j : String) (xs : List String)
    → contains j (delete_key k xs) ≡ (not (str_eq k j) && contains j xs)
unfolding delete_key contains
contains-delete_key k j [] = ground arith
contains-delete_key k j (x ∷ xs) =
    ground (arith, eq_iff x k, eq_iff x j, eq_iff k j, contains-delete_key k j xs)
