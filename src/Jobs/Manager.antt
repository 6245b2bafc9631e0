-- ===== src/Jobs/Manager.antt =====
-- The state of JobManager (src/jobs/manager.ts) and its private helpers. The objects that the source
-- shares between the registry and the engine's callbacks lie on a heap and are named by their index.
-- Calls of the engine and sends are recorded in `trace`, newest first, and so are the rows that
-- `appendEvent` has written, since they are to come before the send. The engine calls back in a later
-- step; where ClaudeEngine does so within a call, the root says why that comes to the same.
use hugin_agent.Prelude.{
  ℕ, ◌+◌, ◌≡◌, arith, String, Bool, true, false, ◌&&◌, ◌||◌, Option, none, some, List, [], ◌∷◌, ltb,
  leb, ◌==◌, str_eq, if◌then◌else◌, or_else, get_elem?, set, filter,
}
use hugin_agent.Prelude.Map
use hugin_agent.Prelude.Map.{Map}
use hugin_agent.Json.{Json}
use hugin_agent.Conn.Outbound.{Message, RejectCode, AttemptCtx}
use hugin_agent.Store.{Store, get_attempt, set_attempt_lease, unacked_events, unacked_bytes}
use hugin_agent.Store.{conn_unacked_bytes}
use hugin_agent.Jobs.Types.{EngineSpec, JobState, ApprovalDecision}
use hugin_agent.Jobs.Registry
use hugin_agent.Jobs.Registry.{Registry}

pub record Caps : Type 0 where
  pub events : ℕ
  pub bytes : ℕ
  pub conn : ℕ

-- The constructor's arguments, and the functions that the methods call outside this file:
-- `validate` is the engine's check of a job (`none` accepts), `payload_bytes` and `result_digest` read
-- a message's JSON text, `summarize` is the text of a tool's input in UTF-16 units, `utf8_length` its
-- length in bytes, and `iso` prints a time.
pub record Env : Type 0 where
  pub caps : Caps
  pub gate_available : Bool
  pub approval_timeout_ms : ℕ
  pub validate : EngineSpec → Option (RejectCode × String)
  pub payload_bytes : Message → ℕ
  pub result_digest : Message → String
  pub summarize : Option Json → List ℕ
  pub utf8_length : List ℕ → ℕ
  pub iso : ℕ → String

-- An armed auto-deny timer: its closure holds the job and the request.
pub record Timer : Type 0 where
  pub id : ℕ
  pub job : ℕ
  pub request_id : String

pub data Effect : Type 0 where
  sends : Message → Effect
  appends : Message → Effect
  runs : ℕ → EngineSpec → Effect
  pauses : ℕ → Effect
  resumes : ℕ → Effect
  cancels : ℕ → ℕ → Effect
  resolves : ℕ → String → ApprovalDecision → Option String → Effect

pub record Manager : Type 0 where
  pub registry : Registry
  pub heap : List JobState
  pub store : Store
  pub started_at : Map ℕ
  pub run_count : ℕ
  pub timers : List Timer
  pub timer_count : ℕ
  pub trace : List Effect

-- LIMITS.LEASE_ROTATION_OVERLAP_MS
abbrev pub lease_rotation_overlap_ms : ℕ
lease_rotation_overlap_ms = 5000

-- `this.send`
unfoldable pub send : Message → Manager → Manager
send msg m = record m { trace = sends msg ∷ m.trace }

-- A call `state.run?.…` on the run that the job holds, if it holds one.
unfoldable pub on_run : Option ℕ → (ℕ → Effect) → Manager → Manager
on_run none call m = m
on_run (some run) call m = record m { trace = call run ∷ m.trace }

unfoldable pub write_job : ℕ → JobState → Manager → Manager
write_job ref st m = record m { heap = set m.heap ref st }

unfoldable pub with_store : (Store → Store) → Manager → Manager
with_store f m = record m { store = f m.store }

unfoldable pub unregister : String → Manager → Manager
unfolding Registry.remove
unregister id m = record m { registry = Registry.remove m.registry id }

unfoldable pub forget_start : String → Manager → Manager
forget_start id m = record m { started_at = Map.remove m.started_at id }

-- `this.registry.get(attempt_id)`: the job and its reference.
unfoldable pub registered : Manager → String → Option (ℕ × JobState)
unfolding Registry.get
registered m id = elim (Registry.get m.registry id) [
  | none ↦ none
  | some ref ↦ elim (get_elem? m.heap ref) [ none ↦ none | some st ↦ some (ref, st) ]
]

-- A job that is found stands in the registry and on the heap.
pub registered-parts :
    (m : Manager) (id : String) {ref : ℕ} {st : JobState}
    → registered m id ≡ some (ref, st)
    → (Registry.get m.registry id ≡ some ref) × (get_elem? m.heap ref ≡ some st)
unfolding registered
registered-parts m id h = ground arith

abbrev pub ctx_of : JobState → AttemptCtx
ctx_of st = record { job_id = st.job_id; attempt_id = st.attempt_id; lease_id = st.lease_id }

-- The lease acceptance of a live job: its lease, or the previous one before the overlap ends.
unfoldable pub live_lease_ok : ℕ → JobState → String → Bool
live_lease_ok now st incoming =
    str_eq incoming st.lease_id
    || (elim st.prev_lease [ none ↦ false | some prev ↦ str_eq incoming prev ]
        && ltb now (or_else st.lease_overlap_until 0))

-- `leaseOk`: with no live job it falls back to the durable attempt's lease.
unfoldable pub lease_ok : ℕ → Manager → Option (ℕ × JobState) → String → String → Bool
unfolding live_lease_ok
lease_ok now m (some (ref, st)) id incoming = live_lease_ok now st incoming
lease_ok now m none id incoming = elim (get_attempt m.store id) [
  | none ↦ false
  | some a ↦ str_eq a.lease_id incoming
]

unfoldable pub over_cap : Caps → Store → String → Bool
over_cap caps s id =
    leb caps.events (unacked_events s id)
    || leb caps.bytes (unacked_bytes s id)
    || leb caps.conn (conn_unacked_bytes s)

-- The members of a list of timers that are still armed after `clearTimeout(t)`.
unfoldable pub clear_timeout : ℕ → List Timer → List Timer
clear_timeout id timers = filter (λ t. if t.id == id then false else true) timers

unfoldable clear_all : List (String × ℕ) → List Timer → List Timer
unfolding clear_timeout
clear_all [] timers = timers
clear_all ((req, id) ∷ rest) timers = clear_all rest (clear_timeout id timers)

-- `clearApprovals`, on the job as it is now.
unfoldable pub clear_approvals : ℕ → JobState → Manager → Manager
unfolding clear_all
clear_approvals ref st m = record m {
  timers = clear_all st.approval_timers m.timers;
  heap = set m.heap ref (record st { approval_timers = [] });
}

-- `lease.granted` and `adoptLease` on a live job: the lease it had stays valid for the overlap.
unfoldable pub rotated : ℕ → String → JobState → JobState
rotated now lease st = record st {
  prev_lease = some st.lease_id;
  lease_id = lease;
  lease_overlap_until = some (now + lease_rotation_overlap_ms);
}

unfoldable pub adopt_lease : ℕ → String → String → Manager → Manager
unfolding rotated write_job with_store
adopt_lease now id lease m =
    let m' = with_store (λ s. set_attempt_lease s id lease) m in
    elim (registered m id) [
      | none ↦ m'
      | some (ref, st) ↦
          if str_eq st.lease_id lease then m' else write_job ref (rotated now lease st) m'
    ]
