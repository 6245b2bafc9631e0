-- ===== src/Jobs/Callbacks.antt =====
-- What the engine calls back in src/jobs/manager.ts: `onEvent`, `onDone`, `onApprovalRequest`, and the
-- auto-deny timer that the last one arms. A callback names the job that it closes over by reference.
use hugin_agent.Prelude.{
  ℕ, suc, ◌+◌, ◌-◌, String, Bool, true, false, Option, none, some, [], ◌∷◌, ◌==◌, if◌then◌else◌,
  or_else, get_elem?, ◌<>◌, decimal,
}
use hugin_agent.Prelude.Map
use hugin_agent.Conn.Outbound.{
  EngineEvent, Message, JobStatus, FinalStatus, medium, stream_event, job_result,
  approval_request_msg,
}
use hugin_agent.Store.Rows.{EventRow, StoredResult, find}
use hugin_agent.Store.{Store, append_event, save_result, set_attempt_status}
use hugin_agent.Jobs.Types.{EngineOutcome, ApprovalRequest, JobState, deny}
use hugin_agent.Jobs.Registry
use hugin_agent.Jobs.Manager.{
  Env, Manager, Timer, pauses, appends, resolves, send, on_run, write_job, with_store, unregister,
  forget_start, ctx_of, over_cap, clear_timeout, clear_approvals,
}

-- A method that may throw: `threw` carries the state that the exception leaves behind.
pub data Call : Type 0 where
  returned : Manager → Call
  threw : Manager → Call

abbrev pub final_manager : Call → Manager
final_manager (returned m) = m
final_manager (threw m) = m

-- `${state.attempt_id}-${seq}`
unfoldable pub event_id : String → ℕ → String
event_id id seq = id <> "-" <> decimal seq

abbrev pub event_message : JobState → ℕ → EngineEvent → Message
event_message st seq ev = stream_event (ctx_of st) seq (event_id st.attempt_id seq) ev

-- The row that the next event of a job is persisted as.
abbrev pub event_row : Env → JobState → EngineEvent → EventRow
event_row env st ev =
    let msg = event_message st (suc st.seq) ev in
    record {
      attempt_id = st.attempt_id;
      seq = suc st.seq;
      event_id = event_id st.attempt_id (suc st.seq);
      bytes = env.payload_bytes msg;
      payload = msg;
    }

-- The counters advance before the row is written.
abbrev pub counted : Env → JobState → EngineEvent → JobState
counted env st ev = record st {
  seq = suc st.seq;
  total_bytes = st.total_bytes + env.payload_bytes (event_message st (suc st.seq) ev);
}

unfoldable pub pause_over_cap : Env → ℕ → JobState → Manager → Manager
unfolding on_run write_job
pause_over_cap env ref st m =
    if over_cap env.caps m.store st.attempt_id
    then on_run st.run pauses (write_job ref (record st { paused = true }) m)
    else m

-- `this.store.appendEvent(…)` has returned.
unfoldable pub stored : Message → Store → Manager → Manager
stored msg store' m = record m { store = store'; trace = appends msg ∷ m.trace }

unfoldable pub on_event : Env → ℕ → EngineEvent → Manager → Call
unfolding write_job send pause_over_cap stored
on_event env ref ev m = elim (get_elem? m.heap ref) [
  | none ↦ returned m
  | some st ↦ if st.fenced then returned m else elim (append_event m.store (event_row env st ev)) [
    | none ↦ threw (write_job ref (counted env st ev) m)
    | some store' ↦ returned (
        pause_over_cap env ref (counted env st ev) (
          send (event_message st (suc st.seq) ev) (
            stored (event_message st (suc st.seq) ev) store'
              (write_job ref (counted env st ev) m))))
  ]
]

-- `this.registry.get(state.attempt_id) === state`
unfoldable pub is_current : Manager → ℕ → String → Bool
unfolding Registry.get
is_current m ref id = elim (Registry.get m.registry id) [ none ↦ false | some r ↦ r == ref ]

abbrev final_status_of : EngineOutcome → FinalStatus
final_status_of (EngineOutcome.success code) = FinalStatus.success
final_status_of (EngineOutcome.error code kind) = FinalStatus.error
final_status_of EngineOutcome.cancelled = FinalStatus.cancelled

abbrev pub end_status_of : EngineOutcome → JobStatus
end_status_of (EngineOutcome.success code) = JobStatus.completed
end_status_of (EngineOutcome.error code kind) = JobStatus.failed
end_status_of EngineOutcome.cancelled = JobStatus.cancelled

abbrev exit_code_of : EngineOutcome → Option ℕ
exit_code_of (EngineOutcome.success code) = code
exit_code_of (EngineOutcome.error code kind) = code
exit_code_of EngineOutcome.cancelled = none

abbrev error_kind_of : EngineOutcome → Option String
error_kind_of (EngineOutcome.success code) = none
error_kind_of (EngineOutcome.error code kind) = kind
error_kind_of EngineOutcome.cancelled = none

-- The `job.result` message. The clock does not run backwards between the start and the end.
abbrev result_message : JobState → EngineOutcome → ℕ → Message
result_message st outcome duration = job_result (ctx_of st) (record {
  final_status = final_status_of outcome;
  exit_code = exit_code_of outcome;
  error_kind = error_kind_of outcome;
  duration_ms = duration;
  stats = record { event_count = st.seq; bytes = st.total_bytes };
})

abbrev result_row : Env → JobState → EngineOutcome → ℕ → StoredResult
result_row env st outcome duration =
    let msg = result_message st outcome duration in
    record {
      attempt_id = st.attempt_id;
      job_id = st.job_id;
      lease_id = st.lease_id;
      final_status = final_status_of outcome;
      result_digest = env.result_digest msg;
      result_size = env.payload_bytes msg;
      payload = msg;
      last_emitted_seq = st.seq;
    }

-- The end of a job that is not fenced: save the result, settle the status, send the result.
unfoldable pub finish_job : Env → ℕ → JobState → EngineOutcome → ℕ → Manager → Manager
unfolding write_job with_store send
finish_job env ref st outcome duration m = send (result_message st outcome duration) (
    with_store
      (λ s.
        set_attempt_status (save_result s (result_row env st outcome duration)) st.attempt_id
          (end_status_of outcome))
      (write_job ref
        (record st { run = none; approval_timers = []; status = end_status_of outcome }) m))

unfoldable pub on_done : Env → ℕ → ℕ → EngineOutcome → Manager → Manager
unfolding is_current forget_start clear_approvals unregister finish_job
on_done env now ref outcome m = elim (get_elem? m.heap ref) [
  | none ↦ m
  | some st ↦
      let started = or_else (Map.get m.started_at st.attempt_id) now in
      let current = is_current m ref st.attempt_id in
      let forgot = if current then forget_start st.attempt_id m else m in
      let cleared = clear_approvals ref (record st { run = none }) forgot in
      let ended =
        if st.fenced then cleared else finish_job env ref st outcome (now - started) cleared in
      if current then unregister st.attempt_id ended else ended
]

unfoldable pub on_approval_request : Env → ℕ → ApprovalRequest → Manager → Manager
unfolding send write_job
on_approval_request env ref req m = elim (get_elem? m.heap ref) [
  | none ↦ m
  | some st ↦
      if st.fenced
      then m
      else record (send
          (approval_request_msg env.utf8_length (ctx_of st) (record {
            request_id = req.request_id;
            tool_name = req.tool_name;
            input_summary = env.summarize req.input;
            risk = or_else req.risk medium;
            approval_timeout_ms = env.approval_timeout_ms;
          }))
          (write_job ref
            (record st {
              approval_timers = Map.set st.approval_timers req.request_id m.timer_count;
            })
            m)) {
              timers =
                  record { id = m.timer_count; job = ref; request_id = req.request_id } ∷ m.timers;
              timer_count = suc m.timer_count;
            }
]

-- The timer with number `id` runs out, if it is still armed: the request is denied.
unfoldable pub timer_fires : ℕ → Manager → Manager
unfolding clear_timeout write_job on_run
timer_fires id m = elim (find (λ (t : Timer). t.id == id) m.timers) [
  | none ↦ m
  | some t ↦
      let fired = record m { timers = clear_timeout id m.timers } in
      elim (get_elem? m.heap t.job) [
        | none ↦ fired
        | some st ↦
            on_run st.run (λ run. resolves run t.request_id deny (some "approval timeout"))
              (write_job t.job
                (record st { approval_timers = Map.remove st.approval_timers t.request_id }) fired)
      ]
]
