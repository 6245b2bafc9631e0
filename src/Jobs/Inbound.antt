-- ===== src/Jobs/Inbound.antt =====
-- The other inbound handlers of src/jobs/manager.ts. Each looks the attempt up, checks the lease and
-- returns at once where a check fails.
use hugin_agent.Prelude.{ℕ, String, true, false, not, ◌&&◌, Option, none, some, if◌then◌else◌}
use hugin_agent.Prelude.Map
use hugin_agent.Conn.Outbound.{job_status, cancelling}
use hugin_agent.Store.{
  Store, ack_events, ack_result, delete_attempt, set_attempt_status, set_attempt_lease,
}
use hugin_agent.Jobs.Types.{
  JobState, StreamAck, JobResultAck, JobCancel, LeaseRevoke, LeaseGranted, ApprovalResponse,
}
use hugin_agent.Jobs.Manager.{
  Env, Manager, resumes, cancels, resolves, send, on_run, write_job, with_store, unregister,
  forget_start, registered, ctx_of, lease_ok, over_cap, clear_timeout, clear_approvals, rotated,
}

-- After an acknowledgement: a paused job that is below the caps again runs on.
unfoldable pub resume_below_cap : Env → Option (ℕ × JobState) → Manager → Manager
unfolding on_run write_job
resume_below_cap env none m = m
resume_below_cap env (some (ref, st)) m =
    if st.paused && not (over_cap env.caps m.store st.attempt_id)
    then on_run st.run resumes (write_job ref (record st { paused = false }) m)
    else m

unfoldable pub handle_stream_ack : Env → ℕ → StreamAck → Manager → Manager
unfolding with_store resume_below_cap
handle_stream_ack env now msg m =
    let state = registered m msg.attempt_id in
    if lease_ok now m state msg.attempt_id msg.lease_id
    then resume_below_cap env state (with_store (λ s. ack_events s msg.attempt_id msg.ack_seq) m)
    else m

-- The collection that follows a digest-matched acknowledgement.
unfoldable collect : String → Store → Manager → Manager
unfolding unregister forget_start
collect id store' m =
    forget_start id (unregister id (record m { store = delete_attempt store' id }))

unfoldable pub handle_result_ack : ℕ → JobResultAck → Manager → Manager
unfolding collect
handle_result_ack now msg m =
    if lease_ok now m (registered m msg.attempt_id) msg.attempt_id msg.lease_id
    then (let acked = ack_result m.store msg.attempt_id msg.result_digest in
        if acked.1 then collect msg.attempt_id acked.0 m else m)
    else m

unfoldable pub handle_approval_response : ℕ → ApprovalResponse → Manager → Manager
unfolding write_job on_run clear_timeout
handle_approval_response now msg m = elim (registered m msg.attempt_id) [
  | none ↦ m
  | some (ref, st) ↦
      if lease_ok now m (some (ref, st)) msg.attempt_id msg.lease_id
      then elim (Map.get st.approval_timers msg.request_id) [
        | none ↦ m
        | some timer ↦
            on_run st.run (λ run. resolves run msg.request_id msg.decision msg.reason)
              (write_job ref
                (record st { approval_timers = Map.remove st.approval_timers msg.request_id })
                (record m { timers = clear_timeout timer m.timers }))
      ]
      else m
]

unfoldable pub handle_lease_granted : ℕ → LeaseGranted → Manager → Manager
unfolding write_job with_store rotated
handle_lease_granted now msg m = elim (registered m msg.attempt_id) [
  | none ↦ m
  | some (ref, st) ↦
      with_store (λ s. set_attempt_lease s msg.attempt_id msg.lease_id)
        (write_job ref (rotated now msg.lease_id st) m)
]

unfoldable pub handle_cancel : ℕ → JobCancel → Manager → Manager
unfolding write_job with_store send on_run
handle_cancel now msg m = elim (registered m msg.attempt_id) [
  | none ↦ m
  | some (ref, st) ↦
      if lease_ok now m (some (ref, st)) msg.attempt_id msg.lease_id
      then on_run st.run (λ run. cancels run msg.grace_ms)
          (send (job_status (ctx_of st) cancelling) (
            with_store (λ s. set_attempt_status s msg.attempt_id cancelling)
              (write_job ref (record st { status = cancelling }) m)))
      else m
]

-- The local fence: the job is marked, its approvals and its run are ended, and nothing is sent.
unfoldable pub fence : ℕ → JobState → Manager → Manager
unfolding clear_approvals on_run
fence ref st m =
    on_run st.run (λ run. cancels run 0) (clear_approvals ref (record st { fenced = true }) m)

unfoldable pub handle_revoke : ℕ → LeaseRevoke → Manager → Manager
unfolding fence unregister forget_start with_store
handle_revoke now msg m = elim (registered m msg.attempt_id) [
  | none ↦ m
  | some (ref, st) ↦
      if lease_ok now m (some (ref, st)) msg.attempt_id msg.lease_id
      then with_store (λ s. delete_attempt s msg.attempt_id)
          (forget_start msg.attempt_id (unregister msg.attempt_id (fence ref st m)))
      else m
]
