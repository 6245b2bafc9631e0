-- ===== src/Jobs/Resume.antt =====
-- `applyResume` of src/jobs/manager.ts: the directives of `hello.accepted`, from the durable store.
use hugin_agent.Prelude.{ℕ, String, Option, none, some, List, [], ◌∷◌, or_else}
use hugin_agent.Conn.Outbound.{
  Message, restamp, heartbeat, agent_draining, job_accept, job_reject, job_status, stream_event,
  job_result, approval_request,
}
use hugin_agent.Store.Rows.{StoredResult}
use hugin_agent.Store.{events_after, get_result, update_result, delete_result, delete_attempt}
use hugin_agent.Jobs.Types.{
  ResumeAction, ResumeDirective, resume_from, resend_result, ack_pending, abandon,
}
use hugin_agent.Jobs.Manager.{
  Env, Manager, send, with_store, unregister, forget_start, registered, adopt_lease,
}
use hugin_agent.Jobs.Inbound.{fence}

-- `if (d.lease_id) this.adoptLease(…)`; the schema allows no empty lease.
unfoldable pub adopt_directive : ℕ → String → Option String → Manager → Manager
unfolding adopt_lease
adopt_directive now id none m = m
adopt_directive now id (some lease) m = adopt_lease now id lease m

abbrev pub restamp_directive : Option String → Message → Message
restamp_directive none msg = msg
restamp_directive (some lease) msg = restamp lease msg

unfoldable pub resend : Option String → List Message → Manager → Manager
unfolding send
resend lease [] m = m
resend lease (p ∷ ps) m = resend lease ps (send (restamp_directive lease p) m)

-- The stored result goes out under the directive's lease, or the one it carries; row and digest
-- follow the re-stamped message.
abbrev carried_lease : StoredResult → Message → String
carried_lease r heartbeat = r.lease_id
carried_lease r (agent_draining reason eta) = r.lease_id
carried_lease r (job_accept ctx run) = ctx.lease_id
carried_lease r (job_reject ctx code m) = ctx.lease_id
carried_lease r (job_status ctx s) = ctx.lease_id
carried_lease r (stream_event ctx seq e ev) = ctx.lease_id
carried_lease r (job_result ctx f) = ctx.lease_id
carried_lease r (approval_request ctx a red) = ctx.lease_id

unfoldable pub resend_stored : Env → String → Option String → Manager → Manager
unfolding send with_store
resend_stored env id lease m = elim (get_result m.store id) [
  | none ↦ m
  | some r ↦
      let lease' = or_else lease (carried_lease r r.payload) in
      let msg = restamp lease' r.payload in
      send msg (
        with_store
          (λ s. update_result s id lease' (env.result_digest msg) msg (env.payload_bytes msg)) m)
]

unfoldable drop_attempt : String → Manager → Manager
unfolding with_store
drop_attempt id m = with_store (λ s. delete_attempt (delete_result s id) id) m

unfoldable pub apply_action : Env → ℕ → ResumeAction → ResumeDirective → Manager → Manager
unfolding adopt_directive resend resend_stored drop_attempt unregister forget_start fence
apply_action env now resume_from d m =
    let m' = adopt_directive now d.attempt_id d.lease_id m in
    resend d.lease_id (events_after m'.store d.attempt_id (or_else d.resume_after_seq 0)) m'
apply_action env now resend_result d m =
    resend_stored env d.attempt_id d.lease_id (adopt_directive now d.attempt_id d.lease_id m)
apply_action env now ack_pending d m = unregister d.attempt_id (drop_attempt d.attempt_id m)
apply_action env now abandon d m = drop_attempt d.attempt_id (elim (registered m d.attempt_id) [
  | none ↦ m
  | some (ref, st) ↦ forget_start d.attempt_id (unregister d.attempt_id (fence ref st m))
])

unfoldable pub apply_resume : Env → ℕ → List ResumeDirective → Manager → Manager
unfolding apply_action
apply_resume env now [] m = m
apply_resume env now (d ∷ ds) m = apply_resume env now ds (apply_action env now d.action d m)
