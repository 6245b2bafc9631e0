-- ===== src/Jobs/Step.antt =====
-- One step of the job manager: an inbound message, a callback of the engine or a timer, at a time.
use hugin_agent.Prelude.{ℕ, String, List, [], ◌∷◌}
use hugin_agent.Conn.Outbound.{EngineEvent}
use hugin_agent.Jobs.Types.{
  EngineOutcome, ApprovalRequest, JobAssign, StreamAck, JobResultAck, JobCancel, LeaseRevoke,
  LeaseGranted, ApprovalResponse, ResumeDirective,
}
use hugin_agent.Jobs.Manager.{Env, Manager}
use hugin_agent.Jobs.Assign.{handle_assign}
use hugin_agent.Jobs.Callbacks.{final_manager, on_event, on_done, on_approval_request, timer_fires}
use hugin_agent.Jobs.Inbound.{
  handle_stream_ack, handle_result_ack, handle_approval_response, handle_lease_granted,
  handle_cancel, handle_revoke,
}
use hugin_agent.Jobs.Resume.{apply_resume}

pub data Input : Type 0 where
  job_assign : String → JobAssign → Input
  stream_ack : StreamAck → Input
  job_result_ack : JobResultAck → Input
  job_cancel : JobCancel → Input
  approval_response : ApprovalResponse → Input
  lease_revoke : LeaseRevoke → Input
  lease_granted : LeaseGranted → Input
  resumes_from : List ResumeDirective → Input
  event : ℕ → EngineEvent → Input
  done : ℕ → EngineOutcome → Input
  approval_request : ℕ → ApprovalRequest → Input
  timeout : ℕ → Input

-- The dispatch of the daemon's pump, and the callbacks. The run id that an assignment may use is
-- drawn outside.
unfoldable pub step : Env → ℕ → Input → Manager → Manager
step env now (job_assign run_id msg) m = handle_assign env now run_id msg m
step env now (stream_ack msg) m = handle_stream_ack env now msg m
step env now (job_result_ack msg) m = handle_result_ack now msg m
step env now (job_cancel msg) m = handle_cancel now msg m
step env now (approval_response msg) m = handle_approval_response now msg m
step env now (lease_revoke msg) m = handle_revoke now msg m
step env now (lease_granted msg) m = handle_lease_granted now msg m
step env now (resumes_from ds) m = apply_resume env now ds m
step env now (event ref ev) m = final_manager (on_event env ref ev m)
step env now (done ref outcome) m = on_done env now ref outcome m
step env now (approval_request ref req) m = on_approval_request env ref req m
step env now (timeout id) m = timer_fires id m

unfoldable pub run : Env → List (ℕ × Input) → Manager → Manager
run env [] m = m
run env ((now, i) ∷ is) m = run env is (step env now i m)
