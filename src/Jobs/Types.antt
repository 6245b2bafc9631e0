-- ===== src/Jobs/Types.antt =====
-- The data of the job path: the engine's interface (src/engine/types.ts), the live job of
-- src/jobs/registry.ts and the inbound messages that src/jobs/manager.ts handles.
use hugin_agent.Prelude.{ℕ, String, Bool, Option}
use hugin_agent.Prelude.Map.{Map}
use hugin_agent.Json.{Json}
use hugin_agent.Conn.Outbound.{JobStatus, Risk}

pub data EngineName : Type 0 where
  claude codex : EngineName

pub data Sandbox : Type 0 where
  read_only workspace_write full : Sandbox

pub data ApprovalPolicy : Type 0 where
  never on_request on_write always : ApprovalPolicy

pub data ApprovalDecision : Type 0 where
  allow deny : ApprovalDecision

pub data EngineOutcome : Type 0 where
  success : Option ℕ → EngineOutcome
  error : Option ℕ → Option String → EngineOutcome
  cancelled : EngineOutcome

pub record EngineSpec : Type 0 where
  pub engine : EngineName
  pub prompt : String
  pub attempt_id : String
  pub repo_root : String
  pub base_sha : Option String
  pub cwd : Option String
  pub sandbox : Sandbox

pub record ApprovalRequest : Type 0 where
  pub request_id : String
  pub tool_name : String
  pub input : Option Json
  pub risk : Option Risk

-- `run` is the handle of the engine run, `approval_timers` maps a request to its timer.
pub record JobState : Type 0 where
  pub job_id : String
  pub attempt_id : String
  pub lease_id : String
  pub agent_run_id : String
  pub status : JobStatus
  pub seq : ℕ
  pub total_bytes : ℕ
  pub run : Option ℕ
  pub paused : Bool
  pub fenced : Bool
  pub approval_timers : Map ℕ
  pub prev_lease : Option String
  pub lease_overlap_until : Option ℕ

pub record Workspace : Type 0 where
  pub repo_root : String
  pub base_sha : Option String
  pub cwd : Option String

pub record JobAssign : Type 0 where
  pub job_id : String
  pub attempt_id : String
  pub lease_id : String
  pub engine : EngineName
  pub workspace : Workspace
  pub prompt : String
  pub sandbox : Sandbox
  pub approval_policy : ApprovalPolicy

pub record StreamAck : Type 0 where
  pub attempt_id : String
  pub lease_id : String
  pub ack_seq : ℕ

pub record JobResultAck : Type 0 where
  pub attempt_id : String
  pub lease_id : String
  pub result_digest : String

pub record JobCancel : Type 0 where
  pub attempt_id : String
  pub lease_id : String
  pub grace_ms : ℕ

pub record LeaseRevoke : Type 0 where
  pub attempt_id : String
  pub lease_id : String

pub record LeaseGranted : Type 0 where
  pub attempt_id : String
  pub lease_id : String

pub record ApprovalResponse : Type 0 where
  pub attempt_id : String
  pub lease_id : String
  pub request_id : String
  pub decision : ApprovalDecision
  pub reason : Option String

pub data ResumeAction : Type 0 where
  resume_from resend_result ack_pending abandon : ResumeAction

pub record ResumeDirective : Type 0 where
  pub attempt_id : String
  pub action : ResumeAction
  pub resume_after_seq : Option ℕ
  pub lease_id : Option String
