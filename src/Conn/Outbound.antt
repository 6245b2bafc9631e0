-- ===== src/Conn/Outbound.antt =====
-- The builders of outbound messages: src/conn/outbound.ts. The envelope (`id`, `ts`) is stamped anew
-- at every send and identifies nothing, so a message here is its body. Text whose length is measured
-- is the list of its UTF-16 code units.
use hugin_agent.Prelude.{ℕ, String, Bool, false, Option, List, ltb, length, take, if◌then◌else◌}
use hugin_agent.Json.{Fields}

-- `EngineEvent`: a kind, and further fields.
pub record EngineEvent : Type 0 where
  pub kind : String
  pub fields : Fields

pub record AttemptCtx : Type 0 where
  pub job_id : String
  pub attempt_id : String
  pub lease_id : String

pub data RejectCode : Type 0 where
  root_not_allowlisted engine_unavailable busy stale_lease bad_request policy_violation : RejectCode

-- `JobStatusValue`, and `JobStatus` of the registry.
pub data JobStatus : Type 0 where
  accepted starting running cancelling cancelled completed failed : JobStatus

pub data FinalStatus : Type 0 where
  success error cancelled timeout : FinalStatus

pub data Risk : Type 0 where
  low medium high : Risk

pub data DrainReason : Type 0 where
  shutdown update idle_timeout : DrainReason

pub record Stats : Type 0 where
  pub event_count : ℕ
  pub bytes : ℕ

pub record JobResultFields : Type 0 where
  pub final_status : FinalStatus
  pub exit_code : Option ℕ
  pub error_kind : Option String
  pub duration_ms : ℕ
  pub stats : Stats

pub record ApprovalArgs : Type 0 where
  pub request_id : String
  pub tool_name : String
  pub input_summary : List ℕ
  pub risk : Risk
  pub approval_timeout_ms : ℕ

pub record Redaction : Type 0 where
  pub applied : Bool
  pub truncated : Bool
  pub byte_count : ℕ

pub data Message : Type 0 where
  heartbeat : Message
  agent_draining : DrainReason → Option ℕ → Message
  job_accept : AttemptCtx → String → Message
  job_reject : AttemptCtx → RejectCode → String → Message
  job_status : AttemptCtx → JobStatus → Message
  stream_event : AttemptCtx → ℕ → String → EngineEvent → Message
  job_result : AttemptCtx → JobResultFields → Message
  approval_request : AttemptCtx → ApprovalArgs → Redaction → Message

abbrev input_summary_max : ℕ
input_summary_max = 8000

-- `utf8_length` is `Buffer.byteLength(_, "utf8")`.
unfoldable pub approval_request_msg : (List ℕ → ℕ) → AttemptCtx → ApprovalArgs → Message
approval_request_msg utf8_length ctx args =
    let truncated = ltb input_summary_max (length args.input_summary) in
    let summary =
      if truncated then take input_summary_max args.input_summary else args.input_summary in
    approval_request ctx (record args { input_summary = summary })
      (record {
        applied = false;
        truncated = truncated;
        byte_count = utf8_length args.input_summary;
      })

-- `msg.lease_id = lease`, on the parsed message. The messages of no attempt have no such field.
unfoldable pub restamp : String → Message → Message
restamp lease heartbeat = heartbeat
restamp lease (agent_draining reason eta) = agent_draining reason eta
restamp lease (job_accept ctx r) = job_accept (record ctx { lease_id = lease }) r
restamp lease (job_reject ctx code m) = job_reject (record ctx { lease_id = lease }) code m
restamp lease (job_status ctx s) = job_status (record ctx { lease_id = lease }) s
restamp lease (stream_event ctx seq e ev) = stream_event (record ctx { lease_id = lease }) seq e ev
restamp lease (job_result ctx f) = job_result (record ctx { lease_id = lease }) f
restamp lease (approval_request ctx a r) = approval_request (record ctx { lease_id = lease }) a r
