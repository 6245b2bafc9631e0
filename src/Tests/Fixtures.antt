-- ===== src/Tests/Fixtures.antt =====
-- A small store, a manager with two live jobs and the messages that the tests send to them, for
-- src/store/eventlog.ts and src/jobs/manager.ts.
use hugin_agent.Prelude.{ℕ, String, true, false, none, some, [], ◌∷◌, length}
use hugin_agent.Json.{end}
use hugin_agent.Conn.Outbound.{
  EngineEvent, AttemptCtx, Message, JobStatus, FinalStatus, heartbeat, stream_event, job_result,
}
use hugin_agent.Store.Rows.{AttemptRow, EventRow, StoredResult}
use hugin_agent.Store.{Store}
use hugin_agent.Jobs.Types.{
  JobState, JobAssign, StreamAck, LeaseRevoke, LeaseGranted, ApprovalRequest, ApprovalResponse,
  ResumeDirective, resend_result, resume_from, claude, read_only, never, allow,
}
use hugin_agent.Jobs.Manager.{Env, Manager}

abbrev ctx_a : AttemptCtx
ctx_a = record { job_id = "job-a"; attempt_id = "att-a"; lease_id = "lease-1" }

abbrev pub token : EngineEvent
token = record { kind = "token"; fields = end }

abbrev pub event_payload : ℕ → Message
event_payload n = stream_event ctx_a n "att-a-n" token

abbrev pub event_a : ℕ → EventRow
event_a n = record {
  attempt_id = "att-a";
  seq = n;
  event_id = "att-a-n";
  bytes = 10;
  payload = event_payload n;
}

abbrev event_b : EventRow
event_b = record {
  attempt_id = "att-b";
  seq = 1;
  event_id = "att-b-1";
  bytes = 90;
  payload = heartbeat;
}

abbrev pub row : String → String → ℕ → AttemptRow
row id lease last = record {
  attempt_id = id;
  job_id = "job-a";
  lease_id = lease;
  agent_run_id = "run-1";
  status = JobStatus.running;
  created_at = "2026-01-01T00:00:00.000Z";
  last_seq = last;
}

abbrev pub result_payload : Message
result_payload = job_result ctx_a (record {
  final_status = FinalStatus.success;
  exit_code = some 0;
  error_kind = none;
  duration_ms = 7;
  stats = record { event_count = 2; bytes = 20 };
})

abbrev pub result_c : StoredResult
result_c = record {
  attempt_id = "att-c";
  job_id = "job-c";
  lease_id = "lease-3";
  final_status = FinalStatus.success;
  result_digest = "digest-1";
  result_size = 30;
  payload = result_payload;
  last_emitted_seq = 2;
}

abbrev pub store : Store
store = record {
  attempts = row "att-a" "lease-1" 2 ∷ row "att-b" "lease-2" 1 ∷ row "att-c" "lease-3" 2 ∷ [];
  events = event_a 1 ∷ event_b ∷ event_a 2 ∷ [];
  results = result_c ∷ [];
}

abbrev pub env : Env
env = record {
  caps = record { events = 10; bytes = 1000; conn = 100 };
  gate_available = false;
  approval_timeout_ms = 60000;
  validate = λ s. none;
  payload_bytes = λ m. 10;
  result_digest = λ m. "digest-2";
  summarize = λ i. [];
  utf8_length = λ s. length s;
  iso = λ t. "2026-01-01T00:00:00.000Z";
}

abbrev pub job_a : JobState
job_a = record {
  job_id = "job-a";
  attempt_id = "att-a";
  lease_id = "lease-1";
  agent_run_id = "run-1";
  status = JobStatus.running;
  seq = 2;
  total_bytes = 20;
  run = some 0;
  paused = false;
  fenced = false;
  approval_timers = [];
  prev_lease = none;
  lease_overlap_until = none;
}

-- Paused at the cap of the connection, with nothing unacknowledged of its own.
abbrev pub job_d : JobState
job_d = record job_a { attempt_id = "att-d"; lease_id = "lease-4"; run = some 1; paused = true }

abbrev pub two_jobs : Manager
two_jobs = record {
  registry = record { jobs = ("att-a", 0) ∷ ("att-d", 1) ∷ []; max_concurrent = 2 };
  heap = job_a ∷ job_d ∷ [];
  store = store;
  started_at = [];
  run_count = 2;
  timers = [];
  timer_count = 0;
  trace = [];
}

abbrev pub idle : Manager
idle = record two_jobs { registry = record { jobs = []; max_concurrent = 1 }; heap = [] }

abbrev pub assign : JobAssign
assign = record {
  job_id = "job-e";
  attempt_id = "att-e";
  lease_id = "lease-5";
  engine = claude;
  workspace = record { repo_root = "/repo"; base_sha = none; cwd = none };
  prompt = "explain";
  sandbox = read_only;
  approval_policy = never;
}

abbrev pub ack_a : StreamAck
ack_a = record { attempt_id = "att-a"; lease_id = "lease-1"; ack_seq = 2 }

abbrev pub grant_a : LeaseGranted
grant_a = record { attempt_id = "att-a"; lease_id = "lease-9" }

abbrev pub revoke_a : LeaseRevoke
revoke_a = record { attempt_id = "att-a"; lease_id = "lease-1" }

abbrev pub ask : ApprovalRequest
ask = record { request_id = "req-1"; tool_name = "Bash"; input = none; risk = none }

abbrev pub answer : ApprovalResponse
answer = record {
  attempt_id = "att-a";
  lease_id = "lease-1";
  request_id = "req-1";
  decision = allow;
  reason = none;
}

abbrev pub resend_c : ResumeDirective
resend_c = record {
  attempt_id = "att-c";
  action = resend_result;
  resume_after_seq = none;
  lease_id = some "lease-8";
}

abbrev pub resume_a : ResumeDirective
resume_a = record {
  attempt_id = "att-a";
  action = resume_from;
  resume_after_seq = some 1;
  lease_id = some "lease-8";
}
