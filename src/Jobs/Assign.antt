-- ===== src/Jobs/Assign.antt =====
-- `handleAssign` of src/jobs/manager.ts: idempotent admission of a job.
use hugin_agent.Prelude.{
  ℕ, suc, String, Bool, true, false, not, ◌&&◌, Option, none, some, [], ◌∷◌, ◌++◌, if◌then◌else◌,
  length,
}
use hugin_agent.Prelude.Map
use hugin_agent.Conn.Outbound.{
  AttemptCtx, job_accept, job_reject, job_status, accepted, running, busy, stale_lease,
  policy_violation,
}
use hugin_agent.Store.Rows.{AttemptRow}
use hugin_agent.Store.{get_attempt, create_attempt, set_attempt_status}
use hugin_agent.Jobs.Types.{
  EngineSpec, JobState, JobAssign, Sandbox, read_only, workspace_write, full, ApprovalPolicy, never,
  on_request, on_write, always,
}
use hugin_agent.Jobs.Registry
use hugin_agent.Jobs.Registry.{lease_matches}
use hugin_agent.Jobs.Manager.{Env, Manager, sends, runs, send, registered}

abbrev assign_ctx : JobAssign → AttemptCtx
assign_ctx msg = record {
  job_id = msg.job_id;
  attempt_id = msg.attempt_id;
  lease_id = msg.lease_id;
}

abbrev pub spec_of : JobAssign → EngineSpec
spec_of msg = record {
  engine = msg.engine;
  prompt = msg.prompt;
  attempt_id = msg.attempt_id;
  repo_root = msg.workspace.repo_root;
  base_sha = msg.workspace.base_sha;
  cwd = msg.workspace.cwd;
  sandbox = msg.sandbox;
}

-- The lease and the run id of the attempt, from the registry or else from the store.
unfoldable pub existing : Manager → String → Option (String × String)
existing m id = elim (registered m id) [
  | some (ref, st) ↦ some (st.lease_id, st.agent_run_id)
  | none ↦ elim (get_attempt m.store id) [
    | some a ↦ some (a.lease_id, a.agent_run_id)
    | none ↦ none
  ]
]

-- A job that may write or execute, or that expects to be gated.
abbrev pub needs_gate : Sandbox → ApprovalPolicy → Bool
needs_gate read_only never = false
needs_gate read_only on_request = true
needs_gate read_only on_write = true
needs_gate read_only always = true
needs_gate workspace_write policy = true
needs_gate full policy = true

abbrev pub initial_state : JobAssign → String → JobState
initial_state msg run_id = record {
  job_id = msg.job_id;
  attempt_id = msg.attempt_id;
  lease_id = msg.lease_id;
  agent_run_id = run_id;
  status = accepted;
  seq = 0;
  total_bytes = 0;
  run = none;
  paused = false;
  fenced = false;
  approval_timers = [];
  prev_lease = none;
  lease_overlap_until = none;
}

-- From `agentRunId()` on: the durable row, the live job, the two messages and the engine's run.
unfoldable pub start_job : Env → ℕ → String → JobAssign → Manager → Manager
unfolding send Registry.add
start_job env now run_id msg m =
    let row : AttemptRow = record {
      attempt_id = msg.attempt_id;
      job_id = msg.job_id;
      lease_id = msg.lease_id;
      agent_run_id = run_id;
      status = accepted;
      created_at = env.iso now;
      last_seq = 0;
    } in
    record m {
      store = set_attempt_status (create_attempt m.store row).0 msg.attempt_id running;
      heap =
          m.heap
          ++ record (initial_state msg run_id) { status = running; run = some m.run_count } ∷ [];
      registry = Registry.add m.registry msg.attempt_id (length m.heap);
      started_at = Map.set m.started_at msg.attempt_id now;
      run_count = suc m.run_count;
      trace =
          runs m.run_count (spec_of msg)
          ∷ sends (job_status (assign_ctx msg) running)
          ∷ sends (job_accept (assign_ctx msg) run_id)
          ∷ m.trace;
    }

unfoldable pub handle_assign : Env → ℕ → String → JobAssign → Manager → Manager
unfolding lease_matches Registry.at_capacity send
handle_assign env now run_id msg m = elim (existing m msg.attempt_id) [
  | some (lease, agent_run_id) ↦
      if lease_matches lease msg.lease_id
      then send (job_accept (record (assign_ctx msg) { lease_id = lease }) agent_run_id) m
      else send
          (job_reject (assign_ctx msg) stale_lease
            "attempt already accepted under a different lease")
          m
  | none ↦
      if Registry.at_capacity m.registry
      then send (job_reject (assign_ctx msg) busy "agent at capacity") m
      else elim (env.validate (spec_of msg)) [
        | some (code, message) ↦ send (job_reject (assign_ctx msg) code message) m
        | none ↦
            if not env.gate_available && needs_gate msg.sandbox msg.approval_policy
            then send
                (job_reject (assign_ctx msg) policy_violation
                  "approval gate unavailable — daemon fails closed on gated jobs")
                m
            else start_job env now run_id msg m
      ]
]
