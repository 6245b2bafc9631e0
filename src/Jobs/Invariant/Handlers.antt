-- ===== src/Jobs/Invariant/Handlers.antt =====
-- Every handler of src/jobs/manager.ts but an admission keeps the jobs and only shrinks the registry.
use hugin_agent.Prelude.{
  ℕ, suc, ◌≡◌, inl, inr, refl, String, true, false, not, ◌&&◌, some, [], get_elem?,
  get_elem?-set_self, get_elem?-lt, Bool-cases, Option-cases, ◌==◌, arith,
}
use mathlib.Core.Path.{subst}
use hugin_agent.Prelude.Map
use hugin_agent.Conn.Outbound.{EngineEvent, cancelling}
use hugin_agent.Store.Rows.{find}
use hugin_agent.Store.{append_event, ack_events, ack_result}
use hugin_agent.Jobs.Types.{
  JobState, ApprovalRequest, StreamAck, JobResultAck, JobCancel, LeaseRevoke, LeaseGranted,
  ApprovalResponse,
}
use hugin_agent.Jobs.Registry
use hugin_agent.Jobs.Manager.{
  Env, Manager, Timer, registered, registered-parts, lease_ok, over_cap, write_job, send,
  with_store, rotated,
}
use hugin_agent.Jobs.Callbacks.{
  final_manager, stored, event_message, event_row, counted, pause_over_cap, on_event,
  on_approval_request, timer_fires,
}
use hugin_agent.Jobs.Inbound.{
  resume_below_cap, handle_stream_ack, handle_result_ack, handle_approval_response,
  handle_lease_granted, handle_cancel, fence, handle_revoke,
}
use hugin_agent.Jobs.Invariant.Evolution.{
  Keeps, Evolves, Evolves-same, Evolves-trans, Evolves-set, Evolves-drop,
}

resume_below_cap-Evolves :
    (env : Env) (ref : ℕ) (st : JobState) (m : Manager)
    → get_elem? m.heap ref ≡ some st
    → Evolves m (resume_below_cap env (some (ref, st)) m)
unfolding resume_below_cap
resume_below_cap-Evolves env ref st m at =
    elim (Bool-cases (st.paused && not (over_cap env.caps m.store st.attempt_id))) [
      | inr stays ↦
          Evolves-same m (resume_below_cap env (some (ref, st)) m) (ground arith) (ground arith)
      | inl resumed ↦
          Evolves-set m (resume_below_cap env (some (ref, st)) m) ref st
            (record st { paused = false }) at (ground arith) (ground arith) (ground arith)
    ]

pub handle_stream_ack-Evolves :
    (env : Env) (now : ℕ) (msg : StreamAck) (m : Manager)
    → Evolves m (handle_stream_ack env now msg m)
unfolding handle_stream_ack
handle_stream_ack-Evolves env now msg m =
    elim (Bool-cases (lease_ok now m (registered m msg.attempt_id) msg.attempt_id msg.lease_id)) [
      | inr stale ↦ Evolves-same m (handle_stream_ack env now msg m) (ground arith) (ground arith)
      | inl ok ↦ elim (Option-cases (registered m msg.attempt_id)) [
        | inl gone ↦ Evolves-same m (handle_stream_ack env now msg m) (ground arith) (ground arith)
        | inr ((ref, st), reg) ↦
            Evolves-trans m acked (handle_stream_ack env now msg m) (Evolves-same m acked refl refl)
              (rw (ok, reg, handle_stream_ack)
                (resume_below_cap-Evolves env ref st acked
                  (registered-parts m msg.attempt_id reg).1))
      ]
    ]
  where
    acked : Manager
    acked = with_store (λ s. ack_events s msg.attempt_id msg.ack_seq) m

pub handle_result_ack-Evolves :
    (now : ℕ) (msg : JobResultAck) (m : Manager) → Evolves m (handle_result_ack now msg m)
unfolding handle_result_ack
handle_result_ack-Evolves now msg m =
    elim (Bool-cases (lease_ok now m (registered m msg.attempt_id) msg.attempt_id msg.lease_id)) [
      | inr stale ↦ Evolves-same m (handle_result_ack now msg m) (ground arith) (ground arith)
      | inl ok ↦ elim (Bool-cases (ack_result m.store msg.attempt_id msg.result_digest).1) [
        | inr kept ↦ Evolves-same m (handle_result_ack now msg m) (ground arith) (ground arith)
        | inl acked ↦
            Evolves-drop m (handle_result_ack now msg m) msg.attempt_id (ground arith)
              (ground arith)
      ]
    ]

pub handle_cancel-Evolves :
    (now : ℕ) (msg : JobCancel) (m : Manager) → Evolves m (handle_cancel now msg m)
unfolding handle_cancel
handle_cancel-Evolves now msg m = elim (Option-cases (registered m msg.attempt_id)) [
  | inl gone ↦ Evolves-same m (handle_cancel now msg m) (ground arith) (ground arith)
  | inr ((ref, st), reg) ↦
      elim (Bool-cases (lease_ok now m (some (ref, st)) msg.attempt_id msg.lease_id)) [
        | inr stale ↦ Evolves-same m (handle_cancel now msg m) (ground arith) (ground arith)
        | inl ok ↦
            Evolves-set m (handle_cancel now msg m) ref st (record st { status = cancelling })
              (registered-parts m msg.attempt_id reg).1 (ground arith) (ground arith) (ground arith)
      ]
]

pub handle_lease_granted-Evolves :
    (now : ℕ) (msg : LeaseGranted) (m : Manager) → Evolves m (handle_lease_granted now msg m)
unfolding handle_lease_granted
handle_lease_granted-Evolves now msg m = elim (Option-cases (registered m msg.attempt_id)) [
  | inl gone ↦ Evolves-same m (handle_lease_granted now msg m) (ground arith) (ground arith)
  | inr ((ref, st), reg) ↦
      Evolves-set m (handle_lease_granted now msg m) ref st (rotated now msg.lease_id st)
        (registered-parts m msg.attempt_id reg).1 (unfold rotated in ground arith) (ground arith)
        (ground arith)
]

pub handle_approval_response-Evolves :
    (now : ℕ) (msg : ApprovalResponse) (m : Manager)
    → Evolves m (handle_approval_response now msg m)
unfolding handle_approval_response
handle_approval_response-Evolves now msg m = elim (Option-cases (registered m msg.attempt_id)) [
  | inl gone ↦ Evolves-same m (handle_approval_response now msg m) (ground arith) (ground arith)
  | inr ((ref, st), reg) ↦
      elim (Bool-cases (lease_ok now m (some (ref, st)) msg.attempt_id msg.lease_id)) [
        | inr stale ↦
            Evolves-same m (handle_approval_response now msg m) (ground arith) (ground arith)
        | inl ok ↦ elim (Option-cases (Map.get st.approval_timers msg.request_id)) [
          | inl unknown ↦
              Evolves-same m (handle_approval_response now msg m) (ground arith) (ground arith)
          | inr (timer, open_request) ↦
              Evolves-set m (handle_approval_response now msg m) ref st
                (record st { approval_timers = Map.remove st.approval_timers msg.request_id })
                (registered-parts m msg.attempt_id reg).1 (ground arith) (ground arith)
                (ground arith)
        ]
      ]
]

fence-Evolves :
    (ref : ℕ) (st : JobState) (m : Manager)
    → get_elem? m.heap ref ≡ some st
    → Evolves m (fence ref st m)
unfolding fence
fence-Evolves ref st m at =
    Evolves-set m (fence ref st m) ref st (record st { fenced = true; approval_timers = [] }) at
      (ground arith) (ground arith) (ground arith)

-- A fenced job leaves the registry.
pub fence_drop-Evolves :
    (ref : ℕ) (st : JobState) (m m' : Manager) (id : String)
    → get_elem? m.heap ref ≡ some st
    → m'.heap ≡ (fence ref st m).heap
    → m'.registry ≡ Registry.remove (fence ref st m).registry id
    → Evolves m m'
fence_drop-Evolves ref st m m' id at h r =
    Evolves-trans m (fence ref st m) m' (fence-Evolves ref st m at)
      (Evolves-drop (fence ref st m) m' id h r)

pub handle_revoke-Evolves :
    (now : ℕ) (msg : LeaseRevoke) (m : Manager) → Evolves m (handle_revoke now msg m)
unfolding handle_revoke
handle_revoke-Evolves now msg m = elim (Option-cases (registered m msg.attempt_id)) [
  | inl gone ↦ Evolves-same m (handle_revoke now msg m) (ground arith) (ground arith)
  | inr ((ref, st), reg) ↦
      elim (Bool-cases (lease_ok now m (some (ref, st)) msg.attempt_id msg.lease_id)) [
        | inr stale ↦ Evolves-same m (handle_revoke now msg m) (ground arith) (ground arith)
        | inl ok ↦
            fence_drop-Evolves ref st m (handle_revoke now msg m) msg.attempt_id
              (registered-parts m msg.attempt_id reg).1 (ground arith) (ground arith)
      ]
]

pause_over_cap-Evolves :
    (env : Env) (ref : ℕ) (st : JobState) (m : Manager)
    → get_elem? m.heap ref ≡ some st
    → Evolves m (pause_over_cap env ref st m)
unfolding pause_over_cap
pause_over_cap-Evolves env ref st m at =
    elim (Bool-cases (over_cap env.caps m.store st.attempt_id)) [
      | inr no_cap ↦ Evolves-same m (pause_over_cap env ref st m) (ground arith) (ground arith)
      | inl capped ↦
          Evolves-set m (pause_over_cap env ref st m) ref st (record st { paused = true }) at
            (ground arith) (ground arith) (ground arith)
    ]

pub on_event-Evolves :
    (env : Env) (ref : ℕ) (ev : EngineEvent) (m : Manager)
    → Evolves m (final_manager (on_event env ref ev m))
unfolding on_event stored
on_event-Evolves env ref ev m = elim (Option-cases (get_elem? m.heap ref)) [
  | inl gone ↦ Evolves-same m (final_manager (on_event env ref ev m)) (ground arith) (ground arith)
  | inr (st, at) ↦ elim (Bool-cases st.fenced) [
    | inl fenced ↦
        Evolves-same m (final_manager (on_event env ref ev m)) (ground arith) (ground arith)
    | inr live ↦ elim (Option-cases (append_event m.store (event_row env st ev))) [
      | inl refused ↦
          Evolves-set m (final_manager (on_event env ref ev m)) ref st (counted env st ev) at
            (counts env st ev) (ground arith) (ground arith)
      | inr (store', written) ↦
          let before = send (event_message st (suc st.seq) ev) (
            stored (event_message st (suc st.seq) ev) store'
              (write_job ref (counted env st ev) m)) in
          subst (λ x. Evolves m x)
            (let e : pause_over_cap env ref (counted env st ev) before
                  ≡ final_manager (on_event env ref ev m) =
                ground arith in
              e)
            (Evolves-trans m before (pause_over_cap env ref (counted env st ev) before)
              (Evolves-set m before ref st (counted env st ev) at (counts env st ev) refl refl)
              (pause_over_cap-Evolves env ref (counted env st ev) before
                (get_elem?-set_self m.heap ref (counted env st ev) (get_elem?-lt m.heap ref at))))
    ]
  ]
]
  where
    counts : (env : Env) (st : JobState) (ev : EngineEvent) → Keeps st (counted env st ev)
    counts env st ev = record { same_attempt = refl; stays_fenced = λ f. f; seq_le = omega arith }

pub on_approval_request-Evolves :
    (env : Env) (ref : ℕ) (req : ApprovalRequest) (m : Manager)
    → Evolves m (on_approval_request env ref req m)
unfolding on_approval_request
on_approval_request-Evolves env ref req m = elim (Option-cases (get_elem? m.heap ref)) [
  | inl gone ↦ Evolves-same m (on_approval_request env ref req m) (ground arith) (ground arith)
  | inr (st, at) ↦ elim (Bool-cases st.fenced) [
    | inl fenced ↦ Evolves-same m (on_approval_request env ref req m) (ground arith) (ground arith)
    | inr live ↦
        Evolves-set m (on_approval_request env ref req m) ref st
          (record st { approval_timers = Map.set st.approval_timers req.request_id m.timer_count })
          at (ground arith) (ground arith) (ground arith)
  ]
]

pub timer_fires-Evolves : (id : ℕ) (m : Manager) → Evolves m (timer_fires id m)
unfolding timer_fires
timer_fires-Evolves id m = elim (Option-cases (find (λ (t : Timer). t.id == id) m.timers)) [
  | inl cleared ↦ Evolves-same m (timer_fires id m) (ground arith) (ground arith)
  | inr (t, armed) ↦ elim (Option-cases (get_elem? m.heap t.job)) [
    | inl gone ↦ Evolves-same m (timer_fires id m) (ground arith) (ground arith)
    | inr (st, at) ↦
        Evolves-set m (timer_fires id m) t.job st
          (record st { approval_timers = Map.remove st.approval_timers t.request_id }) at
          (ground arith) (ground arith) (ground arith)
  ]
]
