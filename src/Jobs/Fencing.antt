-- ===== src/Jobs/Fencing.antt =====
-- The local fence of src/jobs/manager.ts: what a revoked or abandoned job may still do.
use hugin_agent.Prelude.{
  ℕ, ◌≡◌, refl, ◌∙◌, true, none, some, List, [], ◌∷◌, get_elem?, get_elem?-set_self, get_elem?-lt,
  arith,
}
use hugin_agent.Conn.Outbound.{EngineEvent}
use hugin_agent.Store.{delete_attempt}
use hugin_agent.Jobs.Types.{EngineOutcome, ApprovalRequest, JobState, LeaseRevoke}
use hugin_agent.Jobs.Manager.{
  Env, Manager, cancels, registered, registered-parts, live_lease_ok, lease_ok,
}
use hugin_agent.Jobs.Callbacks.{final_manager, on_event, on_done, on_approval_request}
use hugin_agent.Jobs.Inbound.{handle_revoke}

-- A callback of an engine run.
pub data Callback : Type 0 where
  event : EngineEvent → Callback
  done : EngineOutcome → Callback
  approval : ApprovalRequest → Callback

-- The callbacks of the run that belongs to the job `ref`, each at its time.
pub calls_back : Env → ℕ → List (ℕ × Callback) → Manager → Manager
calls_back env ref [] m = m
calls_back env ref ((now, event ev) ∷ cs) m =
    calls_back env ref cs (final_manager (on_event env ref ev m))
calls_back env ref ((now, done outcome) ∷ cs) m =
    calls_back env ref cs (on_done env now ref outcome m)
calls_back env ref ((now, approval req) ∷ cs) m =
    calls_back env ref cs (on_approval_request env ref req m)

-- The job exists and is fenced.
abbrev IsFenced : Manager → ℕ → Type 0
IsFenced m ref = (st : JobState) × (get_elem? m.heap ref ≡ some st) × (st.fenced ≡ true)

IsFenced-event :
    (env : Env) (ref : ℕ) (ev : EngineEvent) (m : Manager)
    → IsFenced m ref
    → final_manager (on_event env ref ev m) ≡ m
unfolding on_event
IsFenced-event env ref ev m (st, at, f) = ground arith

IsFenced-approval :
    (env : Env) (ref : ℕ) (req : ApprovalRequest) (m : Manager)
    → IsFenced m ref
    → on_approval_request env ref req m ≡ m
unfolding on_approval_request
IsFenced-approval env ref req m (st, at, f) = ground arith

IsFenced-done :
    (env : Env) (now ref : ℕ) (outcome : EngineOutcome) (m : Manager)
    → IsFenced m ref
    → let m' = on_done env now ref outcome m in
      (m'.trace ≡ m.trace) × (m'.store ≡ m.store) × IsFenced m' ref
unfolding on_done
IsFenced-done env now ref outcome m (st, at, f) = (
  ground arith,
  ground arith,
  (
    record st { run = none; approval_timers = [] },
    ground (
      arith,
      get_elem?-set_self m.heap ref (record st { run = none; approval_timers = [] })
          (get_elem?-lt m.heap ref at),
    ),
    f,
  ),
)

calls_back_silent :
    (env : Env) (ref : ℕ) (cs : List (ℕ × Callback)) (m : Manager)
    → IsFenced m ref
    → ((calls_back env ref cs m).trace ≡ m.trace) × ((calls_back env ref cs m).store ≡ m.store)
unfolding calls_back
calls_back_silent env ref [] m f = (refl, refl)
calls_back_silent env ref ((now, event ev) ∷ cs) m f =
    rw (calls_back, IsFenced-event env ref ev m f) (calls_back_silent env ref cs m f)
calls_back_silent env ref ((now, done outcome) ∷ cs) m f =
    let (t, s, f') = IsFenced-done env now ref outcome m f in
    let (t', s') = calls_back_silent env ref cs (on_done env now ref outcome m) f' in
    (t' ∙ t, s' ∙ s)
calls_back_silent env ref ((now, approval req) ∷ cs) m f =
    rw (calls_back, IsFenced-approval env ref req m f) (calls_back_silent env ref cs m f)

-- What a revocation itself does: the run is told to stop, and the attempt is gone from the store.
revoked :
    (now : ℕ) (msg : LeaseRevoke) (m : Manager) (ref : ℕ) (st : JobState)
    → registered m msg.attempt_id ≡ some (ref, st)
    → live_lease_ok now st msg.lease_id ≡ true
    → let m' = handle_revoke now msg m in
      (m'.trace ≡ elim st.run [ none ↦ m.trace | some h ↦ cancels h 0 ∷ m.trace ])
      × (m'.store ≡ delete_attempt m.store msg.attempt_id)
      × IsFenced m' ref
unfolding handle_revoke lease_ok
revoked now msg m ref st reg ok = (
  ground arith,
  ground arith,
  (
    record st { fenced = true; approval_timers = [] },
    ground (
      arith,
      get_elem?-set_self m.heap ref (record st { fenced = true; approval_timers = [] })
          (get_elem?-lt m.heap ref (registered-parts m msg.attempt_id reg).1),
    ),
    refl,
  ),
)

-- A lease that is revoked under an accepted lease stays silent: whatever the engine of that job calls
-- back afterwards, nothing is sent or stored on the revoked lease; the only trace is the cancellation
-- of the run, and the attempt is gone from the durable store.
pub handle_revoke_silences :
    (env : Env) (now : ℕ) (msg : LeaseRevoke) (cs : List (ℕ × Callback)) (m : Manager) (ref : ℕ)
    (st : JobState)
    → registered m msg.attempt_id ≡ some (ref, st)
    → live_lease_ok now st msg.lease_id ≡ true
    → let m' = calls_back env ref cs (handle_revoke now msg m) in
      (m'.trace ≡ elim st.run [ none ↦ m.trace | some h ↦ cancels h 0 ∷ m.trace ])
      × (m'.store ≡ delete_attempt m.store msg.attempt_id)
handle_revoke_silences env now msg cs m ref st reg ok =
    let (t, s, f) = revoked now msg m ref st reg ok in
    let (t', s') = calls_back_silent env ref cs (handle_revoke now msg m) f in (t' ∙ t, s' ∙ s)
