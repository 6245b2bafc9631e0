-- ===== src/Jobs/Invariant.antt =====
-- What holds of the job manager (src/jobs/manager.ts) between any two steps.
pub mod Evolution
pub mod Handlers
pub mod Ending
use hugin_agent.Prelude.{
  ℕ, suc, ◌+◌, ◌≤◌, ◌<◌, ◌≡◌, ◌⊎◌, inl, inr, refl, sym, ap, ◌∙◌, String, Bool, true, false, Option,
  none, some, List, [], ◌∷◌, ◌++◌, leb, str_eq, if◌then◌else◌, length, get_elem?,
  get_elem?-append_lt, get_elem?-append_length, get_elem?-lt, Bool-cases, Option-cases, arith,
  eq_iff,
}
use mathlib.Core.Path.{subst}
use hugin_agent.Prelude.Map
use hugin_agent.Conn.Outbound.{running}
use hugin_agent.Jobs.Types.{JobState, JobAssign}
use hugin_agent.Jobs.Registry
use hugin_agent.Jobs.Registry.{Registry}
use hugin_agent.Jobs.Manager.{Env, Manager, registered}
use hugin_agent.Jobs.Assign.{existing, initial_state, start_job, handle_assign}
use hugin_agent.Jobs.Admission.{Unstarted, known-Unstarted, assign_cases}
use hugin_agent.Jobs.Step.{Input, step, run}
use Evolution.{Keeps, KeepsJobs, KeepsJobs-trans, Keeps-refl, Evolves, Evolves-same}
use Handlers.{
  handle_stream_ack-Evolves, handle_result_ack-Evolves, handle_cancel-Evolves,
  handle_lease_granted-Evolves, handle_approval_response-Evolves, handle_revoke-Evolves,
  on_event-Evolves, on_approval_request-Evolves, timer_fires-Evolves,
}
use Ending.{on_done-Evolves, apply_resume-Evolves}

-- The registry names jobs on the heap under their own attempt ids, and holds at most as many as the
-- configuration allows.
pub record WellFormed (m : Manager) : Type 0 where
  pub keyed :
      (id : String) (ref : ℕ)
      → Registry.get m.registry id ≡ some ref
      → (st : JobState) × (get_elem? m.heap ref ≡ some st) × (st.attempt_id ≡ id)
  pub within : Registry.size m.registry ≤ m.registry.max_concurrent

Evolves-WellFormed : (m m' : Manager) → Evolves m m' → WellFormed m → WellFormed m'
Evolves-WellFormed m m' e w = record {
  keyed = λ id ref h.
      (let (st, at, same) = w.keyed id ref (e.subset id ref h) in
        let (st', at', k) = e.jobs ref st at in (st', at', k.same_attempt ∙ same));
  within = omega (arith, e.size_le, e.max_kept, w.within);
}

-- The job that an admission puts on the heap.
abbrev started_state : JobAssign → String → ℕ → JobState
started_state msg run_id handle = record (initial_state msg run_id) {
  status = running;
  run = some handle;
}

start_job-WellFormed :
    (env : Env) (now : ℕ) (run_id : String) (msg : JobAssign) (m : Manager)
    → Registry.at_capacity m.registry ≡ false
    → WellFormed m
    → WellFormed (start_job env now run_id msg m)
unfolding start_job Registry.get Registry.add Registry.size Registry.at_capacity
start_job-WellFormed env now run_id msg m free w = record {
  keyed = λ id ref h. elim (Bool-cases (str_eq msg.attempt_id id)) [
    | inl new ↦ (
      started_state msg run_id m.run_count,
      ground (
        arith,
        Map.get-set m.registry.jobs msg.attempt_id id (length m.heap),
        get_elem?-append_length m.heap (started_state msg run_id m.run_count),
      ),
      (eq_iff msg.attempt_id id).0 new,
    )
    | inr old ↦
        let (st, at, same) =
          w.keyed id ref
            (ground (arith, Map.get-set m.registry.jobs msg.attempt_id id (length m.heap))) in
        (
          st,
          get_elem?-append_lt m.heap (started_state msg run_id m.run_count ∷ []) ref
                (get_elem?-lt m.heap ref at)
              ∙ at,
          same,
        )
  ];
  within = ground (arith, Map.size-set-le m.registry.jobs msg.attempt_id (length m.heap));
}

Unstarted-Evolves : (m m' : Manager) → Unstarted m m' → Evolves m m'
Unstarted-Evolves m m' u = Evolves-same m m' u.registry_kept u.heap_kept

handle_assign-WellFormed :
    (env : Env) (now : ℕ) (run_id : String) (msg : JobAssign) (m : Manager)
    → WellFormed m
    → WellFormed (handle_assign env now run_id msg m)
handle_assign-WellFormed env now run_id msg m w = elim (Option-cases (existing m msg.attempt_id)) [
  | inr (v, h) ↦
      Evolves-WellFormed m m' (Unstarted-Evolves m m' (known-Unstarted env now run_id msg m v h)) w
  | inl h ↦ elim (assign_cases env now run_id msg m h) [
    | inr u ↦ Evolves-WellFormed m m' (Unstarted-Evolves m m' u) w
    | inl (started, free) ↦
        subst WellFormed (sym started) (start_job-WellFormed env now run_id msg m free w)
  ]
]
  where
    m' : Manager
    m' = handle_assign env now run_id msg m

handle_assign-KeepsJobs :
    (env : Env) (now : ℕ) (run_id : String) (msg : JobAssign) (m : Manager)
    → KeepsJobs m.heap (handle_assign env now run_id msg m).heap
unfolding start_job
handle_assign-KeepsJobs env now run_id msg m = elim (Option-cases (existing m msg.attempt_id)) [
  | inr (v, h) ↦ (Unstarted-Evolves m m' (known-Unstarted env now run_id msg m v h)).jobs
  | inl h ↦ elim (assign_cases env now run_id msg m h) [
    | inr u ↦ (Unstarted-Evolves m m' u).jobs
    | inl (started, free) ↦
        subst (λ (x : Manager). KeepsJobs m.heap x.heap) (sym started)
          λ ref st at. (
            st,
            get_elem?-append_lt m.heap (started_state msg run_id m.run_count ∷ []) ref
                  (get_elem?-lt m.heap ref at)
                ∙ at,
            Keeps-refl st,
          )
  ]
]
  where
    m' : Manager
    m' = handle_assign env now run_id msg m

-- Every step but an assignment.
step-Evolves :
    (env : Env) (now : ℕ) (i : Input) (m : Manager)
    → ((run_id : String) × (msg : JobAssign) × (i ≡ Input.job_assign run_id msg))
      ⊎ Evolves m (step env now i m)
unfolding step
step-Evolves env now (Input.job_assign run_id msg) m = inl (run_id, msg, refl)
step-Evolves env now (Input.stream_ack msg) m = inr (handle_stream_ack-Evolves env now msg m)
step-Evolves env now (Input.job_result_ack msg) m = inr (handle_result_ack-Evolves now msg m)
step-Evolves env now (Input.job_cancel msg) m = inr (handle_cancel-Evolves now msg m)
step-Evolves env now (Input.approval_response msg) m =
    inr (handle_approval_response-Evolves now msg m)
step-Evolves env now (Input.lease_revoke msg) m = inr (handle_revoke-Evolves now msg m)
step-Evolves env now (Input.lease_granted msg) m = inr (handle_lease_granted-Evolves now msg m)
step-Evolves env now (Input.resumes_from ds) m = inr (apply_resume-Evolves env now ds m)
step-Evolves env now (Input.event ref ev) m = inr (on_event-Evolves env ref ev m)
step-Evolves env now (Input.done ref outcome) m = inr (on_done-Evolves env now ref outcome m)
step-Evolves env now (Input.approval_request ref req) m =
    inr (on_approval_request-Evolves env ref req m)
step-Evolves env now (Input.timeout id) m = inr (timer_fires-Evolves id m)

step-WellFormed :
    (env : Env) (now : ℕ) (i : Input) (m : Manager) → WellFormed m → WellFormed (step env now i m)
unfolding step
step-WellFormed env now i m w = elim (step-Evolves env now i m) [
  | inr e ↦ Evolves-WellFormed m (step env now i m) e w
  | inl (run_id, msg, e) ↦
      subst (λ j. WellFormed (step env now j m)) (sym e)
        (handle_assign-WellFormed env now run_id msg m w)
]

-- Whatever arrives, from the relay, the engine or a timer, and in whatever order, the registry keeps
-- naming jobs under their own attempt ids and never holds more jobs than the configured maximum.
pub run-WellFormed :
    (env : Env) (is : List (ℕ × Input)) (m : Manager) → WellFormed m → WellFormed (run env is m)
unfolding run
run-WellFormed env [] m w = w
run-WellFormed env ((now, i) ∷ is) m w =
    run-WellFormed env is (step env now i m) (step-WellFormed env now i m w)

step-KeepsJobs :
    (env : Env) (now : ℕ) (i : Input) (m : Manager) → KeepsJobs m.heap (step env now i m).heap
unfolding step
step-KeepsJobs env now i m = elim (step-Evolves env now i m) [
  | inr e ↦ e.jobs
  | inl (run_id, msg, e) ↦
      subst (λ j. KeepsJobs m.heap (step env now j m).heap) (sym e)
        (handle_assign-KeepsJobs env now run_id msg m)
]

-- Along any run a job remains the same attempt, remains fenced once it is, and its sequence numbers
-- never go back.
run-KeepsJobs :
    (env : Env) (is : List (ℕ × Input)) (m : Manager) → KeepsJobs m.heap (run env is m).heap
unfolding run
run-KeepsJobs env [] m = λ ref st at. (st, at, Keeps-refl st)
run-KeepsJobs env ((now, i) ∷ is) m =
    let m' = step env now i m in
    KeepsJobs-trans m.heap m'.heap (run env is m').heap (step-KeepsJobs env now i m)
      (run-KeepsJobs env is m')
