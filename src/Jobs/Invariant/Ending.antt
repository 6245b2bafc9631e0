-- ===== src/Jobs/Invariant/Ending.antt =====
-- The end of a run and the directives of a resumption (src/jobs/manager.ts) keep the jobs and only
-- shrink the registry.
use hugin_agent.Prelude.{
  ℕ, ◌≡◌, inl, inr, refl, sym, ◌∙◌, String, Bool, true, false, Option, none, some, List, [], ◌∷◌,
  if◌then◌else◌, get_elem?, get_elem?-set_self, get_elem?-lt, Bool-cases, Option-cases, str_eq, ◌-◌,
  or_else, arith,
}
use mathlib.Core.Path.{subst}
use hugin_agent.Prelude.Map
use hugin_agent.Conn.Outbound.{Message}
use hugin_agent.Store.{events_after}
use hugin_agent.Jobs.Types.{
  JobState, EngineOutcome, ResumeDirective, ResumeAction, resume_from, resend_result, ack_pending,
  abandon,
}
use hugin_agent.Jobs.Manager.{
  Env, Manager, registered, registered-parts, send, unregister, forget_start, clear_approvals,
  rotated, adopt_lease,
}
use hugin_agent.Jobs.Callbacks.{is_current, end_status_of, finish_job, on_done}
use hugin_agent.Jobs.Inbound.{fence}
use hugin_agent.Jobs.Resume.{
  restamp_directive, adopt_directive, resend, resend_stored, apply_action, apply_resume,
}
use hugin_agent.Jobs.Invariant.Handlers.{fence_drop-Evolves}
use hugin_agent.Jobs.Invariant.Evolution.{
  Evolves, Evolves-same, Evolves-trans, Evolves-set, Evolves-drop,
}

finish_job-Evolves :
    (env : Env) (ref : ℕ) (st here : JobState) (outcome : EngineOutcome) (duration : ℕ)
    (m : Manager)
    → get_elem? m.heap ref ≡ some here
    → here.attempt_id ≡ st.attempt_id
    → here.fenced ≡ st.fenced
    → here.seq ≡ st.seq
    → Evolves m (finish_job env ref st outcome duration m)
unfolding finish_job
finish_job-Evolves env ref st here outcome duration m at same fence count =
    Evolves-set m (finish_job env ref st outcome duration m) ref here
      (record st { run = none; approval_timers = []; status = end_status_of outcome }) at
      (record {
        same_attempt = sym same;
        stays_fenced = λ f. sym fence ∙ f;
        seq_le = omega (arith, count);
      })
      refl refl

-- What `onDone` does before it frees the slot.
abbrev ended : Env → ℕ → JobState → EngineOutcome → ℕ → Manager → Manager
ended env ref st outcome duration cleared =
    if st.fenced then cleared else finish_job env ref st outcome duration cleared

ended-Evolves :
    (env : Env) (ref : ℕ) (st : JobState) (outcome : EngineOutcome) (duration : ℕ) (m : Manager)
    → get_elem? m.heap ref ≡ some (record st { run = none; approval_timers = [] })
    → Evolves m (ended env ref st outcome duration m)
ended-Evolves env ref st outcome duration m at = elim (Bool-cases st.fenced) [
  | inl fenced ↦ Evolves-same m (ended env ref st outcome duration m) (ground arith) (ground arith)
  | inr live ↦
      subst (λ x. Evolves m x)
        (let e : finish_job env ref st outcome duration m ≡ ended env ref st outcome duration m =
            ground arith in
          e)
        (finish_job-Evolves env ref st (record st { run = none; approval_timers = [] }) outcome
          duration m at refl refl refl)
]

freed-Evolves :
    (id : String) (free : Bool) (m : Manager) → Evolves m (if free then unregister id m else m)
unfolding unregister
freed-Evolves id true m = Evolves-drop m (unregister id m) id refl refl
freed-Evolves id false m = Evolves-same m m refl refl

pub on_done-Evolves :
    (env : Env) (now ref : ℕ) (outcome : EngineOutcome) (m : Manager)
    → Evolves m (on_done env now ref outcome m)
unfolding on_done
on_done-Evolves env now ref outcome m = elim (Option-cases (get_elem? m.heap ref)) [
  | inl gone ↦ Evolves-same m (on_done env now ref outcome m) (ground arith) (ground arith)
  | inr (st, at) ↦
      let current = is_current m ref st.attempt_id in
      let forgot = if current then forget_start st.attempt_id m else m in
      let cleared = clear_approvals ref (record st { run = none }) forgot in
      let duration = now - or_else (Map.get m.started_at st.attempt_id) now in
      let finished = ended env ref st outcome duration cleared in
      subst (λ x. Evolves m x)
        (let e : (if current then unregister st.attempt_id finished else finished)
              ≡ on_done env now ref outcome m =
            ground arith in
          e)
        (Evolves-trans m cleared (if current then unregister st.attempt_id finished else finished)
          (Evolves-set m cleared ref st (record st { run = none; approval_timers = [] }) at
            (ground arith) (ground arith) (ground arith))
          (Evolves-trans cleared finished
            (if current then unregister st.attempt_id finished else finished)
            (ended-Evolves env ref st outcome duration cleared (
              ground (
                arith,
                get_elem?-set_self m.heap ref (record st { run = none; approval_timers = [] })
                    (get_elem?-lt m.heap ref at),
              )))
            (freed-Evolves st.attempt_id current finished)))
]

adopt_lease-Evolves :
    (now : ℕ) (id lease : String) (m : Manager) → Evolves m (adopt_lease now id lease m)
unfolding adopt_lease
adopt_lease-Evolves now id lease m = elim (Option-cases (registered m id)) [
  | inl gone ↦ Evolves-same m (adopt_lease now id lease m) (ground arith) (ground arith)
  | inr ((ref, st), reg) ↦ elim (Bool-cases (str_eq st.lease_id lease)) [
    | inl same ↦ Evolves-same m (adopt_lease now id lease m) (ground arith) (ground arith)
    | inr new ↦
        Evolves-set m (adopt_lease now id lease m) ref st (rotated now lease st)
          (registered-parts m id reg).1 (unfold rotated in ground arith) (ground arith)
          (ground arith)
  ]
]

adopt_directive-Evolves :
    (now : ℕ) (id : String) (lease : Option String) (m : Manager)
    → Evolves m (adopt_directive now id lease m)
unfolding adopt_directive
adopt_directive-Evolves now id none m = Evolves-same m m refl refl
adopt_directive-Evolves now id (some lease) m = adopt_lease-Evolves now id lease m

resend-Evolves :
    (lease : Option String) (ps : List Message) (m : Manager) → Evolves m (resend lease ps m)
unfolding resend
resend-Evolves lease [] m = Evolves-same m m refl refl
resend-Evolves lease (p ∷ ps) m =
    let sent = send (restamp_directive lease p) m in
    Evolves-trans m sent (resend lease ps sent) (Evolves-same m sent refl refl)
      (resend-Evolves lease ps sent)

resend_stored-Evolves :
    (env : Env) (id : String) (lease : Option String) (m : Manager)
    → Evolves m (resend_stored env id lease m)
unfolding resend_stored
resend_stored-Evolves env id lease m =
    Evolves-same m (resend_stored env id lease m) (ground arith) (ground arith)

apply_action-Evolves :
    (env : Env) (now : ℕ) (action : ResumeAction) (d : ResumeDirective) (m : Manager)
    → Evolves m (apply_action env now action d m)
unfolding apply_action
apply_action-Evolves env now resume_from d m =
    let m' = adopt_directive now d.attempt_id d.lease_id m in
    Evolves-trans m m' _ (adopt_directive-Evolves now d.attempt_id d.lease_id m) (
      resend-Evolves d.lease_id (events_after m'.store d.attempt_id (or_else d.resume_after_seq 0))
        m')
apply_action-Evolves env now resend_result d m =
    let m' = adopt_directive now d.attempt_id d.lease_id m in
    Evolves-trans m m' _ (adopt_directive-Evolves now d.attempt_id d.lease_id m)
      (resend_stored-Evolves env d.attempt_id d.lease_id m')
apply_action-Evolves env now ack_pending d m =
    Evolves-drop m (apply_action env now ack_pending d m) d.attempt_id refl refl
apply_action-Evolves env now abandon d m = elim (Option-cases (registered m d.attempt_id)) [
  | inl gone ↦ Evolves-same m (apply_action env now abandon d m) (ground arith) (ground arith)
  | inr ((ref, st), reg) ↦
      fence_drop-Evolves ref st m (apply_action env now abandon d m) d.attempt_id
        (registered-parts m d.attempt_id reg).1 (ground arith) (ground arith)
]

pub apply_resume-Evolves :
    (env : Env) (now : ℕ) (ds : List ResumeDirective) (m : Manager)
    → Evolves m (apply_resume env now ds m)
unfolding apply_resume
apply_resume-Evolves env now [] m = Evolves-same m m refl refl
apply_resume-Evolves env now (d ∷ ds) m =
    let m' = apply_action env now d.action d m in
    Evolves-trans m m' (apply_resume env now ds m') (apply_action-Evolves env now d.action d m)
      (apply_resume-Evolves env now ds m')
