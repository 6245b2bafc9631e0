-- ===== src/Tests/Jobs.antt =====
-- Runs of src/jobs/manager.ts.
use hugin_agent.Prelude.{
  List, ◌+◌, ◌<◌, ◌≤◌, ◌≡◌, ◌≢◌, refl, true, false, String, none, some, [], ◌∷◌, ltb, arith, not,
  eq_iff, ◌||◌, ◌⊎◌,
}
use hugin_agent.Prelude.Map
use hugin_agent.Store.{get_attempt, get_result, delete_attempt}
use hugin_agent.Store.Rows.{find, AttemptRow}
use hugin_agent.Store.Replay.{Below}
use hugin_agent.Jobs.Types.{read_only, never, deny}
use hugin_agent.Jobs.Registry
use hugin_agent.Jobs.Manager.{
  Manager, registered, lease_ok, live_lease_ok, lease_rotation_overlap_ms, cancels, sends, resolves,
}
use hugin_agent.Jobs.Assign.{handle_assign, existing, spec_of, needs_gate}
use hugin_agent.Jobs.Callbacks.{returned, on_event, on_approval_request, timer_fires}
use hugin_agent.Jobs.Inbound.{
  handle_result_ack, handle_approval_response, handle_lease_granted, handle_revoke,
}
use hugin_agent.Jobs.Resume.{apply_action}
use hugin_agent.Jobs.Step.{Input, run}
use hugin_agent.Conn.Outbound.{restamp}
use hugin_agent.Jobs.Admission.{handle_assign-starts_iff, deliver, deliver_idempotent}
use hugin_agent.Jobs.Fencing.{Callback, calls_back, handle_revoke_silences}
use hugin_agent.Jobs.Leases.{handle_lease_granted_rotates, duplicate_grant_refuses_old}
use hugin_agent.Jobs.Delivery.{Emitted, on_event_emits}
use hugin_agent.Jobs.Stranded.{Alone, ack_all, resumed, lifted_cap_leaves_paused}
use hugin_agent.Jobs.Replay.{restamped_ack, resend_result_then_ack_collects}
use hugin_agent.Jobs.Approvals.{Settling, responds, runs_out, settle_all, approval_settled_once}
use hugin_agent.Jobs.Invariant.{WellFormed, run-WellFormed}
use hugin_agent.Tests.Fixtures.{
  env, store, job_a, job_d, two_jobs, idle, assign, ack_a, grant_a, revoke_a, ask, answer, resend_c,
  token, result_payload, result_c, row,
}

live_a : registered two_jobs "att-a" ≡ some (0, job_a)
unfolding registered Registry.get Map.get
live_a = refl

live_d : registered two_jobs "att-d" ≡ some (1, job_d)
unfolding registered Registry.get Map.get
live_d = refl

stored_a : get_attempt store "att-a" ≡ some (row "att-a" "lease-1" 2)
unfolding get_attempt find
stored_a = refl

store-Below : Below "att-a" 3 store.events
store-Below = (λ e. omega arith, (λ e. omega arith, (λ e. omega arith, tt)))

differ : job_a.lease_id ≢ grant_a.lease_id
differ = λ e. ground (arith, (eq_iff job_a.lease_id grant_a.lease_id).1 e)

handle_assign-starts_iff_example :
    ((handle_assign env 5 "run-9" assign idle).run_count ≡ 3
      → (existing idle "att-e" ≡ none)
        × (Registry.at_capacity idle.registry ≡ false)
        × (env.validate (spec_of assign) ≡ none)
        × ((false ≡ true) ⊎ ((read_only ≡ read_only) × (never ≡ never))))
    × (existing idle "att-e" ≡ none
        → Registry.at_capacity idle.registry ≡ false
        → env.validate (spec_of assign) ≡ none
        → env.gate_available || not (needs_gate read_only never) ≡ true
        → (handle_assign env 5 "run-9" assign idle).run_count ≡ 3)
handle_assign-starts_iff_example = handle_assign-starts_iff env 5 "run-9" assign idle

deliver_idempotent_example :
    ((deliver env ((1, "run-8", assign) ∷ (2, "run-9", assign) ∷ []) idle).run_count ≤ 3)
    × ((v : String × String)
        → existing idle "att-e" ≡ some v
        → (deliver env ((1, "run-8", assign) ∷ (2, "run-9", assign) ∷ []) idle).store ≡ idle.store)
deliver_idempotent_example =
    deliver_idempotent env ((1, "run-8", assign) ∷ (2, "run-9", assign) ∷ []) "att-e" idle
      (refl, (refl, tt))

handle_revoke_silences_example :
    let m' =
      calls_back env 0
        ((6, Callback.event token) ∷ (7, Callback.approval ask) ∷ [])
        (handle_revoke 5 revoke_a two_jobs) in
    (m'.trace ≡ cancels 0 0 ∷ []) × (m'.store ≡ delete_attempt store "att-a")
unfolding live_lease_ok
handle_revoke_silences_example =
    handle_revoke_silences env 5 revoke_a
      ((6, Callback.event token) ∷ (7, Callback.approval ask) ∷ []) two_jobs 0 job_a live_a refl

handle_lease_granted_rotates_example :
    let m' = handle_lease_granted 100 grant_a two_jobs in
    let ok = λ (lease : String). lease_ok 200 m' (registered m' "att-a") "att-a" lease in
    (ok "lease-9" ≡ true)
    × (ok "lease-1" ≡ ltb 200 (100 + lease_rotation_overlap_ms))
    × ((lease : String) → lease ≢ grant_a.lease_id → lease ≢ job_a.lease_id → ok lease ≡ false)
    × ((a : AttemptRow)
        → get_attempt store "att-a" ≡ some a
        → get_attempt m'.store "att-a" ≡ some (record a { lease_id = "lease-9" }))
handle_lease_granted_rotates_example =
    handle_lease_granted_rotates 100 grant_a two_jobs 0 job_a 200 live_a differ

duplicate_grant_refuses_old_example :
    let once = handle_lease_granted 100 grant_a two_jobs in
    let twice = handle_lease_granted 101 grant_a once in
    (200 < 100 + lease_rotation_overlap_ms
      → lease_ok 200 once (registered once "att-a") "att-a" "lease-1" ≡ true)
    × (lease_ok 200 twice (registered twice "att-a") "att-a" "lease-1" ≡ false)
duplicate_grant_refuses_old_example =
    duplicate_grant_refuses_old 100 101 200 grant_a two_jobs 0 job_a live_a differ

refused : lease_ok 5 two_jobs (registered two_jobs "att-a") "att-a" "lease-7" ≡ false
unfolding lease_ok live_lease_ok registered Registry.get Map.get
refused = refl

on_event_emits_example :
    (m' : Manager) × (on_event env 0 token two_jobs ≡ returned m')
    × Emitted env 0 job_a token two_jobs m'
on_event_emits_example = on_event_emits env 0 job_a token two_jobs refl refl store-Below

accepted : lease_ok 5 two_jobs (some (0, job_a)) "att-a" "lease-1" ≡ true
unfolding lease_ok live_lease_ok
accepted = refl

d-Alone : Alone 1 job_d 1 two_jobs
unfolding registered Registry.get Map.get
d-Alone = record {
  live = refl;
  others = λ id ref st ne e. ground (arith, e, ne, eq_iff "att-a" id, eq_iff "att-d" id);
}

lifted_cap_leaves_paused_example :
    let m' = ack_all env ((5, ack_a) ∷ (6, ack_a) ∷ []) two_jobs in
    (registered m' "att-d" ≡ some (1, job_d)) × (resumed 1 m'.trace ≡ resumed 1 two_jobs.trace)
lifted_cap_leaves_paused_example =
    lifted_cap_leaves_paused env ((5, ack_a) ∷ (6, ack_a) ∷ []) two_jobs 1 1 job_d
      (
        (λ e. ground (arith, eq_iff "att-a" "att-d", e)),
        ((λ e. ground (arith, eq_iff "att-a" "att-d", e)), tt),
      )
      d-Alone

not_live : registered two_jobs "att-c" ≡ none
unfolding registered Registry.get Map.get
not_live = refl

row_c : get_attempt store "att-c" ≡ some (row "att-c" "lease-3" 2)
unfolding get_attempt find
row_c = refl

result_of_c : get_result store "att-c" ≡ some result_c
unfolding get_result find
result_of_c = refl

resend_result_then_ack_collects_example :
    let m1 = apply_action env 5 resend_c.action resend_c two_jobs in
    let m2 = handle_result_ack 6 (restamped_ack env "att-c" "lease-8" result_payload) m1 in
    (m1.trace ≡ sends (restamp "lease-8" result_payload) ∷ [])
    × (get_result m2.store "att-c" ≡ none)
    × (get_attempt m2.store "att-c" ≡ none)
resend_result_then_ack_collects_example =
    resend_result_then_ack_collects env 5 6 resend_c two_jobs "lease-8" (row "att-c" "lease-3" 2)
      result_c not_live refl row_c result_of_c

-- A denial that is delivered twice, with the timer in between.
abbrev twice : List Settling
twice = responds 9 "lease-1" deny none ∷ runs_out ∷ responds 9 "lease-1" deny none ∷ []

approval_settled_once_example :
    let m1 = on_approval_request env 0 ask two_jobs in
    let responded = handle_approval_response 5 answer m1 in
    let expired = timer_fires 0 m1 in
    (live_lease_ok 5 job_a "lease-1" ≡ true
      → (responded.trace ≡ resolves 0 "req-1" answer.decision answer.reason ∷ m1.trace)
        × (settle_all "att-a" "req-1" 0 twice responded ≡ responded))
    × (expired.trace ≡ resolves 0 "req-1" deny (some "approval timeout") ∷ m1.trace)
    × (settle_all "att-a" "req-1" 0 twice expired ≡ expired)
approval_settled_once_example =
    approval_settled_once env 5 0 0 ask answer job_a two_jobs twice live_a refl refl refl refl

idle-WellFormed : WellFormed idle
unfolding Registry.get Map.get Registry.size
idle-WellFormed = record { keyed = λ id ref h. absurd (ground arith); within = omega arith }

run-WellFormed_example :
    WellFormed (run env ((1, Input.job_assign "run-9" assign) ∷ (2, Input.event 0 token) ∷ []) idle)
run-WellFormed_example =
    run-WellFormed env ((1, Input.job_assign "run-9" assign) ∷ (2, Input.event 0 token) ∷ []) idle
      idle-WellFormed
