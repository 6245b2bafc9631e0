-- ===== src/Jobs/Admission.antt =====
-- What `handleAssign` of src/jobs/manager.ts admits, and how often.
use hugin_agent.Prelude.{
  ℕ, suc, ◌+◌, ◌≤◌, ◌≡◌, refl, sym, ap, ◌∙◌, ◌⊎◌, inl, inr, String, true, false, not, ◌||◌, none,
  some, List, [], ◌∷◌, str_eq_refl, length, get_elem?-append_length, Option-cases, arith,
}
use hugin_agent.Prelude.Map
use hugin_agent.Jobs.Types.{JobAssign, read_only, never}
use hugin_agent.Jobs.Registry
use hugin_agent.Jobs.Manager.{Env, Manager, registered}
use hugin_agent.Jobs.Assign.{existing, needs_gate, spec_of, initial_state, start_job, handle_assign}

existing-start_job :
    (env : Env) (now : ℕ) (run_id : String) (msg : JobAssign) (m : Manager)
    → existing (start_job env now run_id msg m) msg.attempt_id ≡ some (msg.lease_id, run_id)
unfolding existing start_job registered Registry.get
existing-start_job env now run_id msg m = ground (
  arith,
  Map.get-set m.registry.jobs msg.attempt_id msg.attempt_id (length m.heap),
  str_eq_refl msg.attempt_id,
  get_elem?-append_length m.heap (record (initial_state msg run_id) {
    status = hugin_agent.Conn.Outbound.running;
    run = some m.run_count;
  }),
)

-- An engine run is started by an assignment exactly when the attempt is unknown to the registry and
-- the store, a slot is free, the engine's validation passes, and the gate is usable or not needed.
pub handle_assign-starts_iff :
    (env : Env) (now : ℕ) (run_id : String) (msg : JobAssign) (m : Manager)
    → ((handle_assign env now run_id msg m).run_count ≡ suc m.run_count
        → (existing m msg.attempt_id ≡ none)
          × (Registry.at_capacity m.registry ≡ false)
          × (env.validate (spec_of msg) ≡ none)
          × ((env.gate_available ≡ true)
              ⊎ ((msg.sandbox ≡ read_only) × (msg.approval_policy ≡ never))))
      × (existing m msg.attempt_id ≡ none
          → Registry.at_capacity m.registry ≡ false
          → env.validate (spec_of msg) ≡ none
          → env.gate_available || not (needs_gate msg.sandbox msg.approval_policy) ≡ true
          → (handle_assign env now run_id msg m).run_count ≡ suc m.run_count)
unfolding handle_assign start_job
handle_assign-starts_iff env now run_id msg m = (ground arith, ground arith)

-- Deliveries of assignments, one after another.
pub deliver : Env → List (ℕ × String × JobAssign) → Manager → Manager
deliver env [] m = m
deliver env ((now, run_id, msg) ∷ ds) m = deliver env ds (handle_assign env now run_id msg m)

-- Every delivery is for the attempt `id`.
abbrev AllFor : String → List (ℕ × String × JobAssign) → Type 0
AllFor id [] = Unit
AllFor id ((now, run_id, msg) ∷ ds) = (msg.attempt_id ≡ id) × AllFor id ds

-- What an assignment leaves alone when it starts nothing.
pub record Unstarted (m m' : Manager) : Type 0 where
  pub runs_kept : m'.run_count ≡ m.run_count
  pub store_kept : m'.store ≡ m.store
  pub registry_kept : m'.registry ≡ m.registry
  pub heap_kept : m'.heap ≡ m.heap

pub known-Unstarted :
    (env : Env) (now : ℕ) (run_id : String) (msg : JobAssign) (m : Manager) (v : String × String)
    → existing m msg.attempt_id ≡ some v
    → Unstarted m (handle_assign env now run_id msg m)
unfolding handle_assign
known-Unstarted env now run_id msg m v h = ground arith

pub assign_cases :
    (env : Env) (now : ℕ) (run_id : String) (msg : JobAssign) (m : Manager)
    → existing m msg.attempt_id ≡ none
    → ((handle_assign env now run_id msg m ≡ start_job env now run_id msg m)
        × (Registry.at_capacity m.registry ≡ false))
      ⊎ Unstarted m (handle_assign env now run_id msg m)
unfolding handle_assign
assign_cases env now run_id msg m h = ground arith

existing-Unstarted :
    (m m' : Manager) (id : String) → Unstarted m m' → existing m' id ≡ existing m id
unfolding existing registered
existing-Unstarted m m' id u = rw (u.store_kept, u.registry_kept, u.heap_kept)

deliver_known :
    (env : Env) (ds : List (ℕ × String × JobAssign)) (id : String) (m : Manager)
    (v : String × String)
    → AllFor id ds
    → existing m id ≡ some v
    → ((deliver env ds m).run_count ≡ m.run_count) × ((deliver env ds m).store ≡ m.store)
unfolding deliver
deliver_known env [] id m v all h = (refl, refl)
deliver_known env ((now, run_id, msg) ∷ ds) id m v (e, all) h =
    let m' = handle_assign env now run_id msg m in
    let u = known-Unstarted env now run_id msg m v (ap (existing m) e ∙ h) in
    let rest = deliver_known env ds id m' v all (existing-Unstarted m m' id u ∙ h) in
    (rest.0 ∙ u.runs_kept, rest.1 ∙ u.store_kept)

deliver_once :
    (env : Env) (ds : List (ℕ × String × JobAssign)) (id : String) (m : Manager)
    → AllFor id ds
    → (deliver env ds m).run_count ≤ m.run_count + 1
unfolding deliver start_job
deliver_once env [] id m all = omega arith
deliver_once env ((now, run_id, msg) ∷ ds) id m (e, all) =
    elim (Option-cases (existing m msg.attempt_id)) [
      | inr (v, h) ↦ omega (
        arith,
        (deliver_known env ((now, run_id, msg) ∷ ds) id m v (e, all)
            (ap (existing m) (sym e) ∙ h)).0,
      )
      | inl h ↦ elim (assign_cases env now run_id msg m h) [
        | inr u ↦ omega (arith, u.runs_kept, deliver_once env ds id m' all)
        | inl (started, free) ↦ omega (
          arith,
          ap (λ (x : Manager). x.run_count) started,
          (deliver_known env ds id m' (msg.lease_id, run_id) all
              (ap (existing m') (sym e)
                ∙ ap (λ (x : Manager). existing x msg.attempt_id) started
                ∙ existing-start_job env now run_id msg m)).0,
        )
      ]
    ]
  where
    m' : Manager
    m' = handle_assign env now run_id msg m

-- However often the assignment of one attempt is delivered, and under whatever leases and run ids,
-- the engine runs at most once for it, and once the attempt is known no delivery changes the store.
pub deliver_idempotent :
    (env : Env) (ds : List (ℕ × String × JobAssign)) (id : String) (m : Manager)
    → AllFor id ds
    → ((deliver env ds m).run_count ≤ m.run_count + 1)
      × ((v : String × String) → existing m id ≡ some v → (deliver env ds m).store ≡ m.store)
deliver_idempotent env ds id m all =
    (deliver_once env ds id m all, λ v h. (deliver_known env ds id m v all h).1)
