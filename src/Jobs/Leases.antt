-- ===== src/Jobs/Leases.antt =====
-- Lease acceptance and rotation of src/jobs/manager.ts (`leaseOk`, `handleLeaseGranted`).
use hugin_agent.Prelude.{
  ℕ, ◌+◌, ◌<◌, ◌≡◌, ◌≢◌, refl, String, true, false, some, ltb, str_eq_refl, str_eq_ne,
  get_elem?-set_self, get_elem?-lt, arith,
}
use hugin_agent.Store.{get_attempt, set_attempt_lease, of_attempt}
use hugin_agent.Store.Rows.{AttemptRow, find-modify, find-test}
use hugin_agent.Jobs.Types.{JobState, LeaseGranted}
use hugin_agent.Jobs.Manager.{
  Manager, registered, registered-parts, lease_ok, lease_rotation_overlap_ms, rotated,
}
use hugin_agent.Jobs.Inbound.{handle_lease_granted}

registered-granted :
    (now : ℕ) (msg : LeaseGranted) (m : Manager) (ref : ℕ) (st : JobState)
    → registered m msg.attempt_id ≡ some (ref, st)
    → registered (handle_lease_granted now msg m) msg.attempt_id
      ≡ some (ref, rotated now msg.lease_id st)
unfolding handle_lease_granted registered
registered-granted now msg m ref st reg = ground (
  arith,
  reg,
  registered-parts m msg.attempt_id reg,
  get_elem?-set_self m.heap ref (rotated now msg.lease_id st)
      (get_elem?-lt m.heap ref (registered-parts m msg.attempt_id reg).1),
)

durable_lease :
    (now : ℕ) (msg : LeaseGranted) (m : Manager) (ref : ℕ) (st : JobState)
    → registered m msg.attempt_id ≡ some (ref, st)
    → (a : AttemptRow) → get_attempt m.store msg.attempt_id ≡ some a
    → get_attempt (handle_lease_granted now msg m).store msg.attempt_id
      ≡ some (record a { lease_id = msg.lease_id })
unfolding handle_lease_granted get_attempt set_attempt_lease
durable_lease now msg m ref st reg a h = ground (
  arith,
  reg,
  h,
  find-modify (of_attempt msg.attempt_id) (of_attempt msg.attempt_id)
      (λ a. record a { lease_id = msg.lease_id }) m.store.attempts (λ a. refl),
  find-test (of_attempt msg.attempt_id) m.store.attempts h,
)

-- After a rotation from one lease to another the new lease is accepted at any time, the old one
-- exactly while the overlap of five seconds lasts, and no third lease ever; the durable row, where
-- there is one, carries the new lease.
pub handle_lease_granted_rotates :
    (now : ℕ) (msg : LeaseGranted) (m : Manager) (ref : ℕ) (st : JobState) (later : ℕ)
    → registered m msg.attempt_id ≡ some (ref, st)
    → st.lease_id ≢ msg.lease_id
    → let m' = handle_lease_granted now msg m in
      let ok =
        λ (lease : String). lease_ok later m' (registered m' msg.attempt_id) msg.attempt_id lease in
      (ok msg.lease_id ≡ true)
      × (ok st.lease_id ≡ ltb later (now + lease_rotation_overlap_ms))
      × ((lease : String) → lease ≢ msg.lease_id → lease ≢ st.lease_id → ok lease ≡ false)
      × ((a : AttemptRow)
          → get_attempt m.store msg.attempt_id ≡ some a
          → get_attempt m'.store msg.attempt_id ≡ some (record a { lease_id = msg.lease_id }))
unfolding lease_ok rotated
handle_lease_granted_rotates now msg m ref st later reg ne = (
  ground (arith, granted, str_eq_refl msg.lease_id),
  ground (arith, granted, str_eq_refl st.lease_id, str_eq_ne st.lease_id msg.lease_id ne),
  λ lease a b.
      ground (arith, granted, str_eq_ne lease msg.lease_id a, str_eq_ne lease st.lease_id b),
  λ a h. durable_lease now msg m ref st reg a h,
)
  where
    granted :
        registered (handle_lease_granted now msg m) msg.attempt_id
        ≡ some (ref, rotated now msg.lease_id st)
    granted = registered-granted now msg m ref st reg

-- A second delivery of the same `lease.granted` takes the overlap away: the lease that was replaced
-- is refused from then on, also within the five seconds in which it was to be accepted.
pub duplicate_grant_refuses_old :
    (now again later : ℕ) (msg : LeaseGranted) (m : Manager) (ref : ℕ) (st : JobState)
    → registered m msg.attempt_id ≡ some (ref, st)
    → st.lease_id ≢ msg.lease_id
    → let once = handle_lease_granted now msg m in
      let twice = handle_lease_granted again msg once in
      (later < now + lease_rotation_overlap_ms
        → lease_ok later once (registered once msg.attempt_id) msg.attempt_id st.lease_id ≡ true)
      × (lease_ok later twice (registered twice msg.attempt_id) msg.attempt_id st.lease_id ≡ false)
unfolding lease_ok rotated
duplicate_grant_refuses_old now again later msg m ref st reg ne = (
  λ soon. ground (arith, granted, str_eq_refl st.lease_id),
  ground (arith, regranted, str_eq_ne st.lease_id msg.lease_id ne),
)
  where
    granted :
        registered (handle_lease_granted now msg m) msg.attempt_id
        ≡ some (ref, rotated now msg.lease_id st)
    granted = registered-granted now msg m ref st reg

    regranted :
        registered (handle_lease_granted again msg (handle_lease_granted now msg m)) msg.attempt_id
        ≡ some (ref, rotated again msg.lease_id (rotated now msg.lease_id st))
    regranted =
        registered-granted again msg (handle_lease_granted now msg m) ref
          (rotated now msg.lease_id st) granted
