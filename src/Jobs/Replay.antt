-- ===== src/Jobs/Replay.antt =====
-- Resumption after a reconnect: `applyResume` of src/jobs/manager.ts.
pub mod Events
use hugin_agent.Prelude.{
  ℕ, ◌≡◌, refl, sym, ap, ◌∙◌, String, true, Option, none, some, List, [], ◌∷◌, ◌++◌, map, or_else,
  arith, eq_iff,
}
use mathlib.Core.List.{reverse, reverse-cons, append_assoc}
use hugin_agent.Conn.Outbound.{Message, restamp}
use hugin_agent.Store.Rows.{AttemptRow, StoredResult, find-test, find-modify}
use hugin_agent.Store.{
  Store, of_attempt, events_after, get_attempt, get_result, set_attempt_lease, ack_result,
  delete_result,
}
use hugin_agent.Store.Results.{
  restamped, get_result-update_result, ack_result-matching, get_result-delete_result,
  get_attempt-update_result, get_result-delete_attempt,
}
use hugin_agent.Store.Attempts.{delete_attempt_lem}
use hugin_agent.Jobs.Types.{ResumeDirective, resume_from, resend_result, JobResultAck}
use hugin_agent.Jobs.Manager.{Env, Manager, sends, send, registered, lease_ok}
use hugin_agent.Jobs.Inbound.{handle_result_ack}
use hugin_agent.Jobs.Resume.{
  restamp_directive, resend, resend_stored, adopt_directive, apply_action,
}
use Events.{resend-trace, resend-store, adopt_directive_keeps, events_after-events}

-- The acknowledgement that a server sends for a re-stamped result.
abbrev pub restamped_ack : Env → String → String → Message → JobResultAck
restamped_ack env id lease payload = record {
  attempt_id = id;
  lease_id = lease;
  result_digest = env.result_digest (restamp lease payload);
}

-- The state of an attempt that is not live, as a resumption finds it.
record Dormant (id : String) (a : AttemptRow) (r : StoredResult) (m : Manager) : Type 0 where
  unregistered : registered m id ≡ none
  row : get_attempt m.store id ≡ some a
  result : get_result m.store id ≡ some r

adopted-Dormant :
    (now : ℕ) (id lease : String) (m : Manager) (a : AttemptRow) (r : StoredResult)
    → Dormant id a r m
    → Dormant id (record a { lease_id = lease }) r (adopt_directive now id (some lease) m)
      × ((adopt_directive now id (some lease) m).trace ≡ m.trace)
unfolding adopt_directive registered get_attempt get_result set_attempt_lease
adopted-Dormant now id lease m a r d = (
  record {
    unregistered = ground (arith, d.unregistered);
    row = ground (
      arith,
      d.unregistered,
      d.row,
      find-modify (of_attempt id) (of_attempt id) (λ x. record x { lease_id = lease })
          m.store.attempts (λ x. refl),
      find-test (of_attempt id) m.store.attempts d.row,
    );
    result = ground (arith, d.unregistered, d.result);
  },
  ground (arith, d.unregistered),
)

abbrev stamped : Env → String → StoredResult → StoredResult
stamped env lease r =
    let msg = restamp lease r.payload in
    restamped lease (env.result_digest msg) msg (env.payload_bytes msg) r

resent :
    (env : Env) (id lease : String) (m : Manager) (a : AttemptRow) (r : StoredResult)
    → Dormant id a r m
    → Dormant id a (stamped env lease r) (resend_stored env id (some lease) m)
      × ((resend_stored env id (some lease) m).trace ≡ sends (restamp lease r.payload) ∷ m.trace)
unfolding resend_stored registered
resent env id lease m a r d = (
  record {
    unregistered = ground (arith, d.unregistered, d.result);
    row = ground (
      arith,
      d.row,
      d.result,
      get_attempt-update_result m.store id lease (env.result_digest (restamp lease r.payload))
          (restamp lease r.payload) (env.payload_bytes (restamp lease r.payload)) id,
    );
    result = ground (
      arith,
      d.result,
      get_result-update_result m.store id lease (env.result_digest (restamp lease r.payload))
          (restamp lease r.payload) (env.payload_bytes (restamp lease r.payload)) r d.result,
    );
  },
  ground (arith, d.result),
)

collected :
    (now : ℕ) (ack : JobResultAck) (m : Manager) (a : AttemptRow) (r : StoredResult)
    → Dormant ack.attempt_id a r m
    → a.lease_id ≡ ack.lease_id
    → r.result_digest ≡ ack.result_digest
    → let m' = handle_result_ack now ack m in
      (get_result m'.store ack.attempt_id ≡ none) × (get_attempt m'.store ack.attempt_id ≡ none)
unfolding handle_result_ack lease_ok
collected now ack m a r d l e = (
  ground (
    arith,
    d.unregistered,
    d.row,
    accepted,
    eq_iff a.lease_id ack.lease_id,
    get_result-delete_attempt (delete_result m.store ack.attempt_id) ack.attempt_id ack.attempt_id,
    get_result-delete_result m.store ack.attempt_id,
  ),
  ground (
    arith,
    d.unregistered,
    d.row,
    accepted,
    eq_iff a.lease_id ack.lease_id,
    delete_attempt_lem (delete_result m.store ack.attempt_id) ack.attempt_id ack.attempt_id 0,
  ),
)
  where
    accepted :
        ack_result m.store ack.attempt_id ack.result_digest
        ≡ (delete_result m.store ack.attempt_id, true)
    accepted = rw (← e) (ack_result-matching m.store ack.attempt_id r d.result)

-- A result that the server asks for again is sent under the directive's lease, and the acknowledgement
-- of what was sent, under that lease and with its digest, collects the result and the attempt.
pub resend_result_then_ack_collects :
    (env : Env) (now later : ℕ) (d : ResumeDirective) (m : Manager) (lease : String)
    (a : AttemptRow) (r : StoredResult)
    → registered m d.attempt_id ≡ none
    → d.lease_id ≡ some lease
    → get_attempt m.store d.attempt_id ≡ some a
    → get_result m.store d.attempt_id ≡ some r
    → let m1 = apply_action env now resend_result d m in
      let m2 = handle_result_ack later (restamped_ack env d.attempt_id lease r.payload) m1 in
      (m1.trace ≡ sends (restamp lease r.payload) ∷ m.trace)
      × (get_result m2.store d.attempt_id ≡ none)
      × (get_attempt m2.store d.attempt_id ≡ none)
unfolding apply_action
resend_result_then_ack_collects env now later d m lease a r reg le at res =
    rw le (second.1 ∙ ap (◌∷◌ (sends (restamp lease r.payload))) first.1, gone.0, gone.1)
  where
    first :
        Dormant d.attempt_id
          (record a { lease_id = lease })
          r
          (adopt_directive now d.attempt_id (some lease) m)
        × ((adopt_directive now d.attempt_id (some lease) m).trace ≡ m.trace)
    first =
        adopted-Dormant now d.attempt_id lease m a r
          (record { unregistered = reg; row = at; result = res })

    m' : Manager
    m' =
        resend_stored env d.attempt_id (some lease)
          (adopt_directive now d.attempt_id (some lease) m)

    second :
        Dormant d.attempt_id (record a { lease_id = lease }) (stamped env lease r) m'
        × (m'.trace
            ≡ sends (restamp lease r.payload)
              ∷ (adopt_directive now d.attempt_id (some lease) m).trace)
    second =
        resent env d.attempt_id lease (adopt_directive now d.attempt_id (some lease) m)
          (record a { lease_id = lease }) r first.0

    gone :
        let m2 = handle_result_ack later (restamped_ack env d.attempt_id lease r.payload) m' in
        (get_result m2.store d.attempt_id ≡ none) × (get_attempt m2.store d.attempt_id ≡ none)
    gone =
        collected later (restamped_ack env d.attempt_id lease r.payload) m'
          (record a { lease_id = lease }) (stamped env lease r) second.0 refl refl
