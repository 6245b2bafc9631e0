-- ===== src/Store/Results.antt =====
-- The results table of src/store/eventlog.ts: a pending result is collected only by its own digest.
use hugin_agent.Prelude.{
  ℕ, ◌≡◌, ◌≢◌, refl, String, true, false, none, some, [], ◌∷◌, str_eq, str_eq_refl, arith, eq_iff,
}
use hugin_agent.Conn.Outbound.{Message}
use hugin_agent.Store.Rows.{
  StoredResult, find, find-test, find-append, find-filter-not, find-modify,
}
use hugin_agent.Store.{
  Store, of_result, get_result, save_result, update_result, delete_result, ack_result, get_attempt,
  delete_attempt,
}

-- Collection happens exactly under the stored digest, and then takes that result away; any other
-- acknowledgement leaves the store as it was.
ack_result_exact :
    (s : Store) (id digest : String) (r : StoredResult)
    → get_result s id ≡ some r
    → ((ack_result s id digest).1 ≡ str_eq r.result_digest digest)
      × (r.result_digest ≡ digest → get_result (ack_result s id digest).0 id ≡ none)
      × (r.result_digest ≢ digest → (ack_result s id digest).0 ≡ s)
unfolding ack_result get_result delete_result
ack_result_exact s id digest r h = (
  ground arith,
  λ e. ground (arith, eq_iff r.result_digest digest, find-filter-not (of_result id) s.results),
  λ e. ground (arith, eq_iff r.result_digest digest),
)

-- A saved result is the one that is read back, in the place of an earlier one.
get_result-save_result :
    (s : Store) (r : StoredResult) → get_result (save_result s r) r.attempt_id ≡ some r
unfolding get_result save_result find
get_result-save_result s r = ground (
  arith,
  find-append (of_result r.attempt_id) (delete_result s r.attempt_id).results (r ∷ []),
  find-filter-not (of_result r.attempt_id) s.results,
  eq_iff r.attempt_id r.attempt_id,
)

-- The row that a re-stamp leaves.
abbrev pub restamped : String → String → Message → ℕ → StoredResult → StoredResult
restamped lease digest payload size r = record r {
  lease_id = lease;
  result_digest = digest;
  payload = payload;
  result_size = size;
}

pub get_result-update_result :
    (s : Store) (id lease digest : String) (payload : Message) (size : ℕ) (r : StoredResult)
    → get_result s id ≡ some r
    → get_result (update_result s id lease digest payload size) id
      ≡ some (restamped lease digest payload size r)
unfolding get_result update_result
get_result-update_result s id lease digest payload size r h = ground (
  arith,
  h,
  find-modify (of_result id) (of_result id) (restamped lease digest payload size) s.results
      (λ x. refl),
  find-test (of_result id) s.results h,
)

pub ack_result-matching :
    (s : Store) (id : String) (r : StoredResult)
    → get_result s id ≡ some r
    → ack_result s id r.result_digest ≡ (delete_result s id, true)
unfolding ack_result
ack_result-matching s id r h = ground (arith, str_eq_refl r.result_digest)

pub get_result-delete_result : (s : Store) (id : String) → get_result (delete_result s id) id ≡ none
unfolding get_result delete_result
get_result-delete_result s id = find-filter-not (of_result id) s.results

-- A re-stamped result is acknowledged by its new digest and no longer by the old one.
ack_result-update_result :
    (s : Store) (id lease digest : String) (payload : Message) (size : ℕ) (r : StoredResult)
    → get_result s id ≡ some r
    → ((ack_result (update_result s id lease digest payload size) id digest).1 ≡ true)
      × (r.result_digest ≢ digest
          → (ack_result (update_result s id lease digest payload size) id r.result_digest).1
            ≡ false)
unfolding ack_result
ack_result-update_result s id lease digest payload size r h = (
  ground (arith, stored, str_eq_refl digest),
  λ ne. ground (arith, stored, eq_iff digest r.result_digest),
)
  where
    stored :
        get_result (update_result s id lease digest payload size) id
        ≡ some (restamped lease digest payload size r)
    stored = get_result-update_result s id lease digest payload size r h

pub get_attempt-update_result :
    (s : Store) (id lease digest : String) (payload : Message) (size : ℕ) (j : String)
    → get_attempt (update_result s id lease digest payload size) j ≡ get_attempt s j
unfolding get_attempt update_result
get_attempt-update_result s id lease digest payload size j = refl

pub get_result-delete_attempt :
    (s : Store) (id j : String) → get_result (delete_attempt s id) j ≡ get_result s j
unfolding get_result delete_attempt
get_result-delete_attempt s id j = refl
