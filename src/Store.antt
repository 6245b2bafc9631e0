-- ===== src/Store.antt =====
-- The durable per-attempt event log: src/store/eventlog.ts. A table is the list of its rows in order
-- of insertion. A payload, JSON text in the database, is the message that it encodes; the envelope
-- that it carries is replaced at every resend.
pub mod Rows
pub mod Replay
pub mod Attempts
pub mod Results
use hugin_agent.Prelude.{
  ℕ, ◌+◌, String, Bool, true, false, not, ◌&&◌, Option, none, some, List, [], ◌∷◌, ◌++◌, map, ltb,
  leb, ◌==◌, str_eq, if◌then◌else◌, length, filter,
}
use hugin_agent.Conn.Outbound.{
  Message, JobStatus, FinalStatus, accepted, starting, running, cancelling, cancelled, completed,
  failed,
}
use Rows.{AttemptRow, EventRow, StoredResult, ActiveJobRow, find, modify, order_by_seq}

-- The three tables.
pub record Store : Type 0 where
  pub attempts : List AttemptRow
  pub events : List EventRow
  pub results : List StoredResult

abbrev pub of_attempt : String → AttemptRow → Bool
of_attempt id a = str_eq a.attempt_id id

abbrev pub of_event : String → EventRow → Bool
of_event id e = str_eq e.attempt_id id

abbrev pub of_result : String → StoredResult → Bool
of_result id r = str_eq r.attempt_id id

unfoldable pub empty : Store
empty = record { attempts = []; events = []; results = [] }

unfoldable pub get_attempt : Store → String → Option AttemptRow
get_attempt s id = find (of_attempt id) s.attempts

-- INSERT OR IGNORE, with the column's DEFAULT 0 for `last_seq`; true if a row was written.
unfoldable pub create_attempt : Store → AttemptRow → Store × Bool
unfolding get_attempt
create_attempt s a = elim (get_attempt s a.attempt_id) [
  | some _ ↦ (s, false)
  | none ↦ (record s { attempts = s.attempts ++ record a { last_seq = 0 } ∷ [] }, true)
]

unfoldable pub set_attempt_status : Store → String → JobStatus → Store
set_attempt_status s id status = record s {
  attempts = modify (of_attempt id) (λ a. record a { status = status }) s.attempts;
}

unfoldable pub set_attempt_lease : Store → String → String → Store
set_attempt_lease s id lease = record s {
  attempts = modify (of_attempt id) (λ a. record a { lease_id = lease }) s.attempts;
}

unfoldable pub delete_attempt : Store → String → Store
delete_attempt s id = record s {
  attempts = filter (λ a. not (of_attempt id a)) s.attempts;
  events = filter (λ e. not (of_event id e)) s.events;
}

abbrev pub same_key : String → ℕ → EventRow → Bool
same_key id seq e = of_event id e && e.seq == seq

-- What the two statements of `appendEvent` write: the row, and the raised `last_seq`.
unfoldable pub appended : Store → EventRow → Store
appended s e = record s {
  events = s.events ++ e ∷ [];
  attempts =
      modify (λ a. of_attempt e.attempt_id a && ltb a.last_seq e.seq)
        (λ a. record a { last_seq = e.seq }) s.attempts;
}

-- The first statement fails on a second row under the primary key (attempt_id, seq): `none` is that
-- exception, and nothing is written.
unfoldable pub append_event : Store → EventRow → Option Store
append_event s e = elim (find (same_key e.attempt_id e.seq) s.events) [
  | some _ ↦ none
  | none ↦ some (appended s e)
]

unfoldable pub events_after : Store → String → ℕ → List Message
events_after s id after =
    map (λ e. e.payload) (order_by_seq (filter (λ e. of_event id e && ltb after e.seq) s.events))

-- WHERE status IN ('accepted','starting','running','cancelling')
abbrev is_active : JobStatus → Bool
is_active accepted = true
is_active starting = true
is_active running = true
is_active cancelling = true
is_active cancelled = false
is_active completed = false
is_active failed = false

unfoldable active_jobs_for_resume : Store → List ActiveJobRow
active_jobs_for_resume s =
    map
      (λ a. record {
        job_id = a.job_id;
        attempt_id = a.attempt_id;
        lease_id = a.lease_id;
        status = a.status;
        last_emitted_seq = a.last_seq;
      })
      (filter (λ a. is_active a.status) s.attempts)

unfoldable pub ack_events : Store → String → ℕ → Store
ack_events s id ack = record s {
  events = filter (λ e. not (of_event id e && leb e.seq ack)) s.events;
}

-- SUM(bytes), 0 over no row.
unfoldable pub sum_bytes : List EventRow → ℕ
sum_bytes [] = 0
sum_bytes (e ∷ es) = e.bytes + sum_bytes es

unfoldable pub unacked_events : Store → String → ℕ
unacked_events s id = length (filter (of_event id) s.events)

unfoldable pub unacked_bytes : Store → String → ℕ
unacked_bytes s id = sum_bytes (filter (of_event id) s.events)

unfoldable pub conn_unacked_bytes : Store → ℕ
conn_unacked_bytes s = sum_bytes s.events

unfoldable pub get_result : Store → String → Option StoredResult
get_result s id = find (of_result id) s.results

unfoldable pub delete_result : Store → String → Store
delete_result s id = record s { results = filter (λ r. not (of_result id r)) s.results }

-- INSERT OR REPLACE: the row that the key had is deleted first.
unfoldable pub save_result : Store → StoredResult → Store
unfolding delete_result
save_result s r = record (delete_result s r.attempt_id) {
  results = (delete_result s r.attempt_id).results ++ r ∷ [];
}

-- `size` is the payload's length in bytes, which the statement computes.
unfoldable pub update_result : Store → String → String → String → Message → ℕ → Store
update_result s id lease digest payload size = record s {
  results =
      modify (of_result id)
        (λ r. record r {
          lease_id = lease;
          result_digest = digest;
          payload = payload;
          result_size = size;
        })
        s.results;
}

unfoldable pub ack_result : Store → String → String → Store × Bool
unfolding get_result delete_result
ack_result s id digest = elim (get_result s id) [
  | none ↦ (s, false)
  | some r ↦ if str_eq r.result_digest digest then (delete_result s id, true) else (s, false)
]

abbrev active_attempts : Store → List AttemptRow
active_attempts s = s.attempts

abbrev pending_results : Store → List StoredResult
pending_results s = s.results
