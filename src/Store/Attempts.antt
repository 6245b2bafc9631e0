-- ===== src/Store/Attempts.antt =====
-- The attempts table of src/store/eventlog.ts: idempotent creation, the high-water mark `last_seq` and
-- the cascade of a deletion.
use hugin_agent.Prelude.{
  ℕ, ◌≡◌, refl, ap, String, false, not, ◌&&◌, none, some, [], ◌∷◌, map, max, ltb, str_eq,
  if◌then◌else◌, Option-cases, inl, inr, arith, eq_iff, length, filter_keep, filter-filter-not,
}
use hugin_agent.Store.Rows.{
  AttemptRow, EventRow, order_by_seq, find, find-append, find-filter-not, find-filter_keep,
  find-modify, find-test,
}
use hugin_agent.Store.{
  Store, of_attempt, of_event, get_attempt, create_attempt, delete_attempt, appended, events_after,
  ack_events, unacked_events,
}

-- After a first creation every later one under the same id writes nothing and says so.
create_attempt-duplicate :
    (s : Store) (a b : AttemptRow)
    → b.attempt_id ≡ a.attempt_id
    → create_attempt (create_attempt s a).0 b ≡ ((create_attempt s a).0, false)
unfolding create_attempt find
create_attempt-duplicate s a b e = ground (
  arith,
  find-append (of_attempt b.attempt_id) s.attempts (record a { last_seq = 0 } ∷ []),
  eq_iff a.attempt_id b.attempt_id,
)

-- The row that creation leaves: the one there was, or the new one with no event counted.
get_attempt-create_attempt :
    (s : Store) (a : AttemptRow)
    → get_attempt (create_attempt s a).0 a.attempt_id ≡ elim (get_attempt s a.attempt_id) [
      | none ↦ some (record a { last_seq = 0 })
      | some old ↦ some old
    ]
unfolding create_attempt find
get_attempt-create_attempt s a = ground (
  arith,
  find-append (of_attempt a.attempt_id) s.attempts (record a { last_seq = 0 } ∷ []),
  eq_iff a.attempt_id a.attempt_id,
)

-- An event raises its attempt's high-water mark and changes nothing else of the row.
get_attempt-appended :
    (s : Store) (e : EventRow)
    → get_attempt (appended s e) e.attempt_id ≡ elim (get_attempt s e.attempt_id) [
      | none ↦ none
      | some a ↦ some (record a { last_seq = max a.last_seq e.seq })
    ]
unfolding appended get_attempt
get_attempt-appended s e = elim (Option-cases (find (of_attempt e.attempt_id) s.attempts)) [
  | inl h ↦ ground (arith, h, updated)
  | inr (a, h) ↦ ground (arith, h, updated, find-test (of_attempt e.attempt_id) s.attempts h)
]
  where
    updated :
        find (of_attempt e.attempt_id) (appended s e).attempts
        ≡ elim (find (of_attempt e.attempt_id) s.attempts) [
          | none ↦ none
          | some a ↦ some (
              if of_attempt e.attempt_id a && ltb a.last_seq e.seq
              then record a { last_seq = e.seq }
              else a)
        ]
    updated =
        find-modify (of_attempt e.attempt_id)
          (λ a. of_attempt e.attempt_id a && ltb a.last_seq e.seq)
          (λ a. record a { last_seq = e.seq }) s.attempts (λ a. refl)

-- The mark survives the collection of acknowledged events.
get_attempt-ack_events :
    (s : Store) (id j : String) (ack : ℕ) → get_attempt (ack_events s id ack) j ≡ get_attempt s j
unfolding get_attempt ack_events
get_attempt-ack_events s id j ack = refl

-- A deleted attempt has neither row nor event left, and no other attempt is touched.
pub delete_attempt_lem :
    (s : Store) (id j : String) (after : ℕ)
    → (get_attempt (delete_attempt s id) id ≡ none)
      × (unacked_events (delete_attempt s id) id ≡ 0)
      × (str_eq id j ≡ false
          → (get_attempt (delete_attempt s id) j ≡ get_attempt s j)
            × (events_after (delete_attempt s id) j after ≡ events_after s j after))
unfolding get_attempt delete_attempt unacked_events events_after
delete_attempt_lem s id j after = (
  find-filter-not (of_attempt id) s.attempts,
  ap length (filter-filter-not (of_event id) s.events),
  λ ne. (
    find-filter_keep (of_attempt j) (λ a. not (of_attempt id a)) s.attempts
        (λ a h. ground (arith, eq_iff a.attempt_id j, eq_iff a.attempt_id id, eq_iff id j)),
    ap (λ es. map (λ (e : EventRow). e.payload) (order_by_seq es))
        (filter_keep (λ e. of_event j e && ltb after e.seq) (λ e. not (of_event id e)) s.events
          (λ e h. ground (arith, eq_iff e.attempt_id j, eq_iff e.attempt_id id, eq_iff id j))),
  ),
)
