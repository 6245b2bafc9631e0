-- ===== src/Jobs/Delivery.antt =====
-- Persist before send, and the pause at a cap: `onEvent` of src/jobs/manager.ts.
use hugin_agent.Prelude.{
  ℕ, suc, ◌<◌, ◌≤◌, ◌≡◌, ap, ◌∙◌, ◌⊎◌, inl, inr, true, false, some, [], ◌∷◌, ◌++◌, if◌then◌else◌,
  get_elem?, get_elem?-set_self, get_elem?-lt, Bool-cases, Option-cases, arith,
}
use hugin_agent.Conn.Outbound.{EngineEvent}
use hugin_agent.Store.{append_event, appended, events_after}
use hugin_agent.Store.Rows.{EventRow}
use hugin_agent.Store.Replay.{Below, events_after-append_event}
use hugin_agent.Jobs.Types.{JobState}
use hugin_agent.Jobs.Manager.{Env, Manager, sends, appends, pauses, over_cap, write_job, send}
use hugin_agent.Jobs.Callbacks.{
  returned, stored, event_message, event_row, counted, pause_over_cap, on_event,
}

-- What the event of a running job leaves behind.
pub record Emitted (env : Env) (ref : ℕ) (st : JobState) (ev : EngineEvent) (m m' : Manager)
    : Type 0 where
  -- The message is in the store, at the end of every replay from a point before it.
  pub durable :
      (after : ℕ)
      → after ≤ st.seq
      → events_after m'.store st.attempt_id after
        ≡ events_after m.store st.attempt_id after ++ event_message st (suc st.seq) ev ∷ []
  -- The row was written, then the message was sent, and after it at most a pause of the run was called for.
  pub sent :
      (m'.trace
        ≡ sends (event_message st (suc st.seq) ev)
          ∷ appends (event_message st (suc st.seq) ev)
          ∷ m.trace)
      ⊎ ((h : ℕ) × (st.run ≡ some h)
          × (m'.trace
              ≡ pauses h
                ∷ sends (event_message st (suc st.seq) ev)
                ∷ appends (event_message st (suc st.seq) ev)
                ∷ m.trace))
  -- The job counts it, and is paused if it was or if a cap is reached now.
  pub job :
      get_elem? m'.heap ref
      ≡ some (record (counted env st ev) {
        paused = if over_cap env.caps m'.store st.attempt_id then true else st.paused;
      })

-- What the check of the caps leaves behind.
record Checked (env : Env) (ref : ℕ) (st : JobState) (m m' : Manager) : Type 0 where
  same_store : m'.store ≡ m.store
  called : (m'.trace ≡ m.trace) ⊎ ((h : ℕ) × (st.run ≡ some h) × (m'.trace ≡ pauses h ∷ m.trace))
  job :
      get_elem? m'.heap ref
      ≡ some (record st {
        paused = if over_cap env.caps m.store st.attempt_id then true else st.paused;
      })

pause_over_cap-Checked :
    (env : Env) (ref : ℕ) (st : JobState) (m : Manager)
    → get_elem? m.heap ref ≡ some st
    → Checked env ref st m (pause_over_cap env ref st m)
unfolding pause_over_cap
pause_over_cap-Checked env ref st m at = record {
  same_store = ground arith;
  called = elim (Bool-cases (over_cap env.caps m.store st.attempt_id)) [
    | inr no_cap ↦ inl (ground arith)
    | inl capped ↦ elim (Option-cases st.run) [
      | inl idle ↦ inl (ground arith)
      | inr (h, busy) ↦ inr (h, busy, ground arith)
    ]
  ];
  job = elim (Bool-cases (over_cap env.caps m.store st.attempt_id)) [
    | inr no_cap ↦ ground arith
    | inl capped ↦ ground (
      arith,
      get_elem?-set_self m.heap ref (record st { paused = true }) (get_elem?-lt m.heap ref at),
    )
  ];
}

-- An event of a live job whose stored events all lie behind its counter is written and sent: the call
-- returns, the row is written under the next sequence number before the message is sent, and a replay
-- from any earlier point gives the message last; the job is paused if the event reached a cap.
pub on_event_emits :
    (env : Env) (ref : ℕ) (st : JobState) (ev : EngineEvent) (m : Manager)
    → get_elem? m.heap ref ≡ some st
    → st.fenced ≡ false
    → Below st.attempt_id (suc st.seq) m.store.events
    → (m' : Manager) × (on_event env ref ev m ≡ returned m') × Emitted env ref st ev m m'
unfolding on_event write_job send stored
on_event_emits env ref st ev m at live b = (
  m',
  ground (arith, written 0 (omega arith)),
  record {
    durable = λ after h.
        ap (λ s. events_after s st.attempt_id after) checked.same_store
        ∙ (written after (omega arith)).1;
    sent = checked.called;
    job = ground (arith, checked.job, checked.same_store);
  },
)
  where
    row : EventRow
    row = event_row env st ev

    written :
        (after : ℕ)
        → after < suc st.seq
        → (append_event m.store row ≡ some (appended m.store row))
          × (events_after (appended m.store row) st.attempt_id after
              ≡ events_after m.store st.attempt_id after ++ row.payload ∷ [])
    written after h = events_after-append_event m.store row after b h

    before : Manager
    before = send (event_message st (suc st.seq) ev) (
        stored (event_message st (suc st.seq) ev) (appended m.store row)
          (write_job ref (counted env st ev) m))

    m' : Manager
    m' = pause_over_cap env ref (counted env st ev) before

    checked : Checked env ref (counted env st ev) before m'
    checked =
        pause_over_cap-Checked env ref (counted env st ev) before
          (get_elem?-set_self m.heap ref (counted env st ev) (get_elem?-lt m.heap ref at))
