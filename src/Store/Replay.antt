-- ===== src/Store/Replay.antt =====
-- What `eventsAfter` resends: append, cumulative ack and replay of src/store/eventlog.ts.
use hugin_agent.Prelude.{
  ℕ, ◌+◌, ◌≤◌, ◌<◌, ◌≡◌, refl, ap, ◌∙◌, String, true, false, not, ◌&&◌, none, some, List, [], ◌∷◌,
  ◌++◌, map, max, ltb, leb, str_eq, filter, filter-append, filter_keep, arith, eq_iff,
}
use mathlib.Core.List.{map-append}
use hugin_agent.Conn.Outbound.{Message}
use hugin_agent.Store.Rows.{EventRow, find, order_by_seq, insert_by_seq}
use hugin_agent.Store.{
  Store, of_event, same_key, append_event, appended, events_after, ack_events, conn_unacked_bytes,
  sum_bytes,
}

-- Every event of the attempt has a sequence number below `n`.
abbrev pub Below : String → ℕ → List EventRow → Type 0
Below id n [] = Unit
Below id n (e ∷ es) = (of_event id e ≡ true → e.seq < n) × Below id n es

insert_by_seq-append_last :
    (x e : EventRow) (ys : List EventRow)
    → x.seq ≤ e.seq
    → insert_by_seq x (ys ++ e ∷ []) ≡ insert_by_seq x ys ++ e ∷ []
unfolding insert_by_seq
insert_by_seq-append_last x e [] h = ground arith
insert_by_seq-append_last x e (y ∷ ys) h = ground (arith, insert_by_seq-append_last x e ys h)

-- The rows that a replay selects, before they are put in order.
abbrev selected : String → ℕ → List EventRow → List EventRow
selected id after es = filter (λ e. of_event id e && ltb after e.seq) es

order-append_last :
    (id : String) (after : ℕ) (e : EventRow) (es : List EventRow)
    → Below id e.seq es
    → order_by_seq (selected id after es ++ e ∷ []) ≡ order_by_seq (selected id after es) ++ e ∷ []
unfolding order_by_seq
order-append_last id after e [] b = unfold insert_by_seq in refl
order-append_last id after e (x ∷ xs) b = ground (
  arith,
  b.0,
  order-append_last id after e xs b.1,
  insert_by_seq-append_last x e (order_by_seq (selected id after xs)),
)

no_key-Below :
    (id : String) (n : ℕ) (es : List EventRow) → Below id n es → find (same_key id n) es ≡ none
unfolding find
no_key-Below id n [] b = refl
no_key-Below id n (e ∷ es) b = ground (arith, b.0, no_key-Below id n es b.1)

selected_last :
    (e : EventRow) (after : ℕ) → after < e.seq → selected e.attempt_id after (e ∷ []) ≡ e ∷ []
selected_last e after h = ground (arith, eq_iff e.attempt_id e.attempt_id)

events_after-appended :
    (s : Store) (e : EventRow) (after : ℕ)
    → Below e.attempt_id e.seq s.events
    → after < e.seq
    → events_after (appended s e) e.attempt_id after
      ≡ events_after s e.attempt_id after ++ e.payload ∷ []
unfolding appended events_after
events_after-appended s e after b h =
    ap (λ es. payloads (order_by_seq es))
      (filter-append (λ x. of_event e.attempt_id x && ltb after x.seq) s.events (e ∷ [])
        ∙ ap (◌++◌ (selected e.attempt_id after s.events)) (selected_last e after h))
    ∙ (ap payloads (order-append_last e.attempt_id after e s.events b)
        ∙ map-append (λ (x : EventRow). x.payload)
            (order_by_seq (selected e.attempt_id after s.events)) (e ∷ []))
  where
    payloads : List EventRow → List Message
    payloads es = map (λ x. x.payload) es

-- An event above all earlier ones of its attempt is accepted, and a replay from any point before it
-- is the earlier replay followed by that event.
pub events_after-append_event :
    (s : Store) (e : EventRow) (after : ℕ)
    → Below e.attempt_id e.seq s.events
    → after < e.seq
    → (append_event s e ≡ some (appended s e))
      × (events_after (appended s e) e.attempt_id after
          ≡ events_after s e.attempt_id after ++ e.payload ∷ [])
unfolding append_event
events_after-append_event s e after b h = (
  ground (arith, no_key-Below e.attempt_id e.seq s.events b),
  events_after-appended s e after b h,
)

-- A cumulative acknowledgement takes away the events up to its number: a replay from any point is
-- the replay from the later of the two, and other attempts replay as before.
events_after-ack_events :
    (s : Store) (id j : String) (ack after : ℕ)
    → (events_after (ack_events s id ack) id after ≡ events_after s id (max ack after))
      × (str_eq id j ≡ false → events_after (ack_events s id ack) j after ≡ events_after s j after)
unfolding events_after ack_events
events_after-ack_events s id j ack after = (
  ap (λ es. map (λ (x : EventRow). x.payload) (order_by_seq es)) (replayed s.events),
  λ ne.
      ap (λ es. map (λ (x : EventRow). x.payload) (order_by_seq es))
        (filter_keep (λ e. of_event j e && ltb after e.seq)
          (λ e. not (of_event id e && leb e.seq ack)) s.events
          (λ e h. ground (arith, eq_iff e.attempt_id j, eq_iff e.attempt_id id, eq_iff id j))),
)
  where
    replayed :
        (es : List EventRow)
        → selected id after (filter (λ e. not (of_event id e && leb e.seq ack)) es)
          ≡ selected id (max ack after) es
    replayed [] = refl
    replayed (e ∷ es) = ground (arith, replayed es)

-- The bytes that an acknowledgement releases are those of the acknowledged events, no more: what the
-- connection holds afterwards and what was released add up to what it held.
conn_unacked_bytes-ack_events :
    (s : Store) (id : String) (ack : ℕ)
    → conn_unacked_bytes (ack_events s id ack)
        + sum_bytes (filter (λ e. of_event id e && leb e.seq ack) s.events)
      ≡ conn_unacked_bytes s
unfolding conn_unacked_bytes ack_events sum_bytes
conn_unacked_bytes-ack_events s id ack = split s.events
  where
    split :
        (es : List EventRow)
        → sum_bytes (filter (λ e. not (of_event id e && leb e.seq ack)) es)
            + sum_bytes (filter (λ e. of_event id e && leb e.seq ack) es)
          ≡ sum_bytes es
    split [] = omega arith
    split (e ∷ es) = ground (arith, split es)
