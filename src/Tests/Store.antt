-- ===== src/Tests/Store.antt =====
-- Runs of src/store/eventlog.ts.
use hugin_agent.Prelude.{◌≡◌, refl, some, [], ◌∷◌, ◌++◌, arith}
use hugin_agent.Store.Rows.{find}
use hugin_agent.Store.{append_event, appended, events_after, get_result}
use hugin_agent.Store.Replay.{Below, events_after-append_event}
use hugin_agent.Tests.Fixtures.{store, event_a, event_payload, result_c}

store-Below : Below "att-a" 3 store.events
store-Below = (λ e. omega arith, (λ e. omega arith, (λ e. omega arith, tt)))

events_after-append_event_example :
    (append_event store (event_a 3) ≡ some (appended store (event_a 3)))
    × (events_after (appended store (event_a 3)) "att-a" 1
        ≡ events_after store "att-a" 1 ++ event_payload 3 ∷ [])
events_after-append_event_example =
    events_after-append_event store (event_a 3) 1 store-Below (omega arith)

stored_c : get_result store "att-c" ≡ some result_c
unfolding get_result find
stored_c = refl
