-- ===== src/Tests/Daemon.antt =====
-- Runs of the loop of src/daemon.ts.
use hugin_agent.Prelude.{true, false, none, [], ◌∷◌}
use hugin_agent.Daemon.{Above, accepted_epochs, accepted_epochs-Above, SessionEnd}

accepted_epochs-Above_example :
    Above none (accepted_epochs (3 ∷ 2 ∷ 3 ∷ 5 ∷ []) (record { last_epoch = none }))
accepted_epochs-Above_example =
    accepted_epochs-Above (3 ∷ 2 ∷ 3 ∷ 5 ∷ []) (record { last_epoch = none })

abbrev good : SessionEnd
good = record { established = true; running = true }

abbrev failed : SessionEnd
failed = record { established = false; running = true }
