-- ===== src/Sessions/Terminal/Counts.antt =====
-- Acceptances and terminal results among the messages of src/sessions/resume-manager.ts.
use hugin_agent.Prelude.{
  ℕ, suc, ◌+◌, ◌≡◌, inl, inr, String, Option, none, some, List, [], ◌∷◌, str_eq, if◌then◌else◌,
  Option-cases, arith, eq_iff,
}
use hugin_agent.Prelude.Map
use hugin_agent.Sessions.ResumeManager.{
  ResumeManager, TurnState, resume_accept, turn_result, Effect, sends, TurnStatus, live_turn,
  finalize,
}
use hugin_agent.Sessions.Busy.Kept.{live_turn-some}

-- How often the turn was accepted, and how often it ended, among the messages sent.
unfoldable pub accepts : String → List Effect → ℕ
accepts id [] = 0
accepts id (sends (resume_accept req turn fork mutates) ∷ es) =
    let rest = accepts id es in if str_eq turn id then suc rest else rest
accepts id (_ ∷ es) = accepts id es

unfoldable pub results : String → List Effect → ℕ
results id [] = 0
results id (sends (turn_result turn status message handle) ∷ es) =
    let rest = results id es in if str_eq turn id then suc rest else rest
results id (_ ∷ es) = results id es

abbrev pub occupied : Option TurnState → ℕ
occupied none = 0
occupied (some st) = 1

-- Each acceptance of a turn is matched by its result or by the turn still running.
pub record Balanced (m : ResumeManager) : Type 0 where
  pub balance :
      (id : String) → accepts id m.trace ≡ results id m.trace + occupied (Map.get m.turns id)

pub Balanced-finalize :
    (id : String) (status : TurnStatus) (message : String) (handle : Option String)
    (m : ResumeManager)
    → Balanced m
    → Balanced (finalize id status message handle m)
unfolding finalize accepts results
Balanced-finalize id status message handle m b = record {
  balance = λ j. (elim (Option-cases (live_turn m id)) [
    | inl gone ↦ ground (arith, b.balance j)
    | inr (st, live) ↦
        ground (
          arith,
          b.balance j,
          live_turn-some m id st live,
          Map.get-remove m.turns id j,
          eq_iff id j,
        )
  ]);
}
