-- ===== src/Engine/Permission/Answered.antt =====
-- The permission server of src/engine/permission.ts answers once, and always if its connection ends.
use hugin_agent.Prelude.{
  ℕ, suc, ◌≡◌, refl, String, Option, some, List, [], ◌∷◌, ◌++◌, length, Option-cases, inl, inr,
  arith,
}
use hugin_agent.Json.{Json, Fields}
use hugin_agent.Engine.Lines.{each_line_inv}
use hugin_agent.Engine.Approval.{JsonText}
use hugin_agent.Engine.Permission.{
  Decision, Waiting, waiting, deny_broken, read_decision, handle_line, decided, SocketEvent,
  received, failed, ended, on_event, request_decision, payload, tool_input, call_tool,
}

module _ (json : JsonText) (id : String) where
  handle_line_kept :
      (line : List ℕ) (settled : Option Decision) (d : Decision)
      → settled ≡ some d
      → handle_line json id line settled ≡ some d
  unfolding handle_line
  handle_line_kept line settled d h = ground (arith, Option-cases (read_decision json id line))

  on_event_kept :
      (e : SocketEvent) (w : Waiting) (d : Decision)
      → w.settled ≡ some d
      → (on_event json id e w).settled ≡ some d
  unfolding on_event
  on_event_kept (received chunk) w d h =
      each_line_inv (handle_line json id) (λ s buf. s ≡ some d)
        (λ s buf line rest cut k. handle_line_kept line s d k) decided
        (suc (length (w.buf ++ chunk))) w.settled (w.buf ++ chunk) h
  on_event_kept failed w d h = ground arith
  on_event_kept ended w d h = ground arith

  request_decision_kept :
      (es : List SocketEvent) (w : Waiting) (d : Decision)
      → w.settled ≡ some d
      → (request_decision json id es w).settled ≡ some d
  unfolding request_decision
  request_decision_kept [] w d h = h
  request_decision_kept (e ∷ es) w d h =
      request_decision_kept es (on_event json id e w) d (on_event_kept e w d h)

  request_decision-append :
      (es fs : List SocketEvent) (w : Waiting)
      → request_decision json id (es ++ fs) w
        ≡ request_decision json id fs (request_decision json id es w)
  unfolding request_decision
  request_decision-append [] fs w = refl
  request_decision-append (e ∷ es) fs w = request_decision-append es fs (on_event json id e w)

  ended_settles : (w : Waiting) → (d : Decision) × ((on_event json id ended w).settled ≡ some d)
  unfolding on_event
  ended_settles w = elim (Option-cases w.settled) [
    | inl e ↦ (deny_broken, ground arith)
    | inr (d, e) ↦ (d, ground arith)
  ]

  -- Once the connection ends, the tool has an answer, whatever was received before it; and nothing that
  -- comes later changes the answer.
  pub call_tool_answered :
      (path : String) (args : Fields) (events : List SocketEvent)
      → (answer : Json) × ((later : List SocketEvent)
          → call_tool json (some path) args id (events ++ ended ∷ later) ≡ some answer)
  unfolding call_tool request_decision
  call_tool_answered path args events =
      let w = request_decision json id events waiting in
      let (d, settled) = ended_settles w in
      (
        payload (tool_input args) d,
        λ later.
            rw
              (
                request_decision-append events (ended ∷ later) waiting,
                request_decision_kept later (on_event json id ended w) d settled,
              )
              refl,
      )
