-- ===== src/Engine/Relayed.antt =====
-- The two halves of src/engine/permission.ts together: a prompt goes from the permission server to the
-- daemon, and the decision back to the tool.
use hugin_agent.Prelude.{
  ℕ, suc, Bool, false, ◌≡◌, ◌≢◌, refl, ap, ◌∙◌, String, Option, none, some, List, [], ◌∷◌, ◌++◌,
  length, Option-cases, arith, str_eq_refl, true,
}
use hugin_agent.Prelude.Map
use hugin_agent.Json.{Json, str, get_field}
use hugin_agent.Jobs.Types.{ApprovalDecision, allow, deny}
use hugin_agent.Engine.Lines.{newline, cut_line, each_line, each_line-nil}
use hugin_agent.Engine.Normalize.{member}
use hugin_agent.Engine.Approval
use hugin_agent.Engine.Approval.{
  JsonText, ApprovalBridge, ToolRequest, Answer, asks, writes, buffer_of, on_data, resolve,
  decision_line, accept_request, read_request, never, store_rest,
}
use hugin_agent.Engine.Permission
use hugin_agent.Engine.Permission.{
  Decision, waiting, request_line, read_decision, received, on_event, request_decision, payload_of,
  payload, allow_payload, deny_payload, decided,
}

-- What the standard says of JSON.stringify and JSON.parse at a value: one line, not empty, that is read back.
pub record Line (json : JsonText) (v : Json) : Type 0 where
  pub one_line : cut_line (json.stringify v) ≡ none
  pub not_empty : json.stringify v ≢ []
  pub parsed : json.parse (json.stringify v) ≡ some v

-- The line as it is written to a socket.
abbrev pub written : JsonText → Json → List ℕ
written json v = json.stringify v ++ newline ∷ []

cut_line-written :
    (xs : List ℕ) → cut_line xs ≡ none → cut_line (xs ++ newline ∷ []) ≡ some (xs, [])
unfolding cut_line
cut_line-written [] h = refl
cut_line-written (x ∷ xs) h = ground (arith, cut_line-written xs, Option-cases (cut_line xs))

abbrev pub silent : ToolRequest → Option Answer
silent req = none

abbrev pub outcome : Json → ApprovalDecision → Option String → Json
outcome input allow reason = allow_payload input
outcome input deny none = deny_payload (str "denied by remote approver")
outcome input deny (some r) = deny_payload (str r)

module _ (json : JsonText) where
  read_request-line :
      (id name : String) (input : Json) (xs : List ℕ)
      → xs ≢ []
      → json.parse xs ≡ some (request_line id name input)
      → read_request json xs
        ≡ some (record { request_id = id; tool_name = name; input = some input })
  unfolding read_request get_field
  read_request-line id name input [] full e = absurd (full refl)
  read_request-line id name input (c ∷ cs) full e = ground arith

  expected : ApprovalDecision → Option String → Decision
  unfolding get_field
  expected d reason = record {
    decision = member (decision_line "" d reason) "decision";
    reason = member (decision_line "" d reason) "reason";
  }

  read_decision-line :
      (id : String) (d : ApprovalDecision) (reason : Option String) (xs : List ℕ)
      → xs ≢ []
      → json.parse xs ≡ some (decision_line id d reason)
      → read_decision json id xs ≡ some (expected d reason)
  unfolding read_decision get_field expected
  read_decision-line id d reason [] full e = absurd (full refl)
  read_decision-line id d reason (c ∷ cs) full e = ground (arith, str_eq_refl id)

  payload-expected :
      (d : ApprovalDecision) (reason : Option String) (input : Json)
      → payload input (expected d reason) ≡ outcome input d reason
  unfolding payload expected get_field
  payload-expected allow none input = refl
  payload-expected allow (some r) input = refl
  payload-expected deny none input = refl
  payload-expected deny (some r) input = refl

  -- One whole line, while the loop is not stopped.
  each_line-written {ℓ} :
      {S : Type ℓ} (stop : S → Bool) (body : List ℕ → S → S) (fuel : ℕ) (s : S) (v : Json)
      → stop s ≡ false
      → cut_line (json.stringify v) ≡ none
      → each_line stop body (suc fuel) s (written json v) ≡ (body (json.stringify v) s, [])
  unfolding each_line
  each_line-written stop body fuel s v go one_line = ground (
    arith,
    cut_line-written (json.stringify v) one_line,
    each_line-nil stop body fuel (body (json.stringify v) s),
  )

  asked_lem :
      (id name : String) (input : Json) (s : ℕ) (b : ApprovalBridge)
      → b.listening ≡ true
      → buffer_of s b.sockets ≡ some []
      → Line json (request_line id name input)
      → let req : ToolRequest = record { request_id = id; tool_name = name; input = some input } in
        on_data json silent s (written json (request_line id name input)) b
        ≡ store_rest s (accept_request silent s req b, [])
  unfolding on_data Approval.handle_line
  asked_lem id name input s b heard live l =
      let v = request_line id name input in
      ground (
        arith,
        each_line-written never (Approval.handle_line json silent s) (length (written json v)) b v
            refl l.one_line,
        read_request-line id name input (json.stringify v) l.not_empty l.parsed,
      )

  relayed_back :
      (id : String) (d : ApprovalDecision) (reason : Option String) (input : Json)
      → Line json (decision_line id d reason)
      → payload_of input
          (request_decision json id
            (received (written json (decision_line id d reason)) ∷ [])
            waiting).settled
        ≡ some (outcome input d reason)
  unfolding request_decision on_event Permission.handle_line
  relayed_back id d reason input l =
      let v = decision_line id d reason in
      let read = read_decision-line id d reason (json.stringify v) l.not_empty l.parsed in
      let answered : Permission.handle_line json id (json.stringify v) none
          ≡ some (expected d reason) =
        ground (arith, read) in
      ap (payload_of input) (
        ap (λ (r : Option Decision × List ℕ). r.0)
          (each_line-written decided (Permission.handle_line json id) (length (written json v)) none
            v refl l.one_line)
        ∙ answered)
      ∙ ap some (payload-expected d reason input)

  -- A prompt over a live connection with nothing pending in its buffer asks the daemon about that tool and
  -- that input; the decision is written to the same connection; and the tool returns just that: the input
  -- unchanged if it was allowed, the reason if it was denied. It is relied on that JSON text is one line
  -- and is read back.
  pub decision_relayed :
      (id name : String) (input : Json) (d : ApprovalDecision) (reason : Option String) (s : ℕ)
      (b : ApprovalBridge)
      → b.listening ≡ true
      → buffer_of s b.sockets ≡ some []
      → Line json (request_line id name input)
      → Line json (decision_line id d reason)
      → let asked = on_data json silent s (written json (request_line id name input)) b in
        let line = decision_line id d reason in
        (asked.trace
          ≡ asks s (record { request_id = id; tool_name = name; input = some input }) ∷ b.trace)
        × ((resolve id d reason asked).trace ≡ writes s line ∷ asked.trace)
        × (payload_of input
              (request_decision json id (received (written json line) ∷ []) waiting).settled
            ≡ some (outcome input d reason))
  unfolding accept_request resolve
  decision_relayed id name input d reason s b heard live request decision =
      let asked = asked_lem id name input s b heard live request in
      (
        ground (arith, asked),
        ground (arith, asked, Map.get-set b.pending id id s, str_eq_refl id),
        relayed_back id d reason input decision,
      )
