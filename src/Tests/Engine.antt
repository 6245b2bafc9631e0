-- ===== src/Tests/Engine.antt =====
-- The theorems on src/engine at a permission server that asks once, and at lines of Claude and Codex.
use hugin_agent.Prelude.{
  ℕ, ◌≡◌, refl, true, false, Option, none, some, List, [], ◌∷◌, ◌==◌, if◌then◌else◌, arith, is_some,
  ◌&&◌, not,
}
use hugin_agent.Json.{
  Json, str, obj, arr, num, whole, null, nil, cons, Fields, end, field, get_field,
}
use hugin_agent.Conn.Outbound.{EngineEvent}
use hugin_agent.Jobs.Types.{allow}
use hugin_agent.Engine.Lines.{cut_line, complete, each_line}
use hugin_agent.Engine.Normalize.{Runtime, is_text, member, normalize_claude_line}
use hugin_agent.Engine.Normalize.Kinds.{AllKinds, normalized_kinds}
use hugin_agent.Engine.Normalize.Throws.{normalize_claude_line-throws_iff, is_line, malformed}
use hugin_agent.Engine.Codex.{normalize_codex_line}
use hugin_agent.Engine.Approval.{
  JsonText, ApprovalBridge, connects, sends, resolves, closes, decision_line, run, on_data, resolve,
  asks, writes, buffer_of,
}
use hugin_agent.Engine.Approval.Routing.{Fair, run-Fair, waiting, raised, answered}
use hugin_agent.Engine.Permission.{
  SocketEvent, received, ended, request_line, call_tool, allow_payload, tool_input, payload_of,
  request_decision,
}
use hugin_agent.Engine.Permission
use hugin_agent.Engine.Permission.FailClosed.{Some, Grants, received_text, allowed_is_granted}
use hugin_agent.Engine.Permission.Answered.{call_tool_answered}
use hugin_agent.Engine.Relayed.{Line, written, silent, outcome, decision_relayed}

-- A prompt and the decision on it, printed as the units 1 and 2.
abbrev request : Json
request = request_line "r1" "Bash" (str "ls")

abbrev decision : Json
decision = decision_line "r1" allow none

abbrev parse_unit : List ℕ → Option Json
parse_unit (c ∷ []) = if c == 1 then some request else if c == 2 then some decision else none
parse_unit _ = none

abbrev json : JsonText
json = record {
  stringify = λ v. if is_text (member v "t") "req" then 1 ∷ [] else 2 ∷ [];
  parse = parse_unit;
  string_of = λ v. "value";
}

abbrev bridge : ApprovalBridge
bridge = record { closed = false; listening = true; pending = []; sockets = []; trace = [] }

abbrev connected : ApprovalBridge
connected = record bridge { sockets = record { socket = 7; buf = [] } ∷ [] }

request-Line : Line json request
unfolding get_field cut_line
request-Line = record { one_line = refl; not_empty = λ h. cc; parsed = refl }

decision-Line : Line json decision
unfolding get_field cut_line
decision-Line = record { one_line = refl; not_empty = λ h. cc; parsed = refl }

bridge-Fair : Fair bridge
unfolding answered raised waiting
bridge-Fair = record { fair = λ s id. omega arith; heard = refl }

run-Fair_example : Fair (
    run json
      (connects 7 ∷ sends 7 (1 ∷ 10 ∷ []) silent ∷ resolves "r1" allow none ∷ closes ∷ [])
      bridge)
run-Fair_example =
    run-Fair json
      (connects 7 ∷ sends 7 (1 ∷ 10 ∷ []) silent ∷ resolves "r1" allow none ∷ closes ∷ []) bridge
      bridge-Fair

decision_relayed_example :
    let asked = on_data json silent 7 (written json request) connected in
    (asked.trace
      ≡ asks 7 (record { request_id = "r1"; tool_name = "Bash"; input = some (str "ls") }) ∷ [])
    × ((resolve "r1" allow none asked).trace ≡ writes 7 decision ∷ asked.trace)
    × (payload_of
          (str "ls")
          (request_decision json "r1"
            (received (written json decision) ∷ [])
            Permission.waiting).settled
        ≡ some (outcome (str "ls") allow none))
unfolding buffer_of
decision_relayed_example =
    decision_relayed json "r1" "Bash" (str "ls") allow none 7 connected refl refl request-Line
      decision-Line

abbrev arguments : Fields
arguments = field "tool_name" (str "Bash") (field "input" (str "ls") end)

allowed_is_granted_example :
    Some (Grants json "r1") (complete (received_text (received (2 ∷ 10 ∷ []) ∷ [])))
unfolding call_tool tool_input request_decision get_field Permission.payload each_line
    Permission.on_event cut_line
allowed_is_granted_example =
    allowed_is_granted json "r1" "/tmp/s.sock" arguments (received (2 ∷ 10 ∷ []) ∷ []) refl

call_tool_answered_example :
    (answer : Json) × ((later : List SocketEvent)
      → call_tool json (some "/tmp/s.sock") arguments "r1" (received (2 ∷ []) ∷ ended ∷ later)
        ≡ some answer)
call_tool_answered_example =
    call_tool_answered json "r1" "/tmp/s.sock" arguments (received (2 ∷ []) ∷ [])

abbrev runtime : Runtime
runtime = record { to_lower_case = λ s. s; text_of = λ v. some "Other-Kind" }

-- A block of an unknown type.
abbrev line : Json
line = obj (
    field "type" (str "assistant") (
      field "message"
        (obj (field "content" (arr (cons (obj (field "type" (num (whole 3)) end)) nil)) end)) end))

normalized_kinds_example :
    ((es : List EngineEvent) → normalize_claude_line runtime line ≡ some es → AllKinds es)
    × AllKinds (normalize_codex_line runtime line)
normalized_kinds_example = normalized_kinds runtime (λ s h. h) line

-- The same with a null for the block.
abbrev null_line : Json
null_line = obj (
    field "type" (str "assistant")
      (field "message" (obj (field "content" (arr (cons null nil)) end)) end))

normalize_claude_line-throws_iff_example :
    is_some (normalize_claude_line runtime null_line)
    ≡ not (is_line null_line && malformed runtime null_line)
normalize_claude_line-throws_iff_example = normalize_claude_line-throws_iff runtime null_line
