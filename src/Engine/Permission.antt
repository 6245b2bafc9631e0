-- ===== src/Engine/Permission.antt =====
-- The permission server of src/engine/permission.ts, that runs in a process of its own: `requestDecision`
-- and the handler of the tool `permission_prompt`.
pub mod FailClosed
pub mod Answered
use hugin_agent.Prelude.{
  ℕ, suc, String, Bool, true, false, ◌&&◌, Option, none, some, List, [], ◌∷◌, ◌++◌, str_eq,
  if◌then◌else◌, length, or_else, is_some,
}
use hugin_agent.Json.{Json, null, str, obj, Fields, end, field, get_field}
use hugin_agent.Engine.Lines.{newline, each_line}
use hugin_agent.Engine.Normalize.{member, coalesce, is_text, opt_field}
use hugin_agent.Engine.Approval.{JsonText}

-- What `requestDecision` resolves with; nothing checks the two fields of a line.
pub record Decision : Type 0 where
  pub decision : Option Json
  pub reason : Option Json

abbrev pub deny_broken : Decision
deny_broken = record {
  decision = some (str "deny");
  reason = some (str "approval channel unavailable (fail-closed)");
}

pub record Waiting : Type 0 where
  pub settled : Option Decision
  pub buf : List ℕ

abbrev pub waiting : Waiting
waiting = record { settled = none; buf = [] }

abbrev pub settle : Decision → Option Decision → Option Decision
settle d none = some d
settle d (some e) = some e

-- `ReqLine`, with which the server opens its connection.
abbrev pub request_line : String → String → Json → Json
request_line id tool_name input = obj (
    field "t" (str "req")
      (field "id" (str id) (field "tool_name" (str tool_name) (field "input" input end))))

abbrev pub answers : String → Json → Bool
answers id m = is_text (member m "t") "decision" && is_text (member m "id") id

-- `parse` fails, or reading a field of null does: the line is skipped.
unfoldable pub read_decision : JsonText → String → List ℕ → Option Decision
unfolding get_field
read_decision json id [] = none
read_decision json id (c ∷ cs) = elim (json.parse (c ∷ cs)) [
  | none ↦ none
  | some m ↦
      if answers id m
      then some (record { decision = member m "decision"; reason = member m "reason" })
      else none
]

unfoldable pub handle_line : JsonText → String → List ℕ → Option Decision → Option Decision
unfolding read_decision
handle_line json id line settled = elim (read_decision json id line) [
  | none ↦ settled
  | some d ↦ settle d settled
]

abbrev pub decided : Option Decision → Bool
decided settled = is_some settled

abbrev store : Option Decision × List ℕ → Waiting
store (settled, rest) = record { settled = settled; buf = rest }

-- The events of the socket.
pub data SocketEvent : Type 0 where
  received : List ℕ → SocketEvent
  failed : SocketEvent
  ended : SocketEvent

-- The handler of "data" returns with the first decision; what follows it has no effect.
unfoldable pub on_event : JsonText → String → SocketEvent → Waiting → Waiting
unfolding handle_line each_line
on_event json id (received chunk) w = store (
    each_line decided (handle_line json id) (suc (length (w.buf ++ chunk))) w.settled
      (w.buf ++ chunk))
on_event json id failed w = record w { settled = settle deny_broken w.settled }
on_event json id ended w = record w { settled = settle deny_broken w.settled }

unfoldable pub request_decision : JsonText → String → List SocketEvent → Waiting → Waiting
unfolding on_event
request_decision json id [] w = w
request_decision json id (e ∷ es) w = request_decision json id es (on_event json id e w)

abbrev pub allow_payload : Json → Json
allow_payload input = obj (field "behavior" (str "allow") (field "updatedInput" input end))

abbrev pub deny_payload : Json → Json
deny_payload message = obj (field "behavior" (str "deny") (field "message" message end))

-- What the tool returns once it has a decision.
unfoldable pub payload : Json → Decision → Json
payload input d =
    if is_text d.decision "allow"
    then allow_payload input
    else deny_payload (or_else (coalesce d.reason none) (str "denied by remote approver"))

-- `args.tool_name ?? args.toolName ?? "unknown"`
unfoldable pub tool_name : JsonText → Fields → String
unfolding get_field
tool_name json args =
    elim (coalesce (coalesce (get_field args "tool_name") (get_field args "toolName")) none) [
      | none ↦ "unknown"
      | some (str s) ↦ s
      | some v ↦ json.string_of v
    ]

unfoldable pub tool_input : Fields → Json
unfolding get_field
tool_input args = or_else (coalesce (get_field args "input") none) (obj end)

abbrev pub payload_of : Json → Option Decision → Option Json
payload_of input none = none
payload_of input (some d) = some (payload input d)

-- The handler of the tool: `none` while it waits. Without a path of a socket it denies at once.
unfoldable pub call_tool :
    JsonText → Option String → Fields → String → List SocketEvent → Option Json
unfolding tool_input request_decision payload
call_tool json none args id events =
    some (deny_payload (str "no approval socket configured (fail-closed)"))
call_tool json (some path) args id events =
    payload_of (tool_input args) (request_decision json id events waiting).settled
