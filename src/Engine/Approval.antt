-- ===== src/Engine/Approval.antt =====
-- The bridge of src/engine/permission.ts between the daemon and the permission servers that Claude
-- starts: the daemon's half, `ApprovalBridge`, and `requestDecision` with the tool handler of the other.
-- A chunk of a socket is its text, a list of UTF-16 units.
pub mod Routing
use hugin_agent.Prelude.{
  ℕ, zero, suc, String, Bool, true, false, not, ◌&&◌, ◌||◌, Option, none, some, List, [], ◌∷◌, ◌++◌,
  ◌==◌, str_eq, if◌then◌else◌, length, filter, or_else,
}
use hugin_agent.Prelude.Map
use hugin_agent.Prelude.Map.{Map}
use hugin_agent.Json.{Json, null, str, obj, Fields, end, field, get_field}
use hugin_agent.Jobs.Types.{ApprovalDecision, allow, deny}
use hugin_agent.Engine.Lines.{each_line}
use hugin_agent.Engine.Normalize.{member, coalesce, is_text, opt_field}

-- JSON text, and `String(value)` for a value that is neither undefined nor null.
-- A value on which `String` throws ends the daemon; nothing is said of what comes after one.
pub record JsonText : Type 0 where
  pub stringify : Json → List ℕ
  pub parse : List ℕ → Option Json
  pub string_of : Json → String

abbrev decision_text : ApprovalDecision → String
decision_text allow = "allow"
decision_text deny = "deny"

-- What `onRequest` is called with.
pub record ToolRequest : Type 0 where
  pub request_id : String
  pub tool_name : String
  pub input : Option Json

-- How the callback answers within its call, if it does.
pub record Answer : Type 0 where
  pub decision : ApprovalDecision
  pub reason : Option String

-- A request is noted with the socket that raised it.
pub data Effect : Type 0 where
  asks : ℕ → ToolRequest → Effect
  writes : ℕ → Json → Effect
  destroys : ℕ → Effect

-- A connection with the text that it has not completed to a line.
pub record Connection : Type 0 where
  pub socket : ℕ
  pub buf : List ℕ

-- The trace is newest first.
pub record ApprovalBridge : Type 0 where
  pub closed : Bool
  pub listening : Bool
  pub pending : Map ℕ
  pub sockets : List Connection
  pub trace : List Effect

abbrev reason_json : Option String → Option Json
reason_json none = none
reason_json (some r) = some (str r)

-- `DecisionLine`; an undefined reason is not printed.
abbrev pub decision_line : String → ApprovalDecision → Option String → Json
decision_line id decision reason = obj (
    field "t" (str "decision") (
      field "id" (str id) (
        field "decision" (str (decision_text decision))
          (opt_field "reason" (reason_json reason) end))))

abbrev emit : Effect → ApprovalBridge → ApprovalBridge
emit e b = record b { trace = e ∷ b.trace }

-- `resolve`
unfoldable pub resolve : String → ApprovalDecision → Option String → ApprovalBridge → ApprovalBridge
unfolding Map.get Map.remove
resolve id decision reason b = elim (Map.get b.pending id) [
  | none ↦ b
  | some socket ↦
      emit (writes socket (decision_line id decision reason))
        (record b { pending = Map.remove b.pending id })
]

-- The `onRequest` callback, which may call `resolve` before it returns.
abbrev pub call_back : (ToolRequest → Option Answer) → ToolRequest → ApprovalBridge → ApprovalBridge
call_back answer req b = elim (answer req) [
  | none ↦ b
  | some a ↦ resolve req.request_id a.decision a.reason b
]

-- `String(m.tool_name ?? "unknown")`
abbrev name_of : JsonText → Option Json → String
name_of json none = "unknown"
name_of json (some (str s)) = s
name_of json (some v) = json.string_of v

-- One request of a connection.
unfoldable pub accept_request :
    (ToolRequest → Option Answer) → ℕ → ToolRequest → ApprovalBridge → ApprovalBridge
unfolding Map.set resolve
accept_request answer socket req b =
    let asked = record b { pending = Map.set b.pending req.request_id socket } in
    if b.listening then call_back answer req (emit (asks socket req) asked) else asked

-- A line as a request: `none` where it is skipped.
unfoldable pub read_request : JsonText → List ℕ → Option ToolRequest
unfolding get_field
read_request json [] = none
read_request json (c ∷ cs) = elim (json.parse (c ∷ cs)) [
  | none ↦ none
  | some m ↦ elim (member m "id") [
    | some (str id) ↦
        if is_text (member m "t") "req"
        then some (record {
          request_id = id;
          tool_name = name_of json (coalesce (member m "tool_name") none);
          input = member m "input";
        })
        else none
    | _ ↦ none
  ]
]

unfoldable pub handle_line :
    JsonText → (ToolRequest → Option Answer) → ℕ → List ℕ → ApprovalBridge → ApprovalBridge
unfolding read_request accept_request
handle_line json answer socket line b = elim (read_request json line) [
  | none ↦ b
  | some req ↦ accept_request answer socket req b
]

unfoldable pub buffer_of : ℕ → List Connection → Option (List ℕ)
buffer_of socket [] = none
buffer_of socket (c ∷ cs) = if c.socket == socket then some c.buf else buffer_of socket cs

unfoldable pub set_buffer : ℕ → List ℕ → List Connection → List Connection
set_buffer socket buf [] = []
set_buffer socket buf (c ∷ cs) =
    if c.socket == socket then record c { buf = buf } ∷ cs else c ∷ set_buffer socket buf cs

abbrev pub store_rest : ℕ → ApprovalBridge × List ℕ → ApprovalBridge
store_rest socket (b, rest) = record b { sockets = set_buffer socket rest b.sockets }

abbrev pub never : ApprovalBridge → Bool
never b = false

-- The "data" event. A socket that is destroyed or gone has none.
unfoldable pub on_data :
    JsonText → (ToolRequest → Option Answer) → ℕ → List ℕ → ApprovalBridge → ApprovalBridge
unfolding handle_line buffer_of set_buffer each_line
on_data json answer socket chunk b = elim (buffer_of socket b.sockets) [
  | none ↦ b
  | some buf ↦ store_rest socket (
      each_line never (handle_line json answer socket) (suc (length (buf ++ chunk))) b
        (buf ++ chunk))
]

unfoldable pub on_connection : ℕ → ApprovalBridge → ApprovalBridge
on_connection socket b = record b { sockets = record { socket = socket; buf = [] } ∷ b.sockets }

abbrev other_than : ℕ → Connection → Bool
other_than socket c = not (c.socket == socket)

unfoldable pub drop_pending : ℕ → Map ℕ → Map ℕ
drop_pending socket [] = []
drop_pending socket ((id, s) ∷ m) =
    let rest = drop_pending socket m in if s == socket then rest else (id, s) ∷ rest

-- The "close" event.
unfoldable pub on_close : ℕ → ApprovalBridge → ApprovalBridge
unfolding drop_pending
on_close socket b = record b {
  sockets = filter (other_than socket) b.sockets;
  pending = drop_pending socket b.pending;
}

abbrev pub destroy_all : List Connection → List Effect → List Effect
destroy_all [] trace = trace
destroy_all (c ∷ cs) trace = destroy_all cs (destroys c.socket ∷ trace)

-- `close`; unlinking the socket's path is left out.
unfoldable pub close : ApprovalBridge → ApprovalBridge
close b = if b.closed then b else record b {
  closed = true;
  pending = [];
  sockets = [];
  trace = destroy_all b.sockets b.trace;
}

-- `onRequest`
unfoldable pub on_request : ApprovalBridge → ApprovalBridge
on_request b = record b { listening = true }

-- What happens to a bridge; a server that is closed gets no connection.
pub data Input : Type 0 where
  connects : ℕ → Input
  sends : ℕ → List ℕ → (ToolRequest → Option Answer) → Input
  disconnects : ℕ → Input
  listens : Input
  resolves : String → ApprovalDecision → Option String → Input
  closes : Input

unfoldable pub step : JsonText → Input → ApprovalBridge → ApprovalBridge
unfolding on_connection on_data on_close on_request resolve close
step json (connects s) b = if b.closed then b else on_connection s b
step json (sends s chunk answer) b = on_data json answer s chunk b
step json (disconnects s) b = on_close s b
step json listens b = on_request b
step json (resolves id decision reason) b = resolve id decision reason b
step json closes b = close b

unfoldable pub run : JsonText → List Input → ApprovalBridge → ApprovalBridge
run json [] b = b
run json (i ∷ is) b = run json is (step json i b)
