-- ===== src/Conn/Client.antt =====
-- The client of the relay's socket: RelayClient of src/conn/client.ts, with `decodeInbound` of
-- src/conn/framing.ts. Handlers and waiters are functions in the program; here a waiter has a number
-- and a handler has one, and `trace` records, newest first, whom each message went to.
use hugin_agent.Prelude.{
  ℕ, suc, String, Bool, true, false, ◌||◌, Option, none, some, List, [], ◌∷◌, ◌++◌, ltb, leb, ◌==◌,
  if◌then◌else◌, length, filter,
}
use hugin_agent.Json.{Json}
use hugin_agent.Protocol.Direction.{
  MessageType, hello_accepted, InboundCheck, ok, bad_direction, bad_state, agent, validate_inbound,
}

-- A decoded message: its type, the negotiated version that `hello.accepted` carries, and what else it
-- says.
pub record Inbound : Type 0 where
  pub type : MessageType
  pub negotiated_major : Option ℕ
  pub body : String

-- `parse` is JSON.parse, on bytes; `schema` is the schema of version 1 or, if told so, version 2.
pub record Codec : Type 0 where
  pub parse : List ℕ → Option Json
  pub schema : Bool → Json → Option Inbound

pub data DecodeResult : Type 0 where
  decoded : Inbound → DecodeResult
  payload_too_large invalid_message wrong_direction wrong_state : DecodeResult

-- LIMITS.MAX_FRAME_BYTES
abbrev max_frame_bytes : ℕ
max_frame_bytes = 1048576

abbrev pub checked : Inbound → InboundCheck → DecodeResult
checked m ok = decoded m
checked m bad_direction = wrong_direction
checked m bad_state = wrong_state

-- For the agent as the receiver.
unfoldable pub decode_inbound : Codec → Bool → Bool → List ℕ → DecodeResult
decode_inbound codec authed v2 raw =
    if ltb max_frame_bytes (length raw) then payload_too_large else elim (codec.parse raw) [
      | none ↦ invalid_message
      | some json ↦ elim (codec.schema v2 json) [
        | none ↦ invalid_message
        | some m ↦ checked m (validate_inbound agent authed m.type)
      ]
    ]

-- `id` is the timer's, by which the timeout finds the waiter.
pub record Waiter : Type 0 where
  pub id : ℕ
  pub pred : Inbound → Bool

pub data Delivery : Type 0 where
  resolved : ℕ → Inbound → Delivery
  handled : ℕ → Inbound → Delivery
  rejected : ℕ → Delivery

pub record RelayClient : Type 0 where
  pub authed : Bool
  pub v2 : Bool
  pub armed_for_accept : Bool
  pub pending : List Inbound
  pub waiters : List Waiter
  pub waiter_count : ℕ
  pub message_handlers : List ℕ
  pub trace : List Delivery

unfoldable pub initial : RelayClient
initial = record {
  authed = false;
  v2 = false;
  armed_for_accept = false;
  pending = [];
  waiters = [];
  waiter_count = 0;
  message_handlers = [];
  trace = [];
}

-- `isProtocolV2`, on the major number of the version, absent if that is not an integer.
abbrev pub is_protocol_v2 : Option ℕ → Bool
is_protocol_v2 none = false
is_protocol_v2 (some major) = leb 2 major

-- The first waiter whose predicate holds, and the others.
unfoldable pub take_waiter : Inbound → List Waiter → Option (Waiter × List Waiter)
take_waiter m [] = none
take_waiter m (w ∷ ws) =
    let rest = take_waiter m ws in
    if w.pred m then some (w, ws) else elim rest [ none ↦ none | some (x, xs) ↦ some (x, w ∷ xs) ]

-- A message handed to every handler, in order of registration.
unfoldable pub call_handlers : List ℕ → Inbound → List Delivery → List Delivery
call_handlers [] m trace = trace
call_handlers (h ∷ hs) m trace = call_handlers hs m (handled h m ∷ trace)

unfoldable pub deliver : Inbound → RelayClient → RelayClient
unfolding take_waiter call_handlers
deliver m c = elim (take_waiter m c.waiters) [
  | some (w, ws) ↦ record c { waiters = ws; trace = resolved w.id m ∷ c.trace }
  | none ↦ elim c.message_handlers [
    | [] ↦ record c { pending = c.pending ++ m ∷ [] }
    | h ∷ hs ↦ record c { trace = call_handlers (h ∷ hs) m c.trace }
  ]
]

unfoldable pub is_accept : MessageType → Bool
is_accept hello_accepted = true
is_accept _ = false

-- The handler of the socket's "message" event.
unfoldable pub on_socket_message : Codec → List ℕ → RelayClient → RelayClient
unfolding deliver is_accept
on_socket_message codec raw c = elim (decode_inbound codec c.authed c.v2 raw) [
  | decoded m ↦
      if is_accept m.type
      then (if c.armed_for_accept
          then deliver m (record c { v2 = is_protocol_v2 m.negotiated_major; authed = true })
          else c)
      else deliver m c
  | _ ↦ c
]

-- The handler of the socket's "close" event, towards the waiters.
unfoldable reject_all : List Waiter → List Delivery → List Delivery
reject_all [] trace = trace
reject_all (w ∷ ws) trace = reject_all ws (rejected w.id ∷ trace)

unfoldable pub on_socket_close : RelayClient → RelayClient
unfolding reject_all
on_socket_close c = record c { waiters = []; trace = reject_all c.waiters c.trace }

unfoldable pub set_authed : Bool → RelayClient → RelayClient
set_authed b c = record c { authed = b }

unfoldable pub arm_for_accept : RelayClient → RelayClient
arm_for_accept c = record c { armed_for_accept = true }

unfoldable pub drain : ℕ → List Inbound → List Delivery → List Delivery
drain h [] trace = trace
drain h (m ∷ ms) trace = drain h ms (handled h m ∷ trace)

unfoldable has_handler : ℕ → List ℕ → Bool
has_handler h [] = false
has_handler h (x ∷ xs) = x == h || has_handler h xs

-- `Set.prototype.add`
unfoldable pub add_handler : ℕ → List ℕ → List ℕ
unfolding has_handler
add_handler h hs = if has_handler h hs then hs else hs ++ h ∷ []

-- `onMessage`
unfoldable pub on_message : ℕ → RelayClient → RelayClient
unfolding drain add_handler
on_message h c = record c {
  message_handlers = add_handler h c.message_handlers;
  pending = [];
  trace = drain h c.pending c.trace;
}

-- The function that `onMessage` returns.
unfoldable pub remove_handler : ℕ → RelayClient → RelayClient
remove_handler h c = record c {
  message_handlers = filter (λ x. if x == h then false else true) c.message_handlers;
}

unfoldable pub take_pending : (Inbound → Bool) → List Inbound → Option (Inbound × List Inbound)
take_pending pred [] = none
take_pending pred (m ∷ ms) =
    let rest = take_pending pred ms in
    if pred m then some (m, ms) else elim rest [ none ↦ none | some (x, xs) ↦ some (x, m ∷ xs) ]

-- `waitFor`: a buffered message resolves it at once, under the number that the waiter would have.
unfoldable pub wait_for : (Inbound → Bool) → RelayClient → RelayClient
unfolding take_pending
wait_for pred c = elim (take_pending pred c.pending) [
  | some (m, ms) ↦ record c {
    pending = ms;
    waiter_count = suc c.waiter_count;
    trace = resolved c.waiter_count m ∷ c.trace;
  }
  | none ↦ record c {
    waiters = c.waiters ++ record { id = c.waiter_count; pred = pred } ∷ [];
    waiter_count = suc c.waiter_count;
  }
]

unfoldable pub has_waiter : ℕ → List Waiter → Bool
has_waiter id [] = false
has_waiter id (w ∷ ws) = w.id == id || has_waiter id ws

unfoldable pub wait_times_out : ℕ → RelayClient → RelayClient
unfolding has_waiter
wait_times_out id c =
    if has_waiter id c.waiters
    then record c {
      waiters = filter (λ w. if w.id == id then false else true) c.waiters;
      trace = rejected id ∷ c.trace;
    }
    else c

pub data Step : Type 0 where
  frame : List ℕ → Step
  closes : Step
  authenticates : Bool → Step
  arms : Step
  handles : ℕ → Step
  unhandles : ℕ → Step
  waits : (Inbound → Bool) → Step
  times_out : ℕ → Step

unfoldable pub step : Codec → Step → RelayClient → RelayClient
step codec (frame raw) c = on_socket_message codec raw c
step codec closes c = on_socket_close c
step codec (authenticates b) c = set_authed b c
step codec arms c = arm_for_accept c
step codec (handles h) c = on_message h c
step codec (unhandles h) c = remove_handler h c
step codec (waits pred) c = wait_for pred c
step codec (times_out id) c = wait_times_out id c

unfoldable pub run : Codec → List Step → RelayClient → RelayClient
run codec [] c = c
run codec (s ∷ ss) c = run codec ss (step codec s c)
