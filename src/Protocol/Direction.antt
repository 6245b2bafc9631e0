-- ===== src/Protocol/Direction.antt =====
-- Message types, their direction and the handshake phase: protocol/v1/messages.ts (`DIRECTION`,
-- `HANDSHAKE_TYPES`) and `validateInbound` of protocol/v1/index.ts.
use hugin_agent.Prelude.{◌≡◌, ◌↔◌, ◌⊎◌, Bool, true, false, not, ◌&&◌, if◌then◌else◌, arith}

pub data MessageType : Type 0 where
  auth_challenge hello hello_accepted hello_rejected : MessageType
  lease_renew lease_granted lease_revoke : MessageType
  job_assign job_accept job_reject stream_event stream_ack : MessageType
  approval_request approval_response job_status job_result job_result_ack job_cancel : MessageType
  heartbeat agent_draining capabilities_update nack error : MessageType
  session_list_request session_list_response : MessageType
  session_history_request session_history_response : MessageType
  session_resume_request session_cancel session_ack session_message : MessageType
  session_resume_accept session_resume_reject session_event : MessageType
  session_turn_result session_error : MessageType

-- Agent to server, server to agent.
pub data Dir : Type 0 where
  a2s s2a both : Dir

pub data Receiver : Type 0 where
  agent server : Receiver

unfoldable direction : MessageType → Dir
direction auth_challenge = s2a
direction hello = a2s
direction hello_accepted = s2a
direction hello_rejected = s2a
direction lease_renew = a2s
direction lease_granted = s2a
direction lease_revoke = s2a
direction job_assign = s2a
direction job_accept = a2s
direction job_reject = a2s
direction stream_event = a2s
direction stream_ack = s2a
direction approval_request = a2s
direction approval_response = s2a
direction job_status = a2s
direction job_result = a2s
direction job_result_ack = s2a
direction job_cancel = s2a
direction heartbeat = both
direction agent_draining = a2s
direction capabilities_update = a2s
direction nack = both
direction error = both
direction session_list_request = s2a
direction session_list_response = a2s
direction session_history_request = s2a
direction session_history_response = a2s
direction session_resume_request = s2a
direction session_cancel = s2a
direction session_ack = s2a
direction session_message = s2a
direction session_resume_accept = a2s
direction session_resume_reject = a2s
direction session_event = a2s
direction session_turn_result = a2s
direction session_error = a2s

-- `HANDSHAKE_TYPES.has(type)`
unfoldable handshake_type : MessageType → Bool
handshake_type auth_challenge = true
handshake_type hello = true
handshake_type hello_accepted = true
handshake_type hello_rejected = true
handshake_type nack = true
handshake_type error = true
handshake_type _ = false

pub data InboundCheck : Type 0 where
  ok bad_direction bad_state : InboundCheck

-- `allowed.includes(dir)`
abbrev direction_allowed : Receiver → Dir → Bool
direction_allowed agent s2a = true
direction_allowed agent both = true
direction_allowed agent a2s = false
direction_allowed server a2s = true
direction_allowed server both = true
direction_allowed server s2a = false

unfoldable pub validate_inbound : Receiver → Bool → MessageType → InboundCheck
unfolding direction handshake_type
validate_inbound receiver authed t =
    if not (direction_allowed receiver (direction t))
    then bad_direction
    else if not authed && not (handshake_type t)
    then bad_state
    else ok

-- What the agent may receive before its handshake completes, written out.
abbrev pub pre_auth : MessageType → Bool
pre_auth auth_challenge = true
pre_auth hello_accepted = true
pre_auth hello_rejected = true
pre_auth nack = true
pre_auth error = true
pre_auth _ = false

-- Before authentication the agent accepts the challenge, the two replies, a nack and an error, and
-- nothing else; authentication only widens what it accepts; and beyond the three types that go both
-- ways no type is accepted by the agent and by the server.
pub validate_inbound_phases :
    (t : MessageType)
    → ((validate_inbound agent false t ≡ ok) ↔ (pre_auth t ≡ true))
      × (validate_inbound agent false t ≡ ok → validate_inbound agent true t ≡ ok)
      × (validate_inbound agent true t ≡ ok
          → validate_inbound server true t ≡ ok
          → (t ≡ heartbeat) ⊎ ((t ≡ nack) ⊎ (t ≡ error)))
unfolding validate_inbound
validate_inbound_phases hello = (ground arith, ground arith, ground arith)
validate_inbound_phases _ = (ground arith, ground arith, ground arith)
