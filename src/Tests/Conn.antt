-- ===== src/Tests/Conn.antt =====
-- Runs of src/conn/client.ts and src/conn/framing.ts.
use hugin_agent.Prelude.{
  ℕ, zero, suc, ◌≡◌, refl, true, Option, none, some, List, [], ◌∷◌, ◌++◌, map, inl,
}
use hugin_agent.Json.{Json, num, whole}
use hugin_agent.Protocol.Direction.{auth_challenge, hello_accepted, job_assign}
use hugin_agent.Conn.Client.{Inbound, Codec, initial, on_message, run, frame, waits, handles, arms}
use hugin_agent.Conn.Routing.{accepted_by, given, handler_before_or_after}
use hugin_agent.Conn.Buffer.Waiters.{Routed}
use hugin_agent.Conn.Buffer.{run-Routed}
use hugin_agent.Conn.Phase.{Unproven, frames-Unproven}

-- A frame of one byte: 0 is a challenge, 1 an acceptance, and all else an assignment.
abbrev codec : Codec
codec = record { parse = parse_byte; schema = λ v2 json. some (message json) }
  where
    parse_byte : List ℕ → Option Json
    parse_byte [] = none
    parse_byte (b ∷ bs) = some (num (whole b))

    message : Json → Inbound
    message (num (whole zero)) = record {
      type = auth_challenge;
      negotiated_major = none;
      body = "";
    }
    message (num (whole (suc zero))) = record {
      type = hello_accepted;
      negotiated_major = some 2;
      body = "";
    }
    message _ = record { type = job_assign; negotiated_major = none; body = "" }

abbrev frames : List (List ℕ)
frames = (0 ∷ []) ∷ (1 ∷ []) ∷ (2 ∷ []) ∷ []

initial-Routed : Routed initial
unfolding initial
initial-Routed = record { unwanted = tt; handled_first = inl refl }

initial-Unproven : Unproven initial
unfolding initial
initial-Unproven = record { not_authed = refl; not_armed = refl; buffered = tt; passed_on = tt }

handler_before_or_after_example :
    (run codec (map frame frames) (on_message 7 initial)
      ≡ on_message 7 (run codec (map frame frames) initial))
    × ((run codec (map frame frames) (on_message 7 initial)).trace
        ≡ given 7 (initial.pending ++ accepted_by codec frames initial) ++ initial.trace)
unfolding initial
handler_before_or_after_example = handler_before_or_after codec 7 frames initial refl refl

run-Routed_example : Routed (
    run codec (frame (0 ∷ []) ∷ waits (λ m. true) ∷ arms ∷ frame (1 ∷ []) ∷ handles 7 ∷ []) initial)
run-Routed_example =
    run-Routed codec (frame (0 ∷ []) ∷ waits (λ m. true) ∷ arms ∷ frame (1 ∷ []) ∷ handles 7 ∷ [])
      initial initial-Routed

frames-Unproven_example : Unproven (run codec (map frame frames) initial)
frames-Unproven_example = frames-Unproven codec frames initial initial-Unproven
