-- ===== src/Conn/Phase.antt =====
-- What src/conn/client.ts lets in before the signed `hello` is sent.
use hugin_agent.Prelude.{
  ℕ, ◌≡◌, inl, inr, refl, sym, ap, ◌∙◌, Bool, true, false, none, List, [], ◌∷◌, ◌++◌, map,
  Option-cases, Bool-cases, arith,
}
use mathlib.Core.Path.{subst}
use hugin_agent.Protocol.Direction.{
  InboundCheck, ok, bad_direction, bad_state, validate_inbound, agent, pre_auth,
  validate_inbound_phases,
}
use hugin_agent.Conn.Client.{
  Inbound, Codec, decoded, decode_inbound, checked, Delivery, resolved, handled, rejected,
  RelayClient, take_waiter, call_handlers, deliver, is_accept, on_socket_message, run, step, frame,
}
use hugin_agent.Conn.Routing.{decode_cases, refused_frame}

-- The message is one of the pre-authentication phase, and not an acceptance.
abbrev Early : Inbound → Type 0
Early m = (pre_auth m.type ≡ true) × (is_accept m.type ≡ false)

abbrev EarlyDelivery : Delivery → Type 0
EarlyDelivery (resolved id m) = Early m
EarlyDelivery (handled h m) = Early m
EarlyDelivery (rejected id) = Unit

abbrev AllEarly : List Inbound → Type 0
AllEarly [] = Unit
AllEarly (m ∷ ms) = Early m × AllEarly ms

abbrev AllEarlyDeliveries : List Delivery → Type 0
AllEarlyDeliveries [] = Unit
AllEarlyDeliveries (d ∷ ds) = EarlyDelivery d × AllEarlyDeliveries ds

-- Neither authenticated nor armed, with only early messages buffered or passed on.
pub record Unproven (c : RelayClient) : Type 0 where
  pub not_authed : c.authed ≡ false
  pub not_armed : c.armed_for_accept ≡ false
  pub buffered : AllEarly c.pending
  pub passed_on : AllEarlyDeliveries c.trace

decoded_allowed :
    (codec : Codec) (v2 : Bool) (raw : List ℕ) (m : Inbound)
    → decode_inbound codec false v2 raw ≡ decoded m
    → pre_auth m.type ≡ true
unfolding decode_inbound
decoded_allowed codec v2 raw m h = elim (Option-cases (codec.parse raw)) [
  | inl bad ↦ absurd (ground arith)
  | inr (json, parsed) ↦ elim (Option-cases (codec.schema v2 json)) [
    | inl bad ↦ absurd (ground arith)
    | inr (n, valid) ↦ allowed n (validate_inbound agent false n.type) refl (ground arith)
  ]
]
  where
    allowed :
        (n : Inbound) (check : InboundCheck)
        → validate_inbound agent false n.type ≡ check
        → checked n check ≡ decoded m
        → pre_auth m.type ≡ true
    allowed n ok e same = ground (arith, e, same, (validate_inbound_phases n.type).0)
    allowed n bad_direction e same = absurd (ground arith)
    allowed n bad_state e same = absurd (ground arith)

AllEarly-append :
    (ms : List Inbound) (m : Inbound) → AllEarly ms → Early m → AllEarly (ms ++ m ∷ [])
AllEarly-append [] m all e = (e, tt)
AllEarly-append (k ∷ ks) m all e = (all.0, AllEarly-append ks m all.1 e)

call_handlers-AllEarlyDeliveries :
    (hs : List ℕ) (m : Inbound) (trace : List Delivery)
    → Early m
    → AllEarlyDeliveries trace
    → AllEarlyDeliveries (call_handlers hs m trace)
unfolding call_handlers
call_handlers-AllEarlyDeliveries [] m trace e all = all
call_handlers-AllEarlyDeliveries (h ∷ hs) m trace e all =
    call_handlers-AllEarlyDeliveries hs m (handled h m ∷ trace) e (e, all)

deliver-Unproven : (m : Inbound) (c : RelayClient) → Early m → Unproven c → Unproven (deliver m c)
unfolding deliver
deliver-Unproven m c e u = elim (Option-cases (take_waiter m c.waiters)) [
  | inr ((w, ws), found) ↦
      let same : record c { waiters = ws; trace = resolved w.id m ∷ c.trace } ≡ deliver m c =
        ground arith in
      subst Unproven same (record {
        not_authed = u.not_authed;
        not_armed = u.not_armed;
        buffered = u.buffered;
        passed_on = (e, u.passed_on);
      })
  | inl missed ↦ by_handlers c.message_handlers refl missed
]
  where
    by_handlers :
        (hs : List ℕ)
        → c.message_handlers ≡ hs
        → take_waiter m c.waiters ≡ none
        → Unproven (deliver m c)
    by_handlers [] nobody missed =
        let same : record c { pending = c.pending ++ m ∷ [] } ≡ deliver m c = ground arith in
        subst Unproven same (record {
          not_authed = u.not_authed;
          not_armed = u.not_armed;
          buffered = AllEarly-append c.pending m u.buffered e;
          passed_on = u.passed_on;
        })
    by_handlers (h ∷ hs) some_handler missed =
        let same : record c { trace = call_handlers (h ∷ hs) m c.trace } ≡ deliver m c =
          ground arith in
        subst Unproven same (record {
          not_authed = u.not_authed;
          not_armed = u.not_armed;
          buffered = u.buffered;
          passed_on = call_handlers-AllEarlyDeliveries (h ∷ hs) m c.trace e u.passed_on;
        })

on_socket_message-Unproven :
    (codec : Codec) (raw : List ℕ) (c : RelayClient)
    → Unproven c
    → Unproven (on_socket_message codec raw c)
unfolding on_socket_message
on_socket_message-Unproven codec raw c u =
    elim (decode_cases (decode_inbound codec c.authed c.v2 raw)) [
      | inr no_message ↦ subst Unproven (sym (refused_frame codec raw c no_message)) u
      | inl (m, d) ↦ elim (Bool-cases (is_accept m.type)) [
        | inl accept ↦
            let same : c ≡ on_socket_message codec raw c = ground (arith, d, u.not_armed) in
            subst Unproven same u
        | inr other ↦
            let same : deliver m c ≡ on_socket_message codec raw c = ground (arith, d) in
            let early =
              decoded_allowed codec c.v2 raw m
                (ap (λ a. decode_inbound codec a c.v2 raw) (sym u.not_authed) ∙ d) in
            subst Unproven same (deliver-Unproven m c (early, other) u)
      ]
    ]

-- Whatever frames the relay sends before the client is armed, the client stays unauthenticated, no
-- `hello.accepted` is buffered or passed on, and neither is a message outside the pre-authentication
-- phase: an acceptance cannot precede the proof of possession that it accepts.
pub frames-Unproven :
    (codec : Codec) (frames : List (List ℕ)) (c : RelayClient)
    → Unproven c
    → Unproven (run codec (map frame frames) c)
unfolding run step
frames-Unproven codec [] c u = u
frames-Unproven codec (raw ∷ rest) c u =
    frames-Unproven codec rest (on_socket_message codec raw c)
      (on_socket_message-Unproven codec raw c u)
