-- ===== src/Conn/Routing.antt =====
-- Handlers of src/conn/client.ts and the messages buffered before them: it makes no difference which
-- comes first.
use hugin_agent.Prelude.{
  ℕ, ◌≡◌, ◌≢◌, ◌⊎◌, inl, inr, refl, sym, ap, ◌∙◌, Bool, List, [], ◌∷◌, ◌++◌, map, append_assoc,
  append-nil, Bool-cases, if◌then◌else◌, true, arith,
}
use hugin_agent.Conn.Client.{
  Inbound, Codec, DecodeResult, decoded, payload_too_large, invalid_message, wrong_direction,
  wrong_state, decode_inbound, Delivery, handled, RelayClient, take_waiter, deliver,
  on_socket_message, is_accept, is_protocol_v2, drain, add_handler, on_message, step, run, frame,
}

drain-append :
    (h : ℕ) (ms : List Inbound) (m : Inbound) (trace : List Delivery)
    → drain h (ms ++ m ∷ []) trace ≡ handled h m ∷ drain h ms trace
unfolding drain
drain-append h [] m trace = refl
drain-append h (k ∷ ks) m trace = drain-append h ks m (handled h k ∷ trace)

pub decode_cases :
    (r : DecodeResult) → ((m : Inbound) × (r ≡ decoded m)) ⊎ ((m : Inbound) → r ≢ decoded m)
decode_cases (decoded m) = inl (m, refl)
decode_cases payload_too_large = inr (λ m e. ground arith)
decode_cases invalid_message = inr (λ m e. ground arith)
decode_cases wrong_direction = inr (λ m e. ground arith)
decode_cases wrong_state = inr (λ m e. ground arith)

-- A frame whose message is not decoded changes nothing.
pub refused_frame :
    (codec : Codec) (raw : List ℕ) (c : RelayClient)
    → ((m : Inbound) → decode_inbound codec c.authed c.v2 raw ≢ decoded m)
    → on_socket_message codec raw c ≡ c
unfolding on_socket_message
refused_frame codec raw c h = go (decode_inbound codec c.authed c.v2 raw) refl
  where
    go :
        (r : DecodeResult)
        → decode_inbound codec c.authed c.v2 raw ≡ r
        → on_socket_message codec raw c ≡ c
    go (decoded m) e = absurd (h m e)
    go payload_too_large e = ground arith
    go invalid_message e = ground arith
    go wrong_direction e = ground arith
    go wrong_state e = ground arith

frame_after_handler :
    (codec : Codec) (h : ℕ) (raw : List ℕ) (c : RelayClient)
    → c.waiters ≡ []
    → c.message_handlers ≡ []
    → on_socket_message codec raw (on_message h c) ≡ on_message h (on_socket_message codec raw c)
unfolding on_socket_message on_message deliver take_waiter add_handler
frame_after_handler codec h raw c idle none_yet =
    elim (decode_cases (decode_inbound codec c.authed c.v2 raw)) [
      | inl (m, e) ↦ ground (arith, e, drain-append h c.pending m c.trace)
      | inr no_message ↦
          refused_frame codec raw (on_message h c) no_message
          ∙ sym (ap (on_message h) (refused_frame codec raw c no_message))
    ]

-- The waiters and handlers are as they were.
frame_keeps :
    (codec : Codec) (raw : List ℕ) (c : RelayClient)
    → c.waiters ≡ []
    → c.message_handlers ≡ []
    → ((on_socket_message codec raw c).waiters ≡ [])
      × ((on_socket_message codec raw c).message_handlers ≡ [])
unfolding on_socket_message deliver take_waiter
frame_keeps codec raw c idle none_yet =
    elim (decode_cases (decode_inbound codec c.authed c.v2 raw)) [
      | inl (m, e) ↦ (ground (arith, e), ground (arith, e))
      | inr no_message ↦ (
        ap (λ (x : RelayClient). x.waiters) (refused_frame codec raw c no_message) ∙ idle,
        ap (λ (x : RelayClient). x.message_handlers) (refused_frame codec raw c no_message)
            ∙ none_yet,
      )
    ]

-- What the client accepts of some frames: the messages that are decoded in the phase it is in by then,
-- less an answer to the hello that it does not wait for.
unfoldable pub accepted : Codec → List (List ℕ) → Bool → Bool → Bool → List Inbound
unfolding is_accept
accepted codec [] authed v2 armed = []
accepted codec (raw ∷ rest) authed v2 armed =
    let same = accepted codec rest authed v2 armed in
    elim (decode_inbound codec authed v2 raw) [
      | decoded m ↦
          let next = accepted codec rest true (is_protocol_v2 m.negotiated_major) armed in
          if is_accept m.type then (if armed then m ∷ next else same) else m ∷ same
      | _ ↦ same
    ]

abbrev pub accepted_by : Codec → List (List ℕ) → RelayClient → List Inbound
accepted_by codec frames c = accepted codec frames c.authed c.v2 c.armed_for_accept

-- How a frame moves the client, which has neither waiter nor handler, and what is accepted of it.
buffered_frame :
    (codec : Codec) (raw : List ℕ) (rest : List (List ℕ)) (c : RelayClient)
    → c.waiters ≡ []
    → c.message_handlers ≡ []
    → let c' = on_socket_message codec raw c in
      (c'.pending ++ accepted_by codec rest c' ≡ c.pending ++ accepted_by codec (raw ∷ rest) c)
      × (c'.trace ≡ c.trace)
buffered_frame codec raw rest c idle none_yet = go (decode_inbound codec c.authed c.v2 raw) refl
  where
    Buffered : Type 0
    Buffered =
        ((on_socket_message codec raw c).pending
            ++ accepted_by codec rest (on_socket_message codec raw c)
          ≡ c.pending ++ accepted_by codec (raw ∷ rest) c)
        × ((on_socket_message codec raw c).trace ≡ c.trace)

    refused :
        ((m : Inbound) → decode_inbound codec c.authed c.v2 raw ≢ decoded m)
        → accepted_by codec (raw ∷ rest) c ≡ accepted_by codec rest c
        → Buffered
    refused no_message e = (
      ap (λ x. x.pending ++ accepted_by codec rest x) (refused_frame codec raw c no_message)
          ∙ ap (◌++◌ c.pending) (sym e),
      ap (λ (x : RelayClient). x.trace) (refused_frame codec raw c no_message),
    )

    go : (r : DecodeResult) → decode_inbound codec c.authed c.v2 raw ≡ r → Buffered
    go (decoded m) e =
        unfold on_socket_message deliver take_waiter accepted in
        (
          ground (
            arith,
            e,
            append_assoc c.pending (m ∷ [])
                (accepted codec rest true (is_protocol_v2 m.negotiated_major) c.armed_for_accept),
            append_assoc c.pending (m ∷ []) (accepted codec rest c.authed c.v2 c.armed_for_accept),
            Bool-cases (is_accept m.type),
          ),
          ground (arith, e),
        )
    go payload_too_large e = refused (λ m h. ground arith) (unfold accepted in ground arith)
    go invalid_message e = refused (λ m h. ground arith) (unfold accepted in ground arith)
    go wrong_direction e = refused (λ m h. ground arith) (unfold accepted in ground arith)
    go wrong_state e = refused (λ m h. ground arith) (unfold accepted in ground arith)

-- Without a waiter and a handler, what is accepted is buffered, in the order of arrival.
buffered :
    (codec : Codec) (frames : List (List ℕ)) (c : RelayClient)
    → c.waiters ≡ []
    → c.message_handlers ≡ []
    → ((run codec (map frame frames) c).pending ≡ c.pending ++ accepted_by codec frames c)
      × ((run codec (map frame frames) c).trace ≡ c.trace)
unfolding run step accepted
buffered codec [] c idle none_yet = (sym (append-nil c.pending), refl)
buffered codec (raw ∷ rest) c idle none_yet =
    let kept = frame_keeps codec raw c idle none_yet in
    let first = buffered_frame codec raw rest c idle none_yet in
    let later = buffered codec rest (on_socket_message codec raw c) kept.0 kept.1 in
    (later.0 ∙ first.0, later.1 ∙ first.1)

-- The record of messages that a handler was given in this order.
unfoldable pub given : ℕ → List Inbound → List Delivery
given h [] = []
given h (m ∷ ms) = given h ms ++ handled h m ∷ []

drain-given :
    (h : ℕ) (ms : List Inbound) (trace : List Delivery) → drain h ms trace ≡ given h ms ++ trace
unfolding drain given
drain-given h [] trace = refl
drain-given h (m ∷ ms) trace =
    drain-given h ms (handled h m ∷ trace)
    ∙ sym (append_assoc (given h ms) (handled h m ∷ []) trace)

frames_after_handler :
    (codec : Codec) (h : ℕ) (frames : List (List ℕ)) (c : RelayClient)
    → c.waiters ≡ []
    → c.message_handlers ≡ []
    → run codec (map frame frames) (on_message h c) ≡ on_message h (run codec (map frame frames) c)
unfolding run step
frames_after_handler codec h [] c idle none_yet = refl
frames_after_handler codec h (raw ∷ rest) c idle none_yet =
    let kept = frame_keeps codec raw c idle none_yet in
    ap (run codec (map frame rest)) (frame_after_handler codec h raw c idle none_yet)
    ∙ frames_after_handler codec h rest (on_socket_message codec raw c) kept.0 kept.1

-- With no waiter and no handler, registering a handler before or after any frames comes to the same: the
-- client ends in the same state. The handler is given the messages buffered before, then every message of
-- the frames that is accepted, each once and in the order of arrival.
pub handler_before_or_after :
    (codec : Codec) (h : ℕ) (frames : List (List ℕ)) (c : RelayClient)
    → c.waiters ≡ []
    → c.message_handlers ≡ []
    → (run codec (map frame frames) (on_message h c)
        ≡ on_message h (run codec (map frame frames) c))
      × ((run codec (map frame frames) (on_message h c)).trace
          ≡ given h (c.pending ++ accepted_by codec frames c) ++ c.trace)
unfolding on_message
handler_before_or_after codec h frames c idle none_yet =
    let same = frames_after_handler codec h frames c idle none_yet in
    let kept = buffered codec frames c idle none_yet in
    let later = run codec (map frame frames) c in
    (
      same,
      ap (λ (x : RelayClient). x.trace) same
          ∙ drain-given h later.pending later.trace
          ∙ ap (λ ms. given h ms ++ later.trace) kept.0
          ∙ ap (◌++◌ (given h (c.pending ++ accepted_by codec frames c))) kept.1,
    )
