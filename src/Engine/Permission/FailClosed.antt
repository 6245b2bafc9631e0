-- ===== src/Engine/Permission/FailClosed.antt =====
-- What the permission server of src/engine/permission.ts returns to Claude: a tool is allowed on the word
-- of the daemon only.
use hugin_agent.Prelude.{
  ℕ, suc, ◌<◌, ◌≡◌, ◌≢◌, or_else, refl, sym, ap, ◌∙◌, ◌⊎◌, inl, inr, String, true, false, Option,
  none, some, List, [], ◌∷◌, ◌++◌, append_assoc, append-nil, length, Bool-cases, Option-cases,
  arith,
}
use mathlib.Core.Path.{subst}
use hugin_agent.Json.{Json, str, Fields, get_field}
use hugin_agent.Engine.Lines.{
  complete, tail, cut_line, cut_line-some, complete-append, each_line_inv,
}
use hugin_agent.Engine.Normalize.{member, is_text, coalesce}
use hugin_agent.Engine.Approval.{JsonText}
use hugin_agent.Engine.Permission.{
  Decision, Waiting, waiting, deny_broken, settle, answers, read_decision, handle_line, decided,
  SocketEvent, received, failed, ended, on_event, request_decision, allow_payload, deny_payload,
  payload, payload_of, tool_input, call_tool,
}

-- A line of the daemon that answers the request with `allow`.
abbrev pub Grants : JsonText → String → List ℕ → Type 0
Grants json id line =
    (m : Json) × (json.parse line ≡ some m)
    × (answers id m ≡ true)
    × (is_text (member m "decision") "allow" ≡ true)

abbrev pub Some {ℓ} : {A : Type ℓ} → (A → Type 0) → List A → Type 0
Some P [] = ⊥
Some P (x ∷ xs) = P x ⊎ Some P xs

Some-append_left {ℓ} :
    {A : Type ℓ} (P : A → Type 0) (xs ys : List A) → Some P xs → Some P (xs ++ ys)
Some-append_left P [] ys h = absurd h
Some-append_left P (x ∷ xs) ys (inl p) = inl p
Some-append_left P (x ∷ xs) ys (inr h) = inr (Some-append_left P xs ys h)

Some-append_right {ℓ} :
    {A : Type ℓ} (P : A → Type 0) (xs ys : List A) → Some P ys → Some P (xs ++ ys)
Some-append_right P [] ys h = h
Some-append_right P (x ∷ xs) ys h = inr (Some-append_right P xs ys h)

-- All that the daemon wrote.
abbrev pub received_text : List SocketEvent → List ℕ
received_text [] = []
received_text (received chunk ∷ es) = chunk ++ received_text es
received_text (failed ∷ es) = received_text es
received_text (ended ∷ es) = received_text es

abbrev after_event : List ℕ → SocketEvent → List ℕ
after_event all (received chunk) = all ++ chunk
after_event all failed = all
after_event all ended = all

abbrev Allows : Option Decision → Type 0
Allows none = ⊥
Allows (some d) = is_text d.decision "allow" ≡ true

denied-ne-allowed : (message input : Json) → deny_payload message ≢ allow_payload input
unfolding get_field
denied-ne-allowed message input h =
    let e : false ≡ true = ap (λ (j : Json). is_text (member j "behavior") "allow") h in cc

payload-allows :
    (input : Json) (d : Decision)
    → payload input d ≡ allow_payload input
    → is_text d.decision "allow" ≡ true
unfolding payload
payload-allows input d h = elim (Bool-cases (is_text d.decision "allow")) [
  | inl e ↦ e
  | inr e ↦
      let message = or_else (coalesce d.reason none) (str "denied by remote approver") in
      let denied : payload input d ≡ deny_payload message = ground arith in
      absurd (denied-ne-allowed message input (sym denied ∙ h))
]

payload_of-Allows :
    (input : Json) (settled : Option Decision)
    → payload_of input settled ≡ some (allow_payload input)
    → Allows settled
payload_of-Allows input none h = absurd (ground arith)
payload_of-Allows input (some d) h = payload-allows input d (cc)

text_after :
    (all : List ℕ) (e : SocketEvent) (es : List SocketEvent)
    → after_event all e ++ received_text es ≡ all ++ received_text (e ∷ es)
text_after all (received chunk) es = append_assoc all chunk (received_text es)
text_after all failed es = refl
text_after all ended es = refl

module _ (json : JsonText) (id : String) where
  -- With `all` received so far, an `allow` was granted in it, and the buffer is what is left of it.
  record Explained (all : List ℕ) (settled : Option Decision) (buf : List ℕ) : Type 0 where
    granted : Allows settled → Some (Grants json id) (complete all)
    lines : List (List ℕ)
    rest : complete all ≡ lines ++ complete buf
    last : tail all ≡ tail buf

  read_decision-Grants :
      (line : List ℕ) (d : Decision)
      → read_decision json id line ≡ some d
      → is_text d.decision "allow" ≡ true
      → Grants json id line
  unfolding read_decision
  read_decision-Grants [] d h a = absurd (ground arith)
  read_decision-Grants (c ∷ cs) d h a = elim (Option-cases (json.parse (c ∷ cs))) [
    | inl e ↦ absurd (ground arith)
    | inr (m, e) ↦ (m, e, ground arith, ground arith)
  ]

  handle_line-granted :
      (settled : Option Decision) (line : List ℕ)
      → Allows (handle_line json id line settled)
      → Allows settled ⊎ Grants json id line
  unfolding handle_line
  handle_line-granted (some d) line a = elim (Option-cases (read_decision json id line)) [
    | inl e ↦ inl (ground arith)
    | inr (d', e) ↦ inl (ground arith)
  ]
  handle_line-granted none line a = elim (Option-cases (read_decision json id line)) [
    | inl e ↦
        let same : handle_line json id line none ≡ none = ground arith in
        absurd (subst Allows same a)
    | inr (d, e) ↦ inr (read_decision-Grants line d e (ground arith))
  ]

  handle_line-Explained :
      (all : List ℕ) (settled : Option Decision) (buf line rest : List ℕ)
      → cut_line buf ≡ some (line, rest)
      → Explained all settled buf
      → Explained all (handle_line json id line settled) rest
  handle_line-Explained all settled buf line rest cut x = record {
    granted = λ a. elim (handle_line-granted settled line a) [
      | inl before ↦ x.granted before
      | inr g ↦
          subst (Some (Grants json id)) (sym parted)
            (Some-append_right (Grants json id) x.lines (line ∷ complete rest) (inl g))
    ];
    lines = x.lines ++ line ∷ [];
    rest = parted ∙ sym (append_assoc x.lines (line ∷ []) (complete rest));
    last = x.last ∙ parts.1;
  }
    where
      parts :
          (complete buf ≡ line ∷ complete rest)
          × (tail buf ≡ tail rest)
          × (length rest < length buf)
      parts = cut_line-some buf line rest cut

      parted : complete all ≡ x.lines ++ line ∷ complete rest
      parted = x.rest ∙ ap (◌++◌ x.lines) parts.0

  append-Explained :
      (all chunk : List ℕ) (settled : Option Decision) (buf : List ℕ)
      → Explained all settled buf
      → Explained (all ++ chunk) settled (buf ++ chunk)
  append-Explained all chunk settled buf x = record {
    granted = λ a. subst (Some (Grants json id)) (sym before.0) (
        Some-append_left (Grants json id) (complete all) (complete (tail all ++ chunk))
          (x.granted a));
    lines = x.lines;
    rest =
        before.0
        ∙ ap (λ ls. ls ++ complete (tail all ++ chunk)) x.rest
        ∙ append_assoc x.lines (complete buf) (complete (tail all ++ chunk))
        ∙ ap (λ t. x.lines ++ (complete buf ++ complete (t ++ chunk))) x.last
        ∙ ap (◌++◌ x.lines) (sym now.0);
    last = before.1 ∙ ap (λ t. tail (t ++ chunk)) x.last ∙ sym now.1;
  }
    where
      before :
          (complete (all ++ chunk) ≡ complete all ++ complete (tail all ++ chunk))
          × (tail (all ++ chunk) ≡ tail (tail all ++ chunk))
      before = complete-append all chunk

      now :
          (complete (buf ++ chunk) ≡ complete buf ++ complete (tail buf ++ chunk))
          × (tail (buf ++ chunk) ≡ tail (tail buf ++ chunk))
      now = complete-append buf chunk

  broken-Explained :
      (all : List ℕ) (settled : Option Decision) (buf : List ℕ)
      → Explained all settled buf
      → Explained all (settle deny_broken settled) buf
  broken-Explained all none buf x = record {
    granted = λ a. absurd (ground arith);
    lines = x.lines;
    rest = x.rest;
    last = x.last;
  }
  broken-Explained all (some d) buf x = x

  on_event-Explained :
      (all : List ℕ) (e : SocketEvent) (w : Waiting)
      → Explained all w.settled w.buf
      → Explained (after_event all e) (on_event json id e w).settled (on_event json id e w).buf
  unfolding on_event
  on_event-Explained all (received chunk) w x =
      each_line_inv (handle_line json id) (Explained (all ++ chunk))
        (handle_line-Explained (all ++ chunk)) decided (suc (length (w.buf ++ chunk))) w.settled
        (w.buf ++ chunk) (append-Explained all chunk w.settled w.buf x)
  on_event-Explained all failed w x = broken-Explained all w.settled w.buf x
  on_event-Explained all ended w x = broken-Explained all w.settled w.buf x

  request_decision-Explained :
      (es : List SocketEvent) (all : List ℕ) (w : Waiting)
      → Explained all w.settled w.buf
      → Explained
          (all ++ received_text es)
          (request_decision json id es w).settled
          (request_decision json id es w).buf
  unfolding request_decision
  request_decision-Explained [] all w x =
      subst (λ t. Explained t w.settled w.buf) (sym (append-nil all)) x
  request_decision-Explained (e ∷ es) all w x =
      let next = on_event json id e w in
      subst
        (λ t.
          Explained t (request_decision json id es next).settled
            (request_decision json id es next).buf)
        (text_after all e es)
        (request_decision-Explained es (after_event all e) next (on_event-Explained all e w x))

  -- A request is allowed only on a line that the daemon wrote, that is complete, and that answers this
  -- request with `allow`: by any other end of the connection the tool is denied or still waits.
  pub allowed_is_granted :
      (path : String) (args : Fields) (events : List SocketEvent)
      → call_tool json (some path) args id events ≡ some (allow_payload (tool_input args))
      → Some (Grants json id) (complete (received_text events))
  unfolding call_tool
  allowed_is_granted path args events h =
      let w = request_decision json id events waiting in
      let start : Explained [] none [] = record {
        granted = λ a. absurd a;
        lines = [];
        rest = refl;
        last = refl;
      } in
      let end = request_decision-Explained events [] waiting start in
      end.granted (payload_of-Allows (tool_input args) w.settled h)
