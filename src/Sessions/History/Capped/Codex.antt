-- ===== src/Sessions/History/Capped/Codex.antt =====
-- The entries of a transcript of Codex in src/sessions/history.ts are capped.
use hugin_agent.Prelude.{
  ℕ, zero, suc, String, Bool, true, false, Option, none, some, List, [], ◌∷◌, ◌++◌, if◌then◌else◌,
  length, arith, or_else,
}
use hugin_agent.Prelude.Map
use hugin_agent.Prelude.Map.{Map}
use hugin_agent.Json.{Fields, get_field}
use hugin_agent.Sessions.History.Bound.{HistoryEntry, HistoryRole, SessionToolCall}
use hugin_agent.Sessions.History.Texts.{Runtime, page_max, string_field, object_field}
use hugin_agent.Sessions.History.ToolCalls.{
  ToolEnrichment, build_tool_call, consume_tool_result, present, synthetic_codex_tool_call,
}
use hugin_agent.Sessions.History.Claude.{JsonlLine, role_of}
use hugin_agent.Sessions.History.Codex.{
  Building, Tables, modify_at, add_call, synthetic_entry, give_call, message_entry, add_message,
  add_codex_call, add_enrichment, build_line, build_lines, call_input, listed, LineKind, message,
  call, result, else_, kind_of, codex_enrichment,
}
use hugin_agent.Sessions.History.Capped.Calls.{
  AllOf, AllOf-append, AllOf-take, CappedCall, Capped, build_tool_call-CappedCall,
  synthetic-CappedCall, extract_codex-CappedText,
}
use hugin_agent.Sessions.History.Capped.Claude.{length-take-le}

pub add_call-Capped :
    (c : SessionToolCall) (e : HistoryEntry) → CappedCall c → Capped e → Capped (add_call c e)
add_call-Capped c e k h = record {
  content_short = h.content_short;
  content_cut = h.content_cut;
  few_calls = length-take-le page_max (e.tool_calls ++ c ∷ []);
  calls =
      AllOf-take CappedCall page_max (e.tool_calls ++ c ∷ [])
        (AllOf-append CappedCall e.tool_calls (c ∷ []) h.calls (k, tt));
}

pub modify_at-Capped :
    (i : ℕ) (c : SessionToolCall) (es : List HistoryEntry)
    → CappedCall c
    → AllOf Capped es
    → AllOf Capped (modify_at i (add_call c) es)
unfolding modify_at
modify_at-Capped i c [] k h = tt
modify_at-Capped zero c (e ∷ es) k h = (add_call-Capped c e k h.0, h.1)
modify_at-Capped (suc i) c (e ∷ es) k h = (h.0, modify_at-Capped i c es k h.1)

pub synthetic_entry-Capped :
    (rt : Runtime) (sid : String) (l : JsonlLine) → Capped (synthetic_entry rt sid l)
unfolding synthetic_entry
synthetic_entry-Capped rt sid l = record {
  content_short = omega arith;
  content_cut = λ h. absurd (ground arith);
  few_calls = omega arith;
  calls = tt;
}

pub give_call-Capped :
    (rt : Runtime) (sid : String) (l : JsonlLine) (c : SessionToolCall) (b : Building)
    → CappedCall c
    → AllOf Capped b.entries
    → AllOf Capped (give_call rt sid l c b).entries
unfolding give_call
give_call-Capped rt sid l c b k h = split b.current
  where
    split :
        (o : Option ℕ)
        → AllOf Capped
            (elim o as (λ x. Building) [
              | some i ↦ record b { entries = modify_at i (add_call c) b.entries }
              | none ↦ record b {
                entries = b.entries ++ add_call c (synthetic_entry rt sid l) ∷ [];
                current = some (length b.entries);
              }
            ]).entries
    split (some i) = modify_at-Capped i c b.entries k h
    split none =
        AllOf-append Capped b.entries (add_call c (synthetic_entry rt sid l) ∷ []) h
          (add_call-Capped c (synthetic_entry rt sid l) k (synthetic_entry-Capped rt sid l), tt)

pub message_entry-Capped :
    (rt : Runtime) (sid : String) (l : JsonlLine) (payload : Fields) (role : HistoryRole)
    → Capped (message_entry rt sid l payload role)
unfolding message_entry
message_entry-Capped rt sid l payload role =
    let text = extract_codex-CappedText rt (get_field payload "content") in
    record { content_short = text.0; content_cut = text.1; few_calls = omega arith; calls = tt }

pub add_message-Capped :
    (rt : Runtime) (sid : String) (l : JsonlLine) (payload : Fields) (o : Option HistoryRole)
    (b : Building)
    → AllOf Capped b.entries
    → AllOf Capped (add_message rt sid l payload o b).entries
unfolding add_message
add_message-Capped rt sid l payload none b h = h
add_message-Capped rt sid l payload (some role) b h =
    AllOf-append Capped b.entries (message_entry rt sid l payload role ∷ []) h
      (message_entry-Capped rt sid l payload role, tt)

pub add_codex_call-Capped :
    (rt : Runtime) (sid : String) (l : JsonlLine) (payload : Fields)
    (es : Map (List ToolEnrichment)) (b : Building)
    → AllOf Capped b.entries
    → AllOf Capped (add_codex_call rt sid l payload es b).entries
unfolding add_codex_call
add_codex_call-Capped rt sid l payload es b h =
    split (present (string_field payload "call_id")) (present (string_field payload "name"))
  where
    made : String → String → SessionToolCall
    made id name =
        build_tool_call rt id name (call_input payload) (consume_tool_result id b.left).0
          (or_else (Map.get es id) [])

    split :
        (o p : Option String)
        → AllOf Capped
            (elim o as (λ x. Building) [
              | none ↦ b
              | some id ↦ elim p as (λ x. Building) [
                | none ↦ b
                | some name ↦
                    give_call rt sid l
                      (made id name)
                      (record b { left = (consume_tool_result id b.left).1 })
              ]
            ]).entries
    split none p = h
    split (some id) none = h
    split (some id) (some name) =
        give_call-Capped rt sid l (made id name)
          (record b { left = (consume_tool_result id b.left).1 })
          (build_tool_call-CappedCall rt id name (call_input payload)
            (consume_tool_result id b.left).0 (or_else (Map.get es id) []))
          h

pub add_enrichment-Capped :
    (rt : Runtime) (sid : String) (l : JsonlLine) (ids : List String) (o : Option ToolEnrichment)
    (b : Building)
    → AllOf Capped b.entries
    → AllOf Capped (add_enrichment rt sid l ids o b).entries
unfolding add_enrichment
add_enrichment-Capped rt sid l ids none b h = h
add_enrichment-Capped rt sid l ids (some e) b h = split (listed (present e.call_id) ids)
  where
    split :
        (known : Bool)
        → AllOf Capped
            (if known then b else give_call rt sid l (synthetic_codex_tool_call rt e) b).entries
    split true = h
    split false =
        give_call-Capped rt sid l (synthetic_codex_tool_call rt e) b (synthetic-CappedCall rt e) h

pub build_line-Capped :
    (rt : Runtime) (sid : String) (t : Tables) (l : JsonlLine) (b : Building)
    → AllOf Capped b.entries
    → AllOf Capped (build_line rt sid t l b).entries
unfolding build_line
build_line-Capped rt sid t l b h = split (object_field l.rec "payload")
  where
    kinds :
        (payload : Fields) (k : LineKind)
        → AllOf Capped
            (elim k as (λ x. Building) [
              | message ↦ add_message rt sid l payload (role_of (get_field payload "role")) b
              | call ↦ add_codex_call rt sid l payload t.enrichments b
              | result ↦ add_enrichment rt sid l t.call_ids (codex_enrichment rt l payload) b
              | else_ ↦ add_enrichment rt sid l t.call_ids (codex_enrichment rt l payload) b
            ]).entries
    kinds payload message =
        add_message-Capped rt sid l payload (role_of (get_field payload "role")) b h
    kinds payload call = add_codex_call-Capped rt sid l payload t.enrichments b h
    kinds payload result =
        add_enrichment-Capped rt sid l t.call_ids (codex_enrichment rt l payload) b h
    kinds payload else_ =
        add_enrichment-Capped rt sid l t.call_ids (codex_enrichment rt l payload) b h

    split :
        (o : Option Fields)
        → AllOf Capped
            (elim o as (λ x. Building) [
              | none ↦ b
              | some payload ↦ elim (kind_of l.rec payload) as (λ x. Building) [
                | message ↦ add_message rt sid l payload (role_of (get_field payload "role")) b
                | call ↦ add_codex_call rt sid l payload t.enrichments b
                | result ↦ add_enrichment rt sid l t.call_ids (codex_enrichment rt l payload) b
                | else_ ↦ add_enrichment rt sid l t.call_ids (codex_enrichment rt l payload) b
              ]
            ]).entries
    split none = h
    split (some payload) = kinds payload (kind_of l.rec payload)

pub build_lines-Capped :
    (rt : Runtime) (sid : String) (t : Tables) (ls : List JsonlLine) (b : Building)
    → AllOf Capped b.entries
    → AllOf Capped (build_lines rt sid t ls b).entries
unfolding build_lines
build_lines-Capped rt sid t [] b h = h
build_lines-Capped rt sid t (l ∷ ls) b h =
    build_lines-Capped rt sid t ls (build_line rt sid t l b) (build_line-Capped rt sid t l b h)
