-- ===== src/Sessions/History/Codex/Lines.antt =====
-- The lines of a transcript of Codex, and the first loop of buildCodexHistoryEntries of src/sessions/history.ts.
use hugin_agent.Prelude.{
  ℕ, String, not, ◌||◌, Option, none, some, List, [], ◌∷◌, ◌++◌, if◌then◌else◌, or_else,
}
use hugin_agent.Prelude.Map
use hugin_agent.Prelude.Map.{Map}
use hugin_agent.Json.{Json, bool, num, Fields, get_field}
use hugin_agent.Engine.Normalize.{is_text}
use hugin_agent.Sessions.History.Texts.{
  Runtime, string_field, object_field, any_of, tool_value_to_string, status_from_payload,
}
use hugin_agent.Sessions.History.ToolCalls.{
  ToolResults, push_tool_result, ToolEnrichment, present, codex_tool_result,
}
use hugin_agent.Sessions.History.Claude.{JsonlLine}

-- What a line is, by the type of the record and of its payload.
pub data LineKind : Type 0 where
  message call result else_ : LineKind

unfoldable pub kind_of : Fields → Fields → LineKind
unfolding get_field
kind_of rec payload =
    let type = string_field payload "type" in
    if is_text (get_field rec "type") "response_item"
    then if any_of type ("message" ∷ [])
      then message
      else if any_of type ("function_call" ∷ "custom_tool_call" ∷ [])
      then call
      else if any_of type ("function_call_output" ∷ "custom_tool_call_output" ∷ [])
      then result
      else else_
    else else_

abbrev pub spaced : List ℕ → List ℕ → List ℕ
spaced a b = a ++ 32 ∷ b

-- `name=value`, where the value is not empty.
abbrev pub labelled : Runtime → String → List ℕ → List ℕ → List ℕ
labelled rt name [] text = text
labelled rt name (c ∷ cs) text = spaced text (rt.units name ++ (c ∷ cs))

abbrev pub bool_text : Runtime → Option Json → List ℕ
bool_text rt (some (bool b)) = rt.print (bool b)
bool_text rt _ = []

abbrev pub number_text : Runtime → Option Json → List ℕ
number_text rt (some (num n)) = rt.print (num n)
number_text rt _ = []

abbrev pub printed : Runtime → Option Json → List ℕ
printed rt none = []
printed rt (some v) = rt.print v

abbrev pub status_text : Runtime → Option String → List ℕ
status_text rt none = []
status_text rt (some s) = rt.units s

-- `summarizeCodexEnrichment`, of a payload whose type is `type`.
unfoldable pub summarize_codex_enrichment : Runtime → String → Fields → List ℕ
unfolding get_field tool_value_to_string
summarize_codex_enrichment rt type payload =
    let a = rt.units type in
    let b = labelled rt "status=" (status_text rt (string_field payload "status")) a in
    let c = labelled rt "success=" (bool_text rt (get_field payload "success")) b in
    let d = labelled rt "exit_code=" (number_text rt (get_field payload "exit_code")) c in
    let e = labelled rt "changes=" (printed rt (get_field payload "changes")) d in
    let f = labelled rt "stdout=" (tool_value_to_string rt (get_field payload "stdout")) e in
    labelled rt "stderr=" (tool_value_to_string rt (get_field payload "stderr")) f

unfoldable pub enrichment_of : Runtime → JsonlLine → Fields → String → String → ToolEnrichment
unfolding summarize_codex_enrichment status_from_payload
enrichment_of rt line payload type name = record {
  line_index = line.line_index;
  call_id = string_field payload "call_id";
  name = name;
  output = summarize_codex_enrichment rt type payload;
  status = status_from_payload rt payload;
}

unfoldable pub codex_enrichment : Runtime → JsonlLine → Fields → Option ToolEnrichment
unfolding enrichment_of get_field
codex_enrichment rt line payload =
    let type = string_field payload "type" in
    if not (
      is_text (get_field line.rec "type") "event_msg"
      || is_text (get_field line.rec "type") "response_item")
    then none
    else if any_of type ("patch_apply_end" ∷ [])
    then some (enrichment_of rt line payload "patch_apply_end" "apply_patch")
    else if any_of type ("exec_command_end" ∷ [])
    then some (enrichment_of rt line payload "exec_command_end" "exec_command")
    else none

-- The three tables that the first loop fills.
pub record Tables : Type 0 where
  pub results : ToolResults
  pub enrichments : Map (List ToolEnrichment)
  pub call_ids : List String

abbrev pub note_call : Option String → Tables → Tables
note_call none t = t
note_call (some id) t = record t { call_ids = id ∷ t.call_ids }

abbrev pub note_result : Runtime → Fields → Option String → Tables → Tables
unfolding push_tool_result codex_tool_result
note_result rt payload none t = t
note_result rt payload (some id) t = record t {
  results = push_tool_result id (codex_tool_result rt payload) t.results;
}

abbrev pub note_enrichment : ToolEnrichment → Option String → Tables → Tables
unfolding Map.get Map.set
note_enrichment e none t = t
note_enrichment e (some id) t = record t {
  enrichments = Map.set t.enrichments id (or_else (Map.get t.enrichments id) [] ++ e ∷ []);
}

abbrev pub note_other : Option ToolEnrichment → Tables → Tables
note_other none t = t
note_other (some e) t = note_enrichment e (present e.call_id) t

unfoldable pub note_line : Runtime → JsonlLine → Tables → Tables
unfolding kind_of codex_enrichment
note_line rt line t = elim (object_field line.rec "payload") [
  | none ↦ t
  | some payload ↦ elim (kind_of line.rec payload) [
    | call ↦ note_call (present (string_field payload "call_id")) t
    | result ↦ note_result rt payload (present (string_field payload "call_id")) t
    | message ↦ note_other (codex_enrichment rt line payload) t
    | else_ ↦ note_other (codex_enrichment rt line payload) t
  ]
]

unfoldable pub note_lines : Runtime → List JsonlLine → Tables → Tables
unfolding note_line
note_lines rt [] t = t
note_lines rt (l ∷ ls) t = note_lines rt ls (note_line rt l t)
