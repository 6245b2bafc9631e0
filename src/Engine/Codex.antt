-- ===== src/Engine/Codex.antt =====
-- `normalizeCodexLine` of src/engine/normalize.ts. It throws nothing.
use hugin_agent.Prelude.{
  String, Bool, false, not, ◌&&◌, ◌||◌, Option, none, some, List, [], ◌∷◌, str_eq, if◌then◌else◌,
  ◌<>◌, or_else,
}
use hugin_agent.Json.{
  Json, bool, str, arr, obj, Items, nil, cons, Fields, end, field, get_field, as_object, as_bool,
}
use hugin_agent.Conn.Outbound.{EngineEvent}
use hugin_agent.Jobs.Types.{codex}
use hugin_agent.Engine.Normalize.{
  Runtime, vendor_kind, coalesce, is_text, truthy, opt_field, is_string,
}

abbrev object_value : Option Json → Option Fields
object_value none = none
object_value (some v) = as_object v

-- A text that is not empty.
abbrev pub string_value : Option Json → Option String
string_value (some (str s)) = if str_eq s "" then none else some s
string_value _ = none

abbrev boolean_value : Option Json → Option Bool
boolean_value none = none
boolean_value (some v) = as_bool v

abbrev string_json : Option String → Option Json
string_json none = none
string_json (some s) = some (str s)

-- `string_value a ?? string_value b`
abbrev first_string : Option String → Option String → Option String
first_string none b = b
first_string (some a) b = some a

abbrev pub text_or_empty : Option Json → String
text_or_empty (some (str s)) = s
text_or_empty _ = ""

abbrev content_part : Json → String
content_part (obj fs) =
    let type = get_field fs "type" in
    if (is_text type "output_text" || is_text type "text") && is_string (get_field fs "text")
    then text_or_empty (get_field fs "text")
    else ""
content_part _ = ""

-- The texts of the parts, joined: a part without text adds nothing.
unfoldable pub content_texts : Items → String
unfolding ◌<>◌ get_field
content_texts nil = ""
content_texts (cons v vs) = content_part v <> content_texts vs

unfoldable codex_content_text : Option Json → String
unfolding content_texts
codex_content_text (some (str s)) = s
codex_content_text (some (arr vs)) = content_texts vs
codex_content_text _ = ""

unfoldable codex_assistant_text : Fields → String
unfolding codex_content_text get_field
codex_assistant_text item =
    let type = get_field item "type" in
    let role = get_field item "role" in
    let message = get_field item "message" in
    if (is_text type "agent_message" || is_text type "assistant_message") && is_string message
    then text_or_empty message
    else if is_text type "message" && is_text role "assistant"
    then codex_content_text (get_field item "content")
    else if (is_text role "assistant" || is_text type "assistant") && is_string message
    then text_or_empty message
    else ""

unfoldable is_codex_function_call : Fields → Bool
unfolding get_field
is_codex_function_call item =
    is_text (get_field item "type") "function_call" || is_string (get_field item "name")

-- `payload ?? objectValue(line.item) ?? objectValue(line.delta) ?? raw`
unfoldable pub candidate_of : Fields → Fields
unfolding get_field
candidate_of line = elim (object_value (get_field line "payload")) [
  | some fs ↦ fs
  | none ↦ elim (object_value (get_field line "item")) [
    | some fs ↦ fs
    | none ↦ or_else (object_value (get_field line "delta")) line
  ]
]

-- `[lineType, candidateType].filter(Boolean).join("_")`
abbrev pub joined_types : Option String → Option String → String
joined_types none none = ""
joined_types none (some b) = b
joined_types (some a) none = a
joined_types (some a) (some b) = a <> "_" <> b

abbrev call_id : Fields → Option Json
call_id item =
    string_json
      (first_string (string_value (get_field item "call_id")) (string_value (get_field item "id")))

unfoldable pub codex_event : Runtime → Fields → Fields → EngineEvent
unfolding codex_assistant_text is_codex_function_call vendor_kind get_field ◌<>◌
codex_event rt line item =
    let type = string_value (get_field item "type") in
    let text = codex_assistant_text item in
    if not (str_eq text "")
    then record { kind = "assistant_text"; fields = field "text" (str text) end }
    else if is_codex_function_call item
    then record {
      kind = "tool_use";
      fields = opt_field "tool_name" (string_json (string_value (get_field item "name"))) (
          opt_field "tool_use_id" (call_id item) (
            opt_field "input" (coalesce (get_field item "arguments") (get_field item "input"))
              end));
    }
    else if is_text (get_field item "type") "function_call_output"
    then record {
      kind = "tool_result";
      fields = opt_field "tool_use_id" (call_id item) (
          field "is_error" (bool (or_else (boolean_value (get_field item "is_error")) false)) (
            opt_field "content" (coalesce (get_field item "output") (get_field item "content"))
              end));
    }
    else if is_text (get_field item "type") "token_count"
        || truthy (get_field item "usage")
        || truthy (get_field line "usage")
    then record {
      kind = "usage";
      fields =
          opt_field "usage"
            (coalesce (get_field item "usage") (
              coalesce (get_field line "usage")
                (coalesce (get_field item "info") (some (obj item)))))
            end;
    }
    else record {
      kind = vendor_kind rt codex (joined_types (string_value (get_field line "type")) type);
      fields = field "raw" (obj line) end;
    }

unfoldable pub normalize_codex_line : Runtime → Json → List EngineEvent
unfolding codex_event candidate_of
normalize_codex_line rt (obj line) = codex_event rt line (candidate_of line) ∷ []
normalize_codex_line rt _ = []
