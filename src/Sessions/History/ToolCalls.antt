-- ===== src/Sessions/History/ToolCalls.antt =====
-- Tool calls and their results in a transcript: src/sessions/history.ts.
use hugin_agent.Prelude.{
  ℕ, String, Bool, true, false, ◌||◌, Option, none, some, List, [], ◌∷◌, ◌++◌, str_eq,
  if◌then◌else◌, or_else, filter,
}
use hugin_agent.Prelude.Map
use hugin_agent.Prelude.Map.{Map}
use hugin_agent.Json.{Json, Fields, get_field}
use hugin_agent.Engine.Normalize.{coalesce}
use hugin_agent.Sessions.History.Bound.{SessionToolCall, ToolStatus, ok, error}
use hugin_agent.Sessions.History.Texts.{
  Runtime, tool_io_cap, cap_string, string_field, join_lines, any_of, tool_value_to_string,
  status_from_payload,
}

pub record ToolResult : Type 0 where
  pub output : List ℕ
  pub status : ToolStatus

-- `resultById`: the results of a call that are not consumed yet, oldest first.
abbrev pub ToolResults : Type 0
ToolResults = Map (List ToolResult)

unfoldable pub push_tool_result : String → ToolResult → ToolResults → ToolResults
unfolding Map.get Map.set
push_tool_result id result m = elim (Map.get m id) [
  | some existing ↦ Map.set m id (existing ++ result ∷ [])
  | none ↦ Map.set m id (result ∷ [])
]

-- `consumeToolResult`: the oldest result of the call; the last one takes its key away.
unfoldable pub consume_tool_result : String → ToolResults → Option ToolResult × ToolResults
unfolding Map.get Map.set Map.remove
consume_tool_result id m = elim (Map.get m id) [
  | none ↦ (none, m)
  | some [] ↦ (none, m)
  | some (r ∷ []) ↦ (some r, Map.remove m id)
  | some (r ∷ s ∷ rs) ↦ (some r, Map.set m id (s ∷ rs))
]

pub record ToolEnrichment : Type 0 where
  pub line_index : ℕ
  pub call_id : Option String
  pub name : String
  pub output : List ℕ
  pub status : ToolStatus

abbrev is_error : ToolStatus → Bool
is_error ok = false
is_error error = true

abbrev result_output : Option ToolResult → List ℕ
result_output none = []
result_output (some r) = r.output

abbrev result_failed : Option ToolResult → Bool
result_failed none = false
result_failed (some r) = is_error r.status

abbrev not_nil : List ℕ → Bool
not_nil [] = false
not_nil (c ∷ cs) = true

unfoldable outputs_of : List ToolEnrichment → List (List ℕ)
outputs_of [] = []
outputs_of (e ∷ es) = e.output ∷ outputs_of es

unfoldable any_failed : List ToolEnrichment → Bool
any_failed [] = false
any_failed (e ∷ es) = is_error e.status || any_failed es

-- `combinedToolResult`
unfoldable pub combined_tool_result : Option ToolResult → List ToolEnrichment → Option ToolResult
unfolding join_lines outputs_of any_failed
combined_tool_result none [] = none
combined_tool_result result enrichments = some (record {
  output = join_lines (filter not_nil (result_output result ∷ outputs_of enrichments));
  status = if result_failed result || any_failed enrichments then error else ok;
})

abbrev pub optional_text : List ℕ → Option (List ℕ)
optional_text [] = none
optional_text (c ∷ cs) = some (c ∷ cs)

abbrev pub with_result : SessionToolCall → Option ToolResult → SessionToolCall
with_result call none = call
with_result call (some r) =
    let output = cap_string r.output tool_io_cap in
    record call {
      output = optional_text output.0;
      output_truncated = output.1;
      status = some r.status;
    }

unfoldable pub build_tool_call :
    Runtime
    → String
    → String
    → Option Json
    → Option ToolResult
    → List ToolEnrichment
    → SessionToolCall
unfolding tool_value_to_string cap_string combined_tool_result
build_tool_call rt id name input_value result enrichments =
    let input = cap_string (tool_value_to_string rt input_value) tool_io_cap in
    with_result
      (record {
        id = id;
        name = name;
        input = optional_text input.0;
        input_truncated = input.1;
        output = none;
        output_truncated = false;
        status = none;
      })
      (combined_tool_result result enrichments)

-- A text that is neither absent nor empty.
abbrev pub present : Option String → Option String
present none = none
present (some s) = if str_eq s "" then none else some s

-- `claudeToolCalls`, with the results that are left.
unfoldable pub claude_tool_calls :
    Runtime → List Fields → ToolResults → List SessionToolCall × ToolResults
unfolding build_tool_call consume_tool_result get_field
claude_tool_calls rt [] m = ([], m)
claude_tool_calls rt (b ∷ bs) m =
    elim (if any_of (string_field b "type") ("tool_use" ∷ [])
      then present (string_field b "id")
      else none) [
        | none ↦ claude_tool_calls rt bs m
        | some id ↦ elim (present (string_field b "name")) [
          | none ↦ claude_tool_calls rt bs m
          | some name ↦
              let consumed = consume_tool_result id m in
              let rest = claude_tool_calls rt bs consumed.1 in
              (build_tool_call rt id name (get_field b "input") consumed.0 [] ∷ rest.0, rest.1)
        ]
      ]

-- `block.content ?? block.output ?? block.text`
unfoldable pub claude_tool_result : Runtime → Fields → ToolResult
unfolding get_field tool_value_to_string status_from_payload
claude_tool_result rt b = record {
  output =
      tool_value_to_string rt
        (coalesce (get_field b "content") (coalesce (get_field b "output") (get_field b "text")));
  status = status_from_payload rt b;
}

unfoldable pub codex_tool_result : Runtime → Fields → ToolResult
unfolding get_field tool_value_to_string status_from_payload
codex_tool_result rt payload = record {
  output =
      tool_value_to_string rt
        (coalesce (get_field payload "output") (get_field payload "formatted_output"));
  status = status_from_payload rt payload;
}

-- `syntheticCodexToolCall`
unfoldable pub synthetic_codex_tool_call : Runtime → ToolEnrichment → SessionToolCall
unfolding cap_string
synthetic_codex_tool_call rt e =
    let output = cap_string e.output tool_io_cap in
    record {
      id = or_else e.call_id (rt.call_id e.name e.line_index);
      name = e.name;
      input = none;
      input_truncated = false;
      output = optional_text output.0;
      output_truncated = output.1;
      status = some e.status;
    }
