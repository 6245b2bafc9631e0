-- ===== src/Sessions/History/Codex.antt =====
-- The entries of a transcript of Codex: buildCodexHistoryEntries of src/sessions/history.ts. An entry that
-- is being added to is named by its place in the list.
mod Lines
use hugin_agent.Prelude.{
  ℕ, zero, suc, String, Bool, true, false, not, ◌&&◌, ◌||◌, Option, none, some, List, [], ◌∷◌, ◌++◌,
  map, ◌==◌, str_eq, if◌then◌else◌, length, take, or_else,
}
use hugin_agent.Prelude.Map
use hugin_agent.Prelude.Map.{Map}
use hugin_agent.Json.{Json, bool, num, str, obj, arr, Fields, get_field}
use hugin_agent.Engine.Normalize.{is_text}
use hugin_agent.Jobs.Types.{codex}
use hugin_agent.Sessions.History.Bound.{HistoryEntry, HistoryRole, user, assistant, SessionToolCall}
use hugin_agent.Sessions.History.Texts.{
  Runtime, page_max, string_field, object_field, any_of, extract_codex_message_text,
  iso_from_unknown, tool_value_to_string, status_from_payload,
}
use hugin_agent.Sessions.History.ToolCalls.{
  ToolResults, push_tool_result, consume_tool_result, ToolEnrichment, build_tool_call, present,
  codex_tool_result, synthetic_codex_tool_call,
}
use hugin_agent.Sessions.History.Claude.{JsonlLine, role_of}
unfoldable pub use Lines.{
  kind_of, summarize_codex_enrichment, enrichment_of, codex_enrichment, note_line, note_lines,
}
pub use Lines.{
  LineKind, spaced, labelled, bool_text, number_text, printed, status_text, Tables, note_call,
  note_result, note_enrichment, note_other, message, call, result, else_,
}

-- The entries so far, the place of `currentAssistant` among them, and the results that are left.
pub record Building : Type 0 where
  pub entries : List HistoryEntry
  pub current : Option ℕ
  pub left : ToolResults

abbrev pub add_call : SessionToolCall → HistoryEntry → HistoryEntry
add_call c e = record e { tool_calls = take page_max (e.tool_calls ++ c ∷ []) }

unfoldable pub modify_at : ℕ → (HistoryEntry → HistoryEntry) → List HistoryEntry → List HistoryEntry
modify_at i f [] = []
modify_at zero f (e ∷ es) = f e ∷ es
modify_at (suc i) f (e ∷ es) = e ∷ modify_at i f es

-- `createSyntheticAssistantEntry`
unfoldable pub synthetic_entry : Runtime → String → JsonlLine → HistoryEntry
unfolding iso_from_unknown get_field
synthetic_entry rt session_id line = record {
  entry_id = rt.entry_id codex session_id line.line_index;
  role = assistant;
  content = [];
  content_truncated = false;
  tool_calls = [];
  omitted = [];
  created_at = iso_from_unknown rt (get_field line.rec "timestamp");
}

-- A call goes to the current entry of the assistant, or to a new one, which is current then.
unfoldable pub give_call : Runtime → String → JsonlLine → SessionToolCall → Building → Building
unfolding modify_at synthetic_entry
give_call rt session_id line c b = elim b.current [
  | some i ↦ record b { entries = modify_at i (add_call c) b.entries }
  | none ↦ record b {
    entries = b.entries ++ add_call c (synthetic_entry rt session_id line) ∷ [];
    current = some (length b.entries);
  }
]

unfoldable pub message_entry : Runtime → String → JsonlLine → Fields → HistoryRole → HistoryEntry
unfolding extract_codex_message_text iso_from_unknown get_field
message_entry rt session_id line payload role =
    let text = extract_codex_message_text rt (get_field payload "content") in
    record {
      entry_id = rt.entry_id codex session_id line.line_index;
      role = role;
      content = text.content;
      content_truncated = text.content_truncated;
      tool_calls = [];
      omitted = text.omitted;
      created_at = iso_from_unknown rt (get_field line.rec "timestamp");
    }

abbrev current_after : HistoryRole → ℕ → Option ℕ
current_after assistant n = some n
current_after user n = none

unfoldable pub add_message :
    Runtime → String → JsonlLine → Fields → Option HistoryRole → Building → Building
unfolding message_entry
add_message rt session_id line payload none b = b
add_message rt session_id line payload (some role) b = record b {
  entries = b.entries ++ message_entry rt session_id line payload role ∷ [];
  current = current_after role (length b.entries);
}

-- `payload.type === "custom_tool_call" ? payload.input : payload.arguments`
abbrev pub call_input : Fields → Option Json
unfolding get_field
call_input payload =
    if is_text (get_field payload "type") "custom_tool_call"
    then get_field payload "input"
    else get_field payload "arguments"

-- `codexToolCall`, which consumes a result.
unfoldable pub add_codex_call :
    Runtime → String → JsonlLine → Fields → Map (List ToolEnrichment) → Building → Building
unfolding give_call consume_tool_result build_tool_call Map.get get_field
add_codex_call rt session_id line payload enrichments b =
    elim (present (string_field payload "call_id")) [
      | none ↦ b
      | some id ↦ elim (present (string_field payload "name")) [
        | none ↦ b
        | some name ↦
            let consumed = consume_tool_result id b.left in
            give_call rt session_id line
              (build_tool_call rt id name (call_input payload) consumed.0
                (or_else (Map.get enrichments id) []))
              (record b { left = consumed.1 })
      ]
    ]

unfoldable pub listed : Option String → List String → Bool
listed id [] = false
listed none (x ∷ xs) = false
listed (some id) (x ∷ xs) = str_eq x id || listed (some id) xs

-- An enrichment of no known call becomes a call of its own.
unfoldable pub add_enrichment :
    Runtime → String → JsonlLine → List String → Option ToolEnrichment → Building → Building
unfolding give_call synthetic_codex_tool_call listed
add_enrichment rt session_id line call_ids none b = b
add_enrichment rt session_id line call_ids (some e) b =
    if listed (present e.call_id) call_ids
    then b
    else give_call rt session_id line (synthetic_codex_tool_call rt e) b

unfoldable pub build_line : Runtime → String → Tables → JsonlLine → Building → Building
unfolding kind_of add_message add_codex_call add_enrichment codex_enrichment role_of get_field
build_line rt session_id t line b = elim (object_field line.rec "payload") [
  | none ↦ b
  | some payload ↦ elim (kind_of line.rec payload) [
    | message ↦ add_message rt session_id line payload (role_of (get_field payload "role")) b
    | call ↦ add_codex_call rt session_id line payload t.enrichments b
    | result ↦ add_enrichment rt session_id line t.call_ids (codex_enrichment rt line payload) b
    | else_ ↦ add_enrichment rt session_id line t.call_ids (codex_enrichment rt line payload) b
  ]
]

unfoldable pub build_lines : Runtime → String → Tables → List JsonlLine → Building → Building
unfolding build_line
build_lines rt session_id t [] b = b
build_lines rt session_id t (l ∷ ls) b =
    build_lines rt session_id t ls (build_line rt session_id t l b)

abbrev pub no_tables : Tables
no_tables = record { results = []; enrichments = []; call_ids = [] }

unfoldable pub build_codex_history_entries : Runtime → String → List JsonlLine → List HistoryEntry
unfolding note_lines build_lines
build_codex_history_entries rt session_id lines =
    let t = note_lines rt lines no_tables in
    (build_lines rt session_id t lines
      (record { entries = []; current = none; left = t.results })).entries
