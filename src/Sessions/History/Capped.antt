-- ===== src/Sessions/History/Capped.antt =====
-- The entries of src/sessions/history.ts keep to the caps on texts and calls.
pub mod Calls
pub mod Claude
pub mod Codex
use hugin_agent.Prelude.{
  ℕ, zero, suc, ◌+◌, ◌≤◌, ◌<◌, ◌≡◌, refl, ap, sym, String, Bool, true, false, Option, none, some,
  List, [], ◌∷◌, ◌++◌, ltb, if◌then◌else◌, length, take, length-take, length-append, min,
  Bool-cases, Option-cases, inl, inr, arith, or_else,
}
use hugin_agent.Prelude.Map
use hugin_agent.Prelude.Map.{Map}
use hugin_agent.Json.{Json, str, obj, arr, null, bool, num, Fields, get_field}
use hugin_agent.Jobs.Types.{EngineName, claude, codex}
use hugin_agent.Sessions.History.Bound.{HistoryEntry, HistoryRole, user, assistant, SessionToolCall}
use hugin_agent.Sessions.History.Texts.{
  Runtime, content_cap, tool_io_cap, page_max, cap_string, cap_content, TextExtraction,
  OmittedCounts, gather, extract_claude_text, extract_codex_message_text, string_field,
  object_field, array_blocks, any_of, no_omitted, tool_value_to_string,
}
use hugin_agent.Sessions.History.ToolCalls.{
  ToolResult, ToolResults, ToolEnrichment, optional_text, with_result, build_tool_call,
  combined_tool_result, claude_tool_calls, consume_tool_result, present, synthetic_codex_tool_call,
}
use hugin_agent.Sessions.History.Claude.{
  JsonlLine, role_of, content_of, claude_role, claude_entry, claude_entries, claude_results,
  build_claude_history_entries, parse_jsonl_lines,
}
use hugin_agent.Sessions.History.Codex.{
  Building, Tables, modify_at, add_call, synthetic_entry, give_call, message_entry, add_message,
  add_codex_call, add_enrichment, build_line, build_lines, build_codex_history_entries, call_input,
  listed, LineKind, message, call, result, else_, kind_of, codex_enrichment, note_lines, no_tables,
}
use hugin_agent.Sessions.History.Entries.{entries_of}
pub use Calls.{AllOf, Capped}
use Claude.{
  length-take-le, claude_tool_calls-CappedCall, claude_entry-Capped, claude_entries-Capped,
}
use Codex.{
  add_call-Capped, modify_at-Capped, synthetic_entry-Capped, give_call-Capped, message_entry-Capped,
  add_message-Capped, add_codex_call-Capped, add_enrichment-Capped, build_line-Capped,
  build_lines-Capped,
}

-- Whatever a transcript holds, of Claude or of Codex: every entry has a text of at most 16384 units and at most
-- 256 tool calls, and every call an input and an output of at most 8192 units; and what is marked as truncated
-- was cut at just that length.
pub entries_of-Capped :
    (engine : EngineName) (rt : Runtime) (parse : List ℕ → Option Json) (session_id : String)
    (content : List ℕ)
    → AllOf Capped (entries_of engine rt parse session_id content)
unfolding entries_of build_claude_history_entries build_codex_history_entries
entries_of-Capped claude rt parse sid content =
    let lines = parse_jsonl_lines parse content in
    claude_entries-Capped rt sid lines (claude_results rt lines [])
entries_of-Capped codex rt parse sid content =
    let lines = parse_jsonl_lines parse content in
    build_lines-Capped rt sid (note_lines rt lines no_tables) lines _ (tt)
