-- ===== src/Sessions/History/Entries.antt =====
-- `buildHistoryEntries` and `readSessionHistory` of src/sessions/history.ts: from the text of a transcript to a
-- page of its history.
use hugin_agent.Prelude.{ℕ, String, Option, List, map}
use hugin_agent.Json.{Json}
use hugin_agent.Jobs.Types.{EngineName, claude, codex}
use hugin_agent.Sessions.History.Bound.{HistoryEntry, bound_history_entry_bytes}
use hugin_agent.Sessions.History.Texts.{Runtime}
use hugin_agent.Sessions.History.Claude.{parse_jsonl_lines, build_claude_history_entries}
use hugin_agent.Sessions.History.Codex.{build_codex_history_entries}

-- The entries before they are bounded to the size of a frame.
unfoldable pub entries_of :
    EngineName → Runtime → (List ℕ → Option Json) → String → List ℕ → List HistoryEntry
unfolding parse_jsonl_lines build_claude_history_entries build_codex_history_entries
entries_of claude rt parse session_id content =
    build_claude_history_entries rt session_id (parse_jsonl_lines parse content)
entries_of codex rt parse session_id content =
    build_codex_history_entries rt session_id (parse_jsonl_lines parse content)

-- `bytes_of` is `historyEntryBytes`, and `max` is HISTORY_ENTRY_BYTE_MAX.
unfoldable build_history_entries :
    (HistoryEntry → ℕ)
    → ℕ
    → EngineName
    → Runtime
    → (List ℕ → Option Json)
    → String
    → List ℕ
    → List HistoryEntry
unfolding entries_of bound_history_entry_bytes
build_history_entries bytes_of max engine rt parse session_id content =
    map (bound_history_entry_bytes bytes_of max) (entries_of engine rt parse session_id content)
