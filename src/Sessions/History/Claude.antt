-- ===== src/Sessions/History/Claude.antt =====
-- The entries of a transcript: parseJsonlLines, buildHistoryEntries and buildClaudeHistoryEntries of
-- src/sessions/history.ts.
use hugin_agent.Prelude.{
  ℕ, suc, String, Bool, true, false, ◌&&◌, ◌||◌, Option, none, some, List, [], ◌∷◌, ◌++◌, map, ◌==◌,
  str_eq, if◌then◌else◌, take, trim,
}
use hugin_agent.Json.{Json, str, obj, Fields, get_field}
use hugin_agent.Engine.Lines.{complete, tail}
use hugin_agent.Engine.Normalize.{is_text}
use hugin_agent.Jobs.Types.{claude}
use hugin_agent.Sessions.History.Bound.{HistoryEntry, HistoryRole, user, assistant}
use hugin_agent.Sessions.History.Texts.{
  Runtime, page_max, string_field, object_field, array_blocks, any_of, extract_claude_text,
  iso_from_unknown,
}
use hugin_agent.Sessions.History.ToolCalls.{
  ToolResults, push_tool_result, present, claude_tool_calls, claude_tool_result,
}

pub record JsonlLine : Type 0 where
  pub line_index : ℕ
  pub rec : Fields

abbrev carriage_return : ℕ
carriage_return = 13

-- A carriage return in front of a line end belongs to the line end.
unfoldable strip_return : List ℕ → List ℕ
strip_return [] = []
strip_return (c ∷ []) = if c == carriage_return then [] else c ∷ []
strip_return (c ∷ d ∷ ds) = c ∷ strip_return (d ∷ ds)

-- `content.split(/\r?\n/)`
unfoldable split_lines : List ℕ → List (List ℕ)
unfolding complete tail strip_return
split_lines content = map strip_return (complete content) ++ tail content ∷ []

-- The lines that are objects, with their places among all lines.
unfoldable parse_lines_from : (List ℕ → Option Json) → ℕ → List (List ℕ) → List JsonlLine
unfolding trim
parse_lines_from parse i [] = []
parse_lines_from parse i (l ∷ ls) =
    let rest = parse_lines_from parse (suc i) ls in
    elim (trim l) [
      | [] ↦ rest
      | c ∷ cs ↦ elim (parse l) [
        | some (obj fs) ↦ record { line_index = i; rec = fs } ∷ rest
        | _ ↦ rest
      ]
    ]

unfoldable pub parse_jsonl_lines : (List ℕ → Option Json) → List ℕ → List JsonlLine
unfolding parse_lines_from split_lines
parse_jsonl_lines parse content = parse_lines_from parse 0 (split_lines content)

-- `message?.content`
abbrev pub content_of : Fields → Option Json
unfolding get_field
content_of rec = elim (object_field rec "message") [ none ↦ none | some m ↦ get_field m "content" ]

unfoldable push_block_results : Runtime → List Fields → ToolResults → ToolResults
unfolding push_tool_result claude_tool_result
push_block_results rt [] m = m
push_block_results rt (b ∷ bs) m =
    let id =
      if any_of (string_field b "type") ("tool_result" ∷ [])
      then present (string_field b "tool_use_id")
      else none in
    push_block_results rt bs
      (elim id [ none ↦ m | some i ↦ push_tool_result i (claude_tool_result rt b) m ])

-- The first loop: the results of all lines, by their call.
unfoldable pub claude_results : Runtime → List JsonlLine → ToolResults → ToolResults
unfolding push_block_results array_blocks
claude_results rt [] m = m
claude_results rt (l ∷ ls) m =
    claude_results rt ls (push_block_results rt (array_blocks (content_of l.rec)) m)

unfoldable all_results : List Fields → Bool
all_results [] = true
all_results (b ∷ bs) = any_of (string_field b "type") ("tool_result" ∷ []) && all_results bs

-- `isOnlyClaudeToolResults`
unfoldable is_only_tool_results : Option Json → Bool
unfolding array_blocks all_results
is_only_tool_results content = elim (array_blocks content) [
  | [] ↦ false
  | b ∷ bs ↦ all_results (b ∷ bs)
]

unfoldable pub role_of : Option Json → Option HistoryRole
role_of (some (str s)) =
    if str_eq s "user" then some user else if str_eq s "assistant" then some assistant else none
role_of _ = none

abbrev is_user : HistoryRole → Bool
is_user user = true
is_user assistant = false

-- The role of the entry that a line becomes, if it becomes one.
unfoldable pub claude_role : Fields → Option HistoryRole
unfolding get_field role_of is_only_tool_results
claude_role rec =
    let role : Option HistoryRole = elim (object_field rec "message") [
      | none ↦ none
      | some m ↦ role_of (get_field m "role")
    ] in
    if is_text (get_field rec "type") "user" || is_text (get_field rec "type") "assistant"
    then elim role [
      | none ↦ none
      | some r ↦ if is_user r && is_only_tool_results (content_of rec) then none else some r
    ]
    else none

unfoldable pub claude_entry :
    Runtime → String → JsonlLine → HistoryRole → ToolResults → HistoryEntry × ToolResults
unfolding extract_claude_text iso_from_unknown claude_tool_calls array_blocks get_field
claude_entry rt session_id line role m =
    let text = extract_claude_text rt (content_of line.rec) in
    let calls =
      if is_user role
      then ([], m)
      else claude_tool_calls rt (array_blocks (content_of line.rec)) m in
    (
      record {
        entry_id = rt.entry_id claude session_id line.line_index;
        role = role;
        content = text.content;
        content_truncated = text.content_truncated;
        tool_calls = take page_max calls.0;
        omitted = text.omitted;
        created_at = iso_from_unknown rt (get_field line.rec "timestamp");
      },
      calls.1,
    )

-- The second loop.
unfoldable pub claude_entries : Runtime → String → List JsonlLine → ToolResults → List HistoryEntry
unfolding claude_role claude_entry
claude_entries rt session_id [] m = []
claude_entries rt session_id (l ∷ ls) m = elim (claude_role l.rec) [
  | none ↦ claude_entries rt session_id ls m
  | some role ↦
      let made = claude_entry rt session_id l role m in
      made.0 ∷ claude_entries rt session_id ls made.1
]

unfoldable pub build_claude_history_entries : Runtime → String → List JsonlLine → List HistoryEntry
unfolding claude_results claude_entries
build_claude_history_entries rt session_id lines =
    claude_entries rt session_id lines (claude_results rt lines [])
