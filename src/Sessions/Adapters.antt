-- ===== src/Sessions/Adapters.antt =====
-- How the two runners of src/sessions/resume.ts read a line and find the final message.
use hugin_agent.Prelude.{
  String, ◌&&◌, Option, some, List, [], ◌∷◌, str_eq, if◌then◌else◌, ◌<>◌, or_else,
}
use hugin_agent.Json.{Json, str, obj, arr, Items, nil, cons, get_field}
use hugin_agent.Conn.Outbound.{EngineEvent}
use hugin_agent.Engine.Normalize.{Runtime, member?, is_text, is_string, normalize_claude_line}
use hugin_agent.Engine.Codex.{normalize_codex_line, text_or_empty}
use hugin_agent.Sessions.Runner.{Adapter, Findings}

abbrev block_text : Json → String
block_text (obj fs) =
    if is_text (get_field fs "type") "text" && is_string (get_field fs "text")
    then text_or_empty (get_field fs "text")
    else ""
block_text _ = ""

unfoldable block_texts : Items → String
unfolding get_field
block_texts nil = ""
block_texts (cons b bs) = block_text b <> block_texts bs

-- `assistantText`
unfoldable pub assistant_text : Option Json → String
unfolding block_texts
assistant_text (some (str s)) = s
assistant_text (some (arr vs)) = block_texts vs
assistant_text _ = ""

-- `a || b` on texts.
abbrev or_text : String → String → String
or_text a b = if str_eq a "" then b else a

abbrev pub not_empty : Option Json → Option String → Option String
not_empty (some (str s)) old = if str_eq s "" then old else some s
not_empty _ old = old

-- `observeLine`
unfoldable pub observe_line : Json → Findings → Findings
unfolding get_field assistant_text
observe_line (obj fs) f =
    let type = get_field fs "type" in
    record {
      new_session_id = not_empty (get_field fs "session_id") f.new_session_id;
      result_text =
          if is_text type "result" && is_string (get_field fs "result")
          then some (text_or_empty (get_field fs "result"))
          else f.result_text;
      assistant_text =
          if is_text type "assistant"
          then or_text (assistant_text (member? (get_field fs "message") "content"))
              f.assistant_text
          else f.assistant_text;
    }
observe_line _ f = f

unfoldable pub claude_adapter : Runtime → Adapter
unfolding normalize_claude_line observe_line
claude_adapter rt = record {
  events = λ v. or_else (normalize_claude_line rt v) [];
  observe = observe_line;
  message = λ f tail. or_else f.result_text (or_text f.assistant_text tail);
}

unfoldable observe_events : List EngineEvent → Findings → Findings
unfolding get_field
observe_events [] f = f
observe_events (e ∷ es) f =
    let found = or_text (text_or_empty (get_field e.fields "text")) f.assistant_text in
    observe_events es
      (if str_eq e.kind "assistant_text" then record f { assistant_text = found } else f)

-- `last_message` is the trimmed text of the file that Codex writes its last message to; there is none if it
-- cannot be read or is blank.
unfoldable codex_adapter : Runtime → Option String → Adapter
unfolding normalize_codex_line observe_events
codex_adapter rt last_message = record {
  events = λ v. normalize_codex_line rt v;
  observe = λ v f. observe_events (normalize_codex_line rt v) f;
  message = λ f tail. or_else last_message (or_text f.assistant_text tail);
}
