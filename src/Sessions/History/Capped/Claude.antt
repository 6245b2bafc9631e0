-- ===== src/Sessions/History/Capped/Claude.antt =====
-- The entries of a transcript of Claude in src/sessions/history.ts are capped.
use hugin_agent.Prelude.{
  ℕ, ◌≤◌, String, Option, none, some, List, [], ◌∷◌, if◌then◌else◌, length, take, length-take,
  arith,
}
use hugin_agent.Json.{Fields, get_field}
use hugin_agent.Sessions.History.Bound.{HistoryEntry, HistoryRole, user, assistant, SessionToolCall}
use hugin_agent.Sessions.History.Texts.{Runtime, page_max, string_field, array_blocks, any_of}
use hugin_agent.Sessions.History.ToolCalls.{
  ToolResult, ToolResults, build_tool_call, claude_tool_calls, consume_tool_result, present,
}
use hugin_agent.Sessions.History.Claude.{
  JsonlLine, content_of, claude_role, claude_entry, claude_entries,
}
use hugin_agent.Sessions.History.Capped.Calls.{
  AllOf, AllOf-take, CappedCall, Capped, build_tool_call-CappedCall, extract_claude_text-CappedText,
}

pub length-take-le {ℓ} : {A : Type ℓ} (n : ℕ) (xs : List A) → length (take n xs) ≤ n
length-take-le n xs = omega (arith, length-take n xs)

pub claude_tool_calls-CappedCall :
    (rt : Runtime) (bs : List Fields) (m : ToolResults)
    → AllOf CappedCall (claude_tool_calls rt bs m).0
unfolding claude_tool_calls
claude_tool_calls-CappedCall rt [] m = tt
claude_tool_calls-CappedCall rt (b ∷ bs) m =
    split
      (if any_of (string_field b "type") ("tool_use" ∷ [])
        then present (string_field b "id")
        else none)
      (present (string_field b "name")) (claude_tool_calls-CappedCall rt bs m)
      (λ n. claude_tool_calls-CappedCall rt bs n)
  where
    consumed : String → Option ToolResult × ToolResults
    consumed id = consume_tool_result id m

    split :
        (o p : Option String)
        → AllOf CappedCall (claude_tool_calls rt bs m).0
        → ((n : ToolResults) → AllOf CappedCall (claude_tool_calls rt bs n).0)
        → AllOf CappedCall
            (elim o as (λ x. List SessionToolCall × ToolResults) [
              | none ↦ claude_tool_calls rt bs m
              | some id ↦ elim p as (λ x. List SessionToolCall × ToolResults) [
                | none ↦ claude_tool_calls rt bs m
                | some name ↦ (
                  build_tool_call rt id name (get_field b "input") (consumed id).0 []
                      ∷ (claude_tool_calls rt bs (consumed id).1).0,
                  (claude_tool_calls rt bs (consumed id).1).1,
                )
              ]
            ]).0
    split none p h k = h
    split (some id) none h k = h
    split (some id) (some name) h k = (
      build_tool_call-CappedCall rt id name (get_field b "input") (consumed id).0 [],
      k (consumed id).1,
    )

pub claude_entry-Capped :
    (rt : Runtime) (sid : String) (l : JsonlLine) (role : HistoryRole) (m : ToolResults)
    → Capped (claude_entry rt sid l role m).0
unfolding claude_entry
claude_entry-Capped rt sid l user m =
    let text = extract_claude_text-CappedText rt (content_of l.rec) in
    record { content_short = text.0; content_cut = text.1; few_calls = omega arith; calls = tt }
claude_entry-Capped rt sid l assistant m =
    let text = extract_claude_text-CappedText rt (content_of l.rec) in
    let bs = array_blocks (content_of l.rec) in
    record {
      content_short = text.0;
      content_cut = text.1;
      few_calls = length-take-le page_max (claude_tool_calls rt bs m).0;
      calls =
          AllOf-take CappedCall page_max (claude_tool_calls rt bs m).0
            (claude_tool_calls-CappedCall rt bs m);
    }

pub claude_entries-Capped :
    (rt : Runtime) (sid : String) (ls : List JsonlLine) (m : ToolResults)
    → AllOf Capped (claude_entries rt sid ls m)
unfolding claude_entries
claude_entries-Capped rt sid [] m = tt
claude_entries-Capped rt sid (l ∷ ls) m =
    split (claude_role l.rec) (λ n. claude_entries-Capped rt sid ls n)
  where
    split :
        (o : Option HistoryRole)
        → ((n : ToolResults) → AllOf Capped (claude_entries rt sid ls n))
        → AllOf Capped (elim o as (λ x. List HistoryEntry) [
          | none ↦ claude_entries rt sid ls m
          | some role ↦
              (claude_entry rt sid l role m).0
              ∷ claude_entries rt sid ls (claude_entry rt sid l role m).1
        ])
    split none k = k m
    split (some role) k = (claude_entry-Capped rt sid l role m, k (claude_entry rt sid l role m).1)
