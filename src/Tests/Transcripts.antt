-- ===== src/Tests/Transcripts.antt =====
-- The theorems on the entries of src/sessions/history.ts at a transcript of two lines.
use hugin_agent.Prelude.{
  ℕ, ◌≡◌, refl, String, Option, none, some, List, [], ◌∷◌, ◌==◌, if◌then◌else◌, codes,
}
use hugin_agent.Prelude
use hugin_agent.Prelude.Map
use hugin_agent.Json.{Json, str, obj, arr, nil, cons, end, field, get_field}
use hugin_agent.Jobs.Types.{claude}
use hugin_agent.Sessions.History.Bound.{ok, assistant}
use hugin_agent.Sessions.History.Texts.{Runtime}
use hugin_agent.Sessions.History.Entries.{entries_of}
use hugin_agent.Sessions.History.Capped.{AllOf, Capped, entries_of-Capped}
use hugin_agent.Sessions.History.ToolCalls.{ToolResult}
use hugin_agent.Sessions.History.Matching.{
  pushes, consumes, answers, queue_answers, answers-queue_answers, Access,
}

abbrev runtime : Runtime
runtime = record {
  units = codes;
  print = λ v. 63 ∷ [];
  to_lower_case = λ s. s;
  iso_time = λ s. some s;
  entry_id = λ engine session n. "e_1";
  call_id = λ name n. "call_1";
}

-- A call of a tool, and its result.
abbrev call_line : Json
call_line = obj (
    field "type" (str "assistant") (
      field "message"
        (obj (
          field "role" (str "assistant") (
            field "content"
              (arr (
                cons
                  (obj (
                    field "type" (str "tool_use") (
                      field "id" (str "t1")
                        (field "name" (str "Bash") (field "input" (str "ls") end)))))
                  nil))
              end)))
        end))

abbrev result_line : Json
result_line = obj (
    field "type" (str "user") (
      field "message"
        (obj (
          field "role" (str "user") (
            field "content"
              (arr (
                cons
                  (obj (
                    field "type" (str "tool_result")
                      (field "tool_use_id" (str "t1") (field "content" (str "a.txt") end))))
                  nil))
              end)))
        end))

abbrev parse_unit : List ℕ → Option Json
parse_unit (c ∷ []) =
    if c == b'A' then some call_line else if c == b'B' then some result_line else none
parse_unit _ = none

abbrev transcript : List ℕ
transcript = b'A' ∷ 13 ∷ 10 ∷ b'B' ∷ 10 ∷ []

-- The result is shown with its call.
one_entry :
    entries_of claude runtime parse_unit "s1" transcript
    ≡ record {
      entry_id = "e_1";
      role = assistant;
      content = [];
      content_truncated = Prelude.false;
      tool_calls =
          record {
            id = "t1";
            name = "Bash";
            input = some (codes "ls");
            input_truncated = Prelude.false;
            output = some (codes "a.txt");
            output_truncated = Prelude.false;
            status = some ok;
          }
          ∷ [];
      omitted = [];
      created_at = none;
    }
      ∷ []
unfolding entries_of Prelude.trim get_field Map.get Map.set Map.remove
one_entry = refl

entries_of-Capped_example : AllOf Capped (entries_of claude runtime parse_unit "s1" transcript)
entries_of-Capped_example = entries_of-Capped claude runtime parse_unit "s1" transcript

abbrev first : ToolResult
first = record { output = 1 ∷ []; status = ok }

abbrev second : ToolResult
second = record { output = 2 ∷ []; status = ok }

abbrev accesses : List Access
accesses =
    pushes "t1" first
    ∷ pushes "t2" second
    ∷ pushes "t1" second
    ∷ consumes "t1"
    ∷ consumes "t1"
    ∷ consumes "t1"
    ∷ []

answers-queue_answers_example : answers accesses [] ≡ queue_answers accesses (λ id. [])
answers-queue_answers_example = answers-queue_answers accesses
