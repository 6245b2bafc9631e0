-- ===== src/Tests/Runner.antt =====
-- The theorems on src/sessions/resume.ts at a process that prints two lines, the last without a line end.
use hugin_agent.Prelude.{
  ℕ, ◌≡◌, refl, String, Bool, true, false, Option, none, some, List, [], ◌∷◌, ◌++◌, ◌==◌,
  if◌then◌else◌, arith, length,
}
use hugin_agent.Prelude
use hugin_agent.Json.{Json, str, obj, arr, nil, cons, end, field}
use hugin_agent.Conn.Outbound.{EngineEvent}
use hugin_agent.Engine.Lines.{cut_line}
use hugin_agent.Engine.Normalize.{Runtime, normalize_claude_line}
use hugin_agent.Sessions.Adapters.{claude_adapter, observe_line}
use hugin_agent.Sessions.Runner.{
  Output, Adapter, Text, Runner, new_runner, Input, starts, stdout, closes, pauses, resumes, run,
  on_closed, from_stdout,
}
use hugin_agent.Sessions.Runner
use hugin_agent.Sessions.Runner.Done.{dones}
use hugin_agent.Sessions.Runner.Lossless.{called, text_events}
use hugin_agent.Sessions.Runner.Lossless.Run.{stdout_of, run_passes_all_on}
use hugin_agent.Sessions.Runner.Lost.{paused_at_close_loses}

abbrev runtime : Runtime
runtime = record { to_lower_case = λ s. s; text_of = λ v. some "value" }

abbrev adapter : Adapter
unfolding claude_adapter
adapter = claude_adapter runtime

abbrev block : String → Json
block s = obj (field "type" (str "text") (field "text" (str s) end))

abbrev two_blocks : Json
two_blocks = obj (
    field "type" (str "assistant") (
      field "message"
        (obj (field "content" (arr (cons (block "two") (cons (block "three") nil))) end)) end))

abbrev event_of : String → EngineEvent
event_of s = record { kind = "assistant_text"; fields = field "text" (str s) end }

-- The unit "A" for a line of one block, "B" for a line of two.
abbrev parse_unit : List ℕ → Option Json
parse_unit (c ∷ []) =
    if c == b'A'
    then some (
        obj (
          field "type" (str "assistant")
            (field "message" (obj (field "content" (arr (cons (block "one") nil)) end)) end)))
    else if c == b'B'
    then some two_blocks
    else none
parse_unit _ = none

abbrev text : Text
text = record { decode = λ bytes. bytes; parse = parse_unit; last_units = λ s. s }

-- The callback pauses at the first event, at every event, or never.
abbrev at_first : List Output → Bool
at_first os = length os == 1

abbrev always : List Output → Bool
always os = true

abbrev never : List Output → Bool
never os = false

abbrev inputs : List (Input × (List Output → Bool))
inputs =
    (starts, never)
    ∷ (stdout (b'A' ∷ 10 ∷ []), at_first)
    ∷ (stdout (b'B' ∷ []), never)
    ∷ (closes (some 0) false, never)
    ∷ (resumes, never)
    ∷ []

run_passes_all_on_example :
    (dones (run adapter text inputs new_runner).out ≡ 1)
    × (called (run adapter text inputs new_runner).out
        ≡ text_events adapter text (stdout_of adapter text inputs new_runner []))
unfolding run Runner.step normalize_claude_line observe_line Prelude.trim cut_line adapter
run_passes_all_on_example = run_passes_all_on adapter text inputs refl refl refl

-- The process is running, and its last line stands in the buffer.
abbrev running : Runner
running = record new_runner { child = true; buf = b'B' ∷ [] }

paused_at_close_loses_example :
    let closed = on_closed adapter text always (some 0) false running in
    (closed.finished ≡ true)
    × (called (run adapter text ((resumes, never) ∷ (resumes, never) ∷ []) closed).out
        ≡ event_of "two" ∷ [])
unfolding Runner.parse_line normalize_claude_line Prelude.trim cut_line adapter called
paused_at_close_loses_example =
    paused_at_close_loses adapter text always running two_blocks (event_of "two") (event_of "three")
      [] ((resumes, never) ∷ (resumes, never) ∷ []) refl refl refl refl refl refl refl refl refl
