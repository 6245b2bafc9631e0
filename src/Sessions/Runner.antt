-- ===== src/Sessions/Runner.antt =====
-- The runners of src/sessions/resume.ts: what ClaudeResumeRunner and CodexResumeRunner do alike. They
-- differ in how a line is read and in the final message, which is an adapter here. A line on which
-- `normalizeClaudeLine` throws ends the daemon; nothing is said of what comes after one. The process and its
-- pipes are the steps' inputs; `pauses` says whether the callback for events calls `pause` within its
-- call, when it has been given so many.
pub mod Done
pub mod Lossless
pub mod Lost
use hugin_agent.Prelude.{
  ℕ, zero, suc, String, Bool, true, false, not, ◌&&◌, ◌||◌, Option, none, some, List, [], ◌∷◌, ◌++◌,
  ◌==◌, str_eq, ◌<>◌, if◌then◌else◌, length, is_some, or_else, trim,
}
use hugin_agent.Json.{Json, str, obj, arr, Items, nil, cons, Fields, end, field, get_field}
use hugin_agent.Conn.Outbound.{EngineEvent}
use hugin_agent.Jobs.Types.{EngineOutcome, success, error, cancelled}
use hugin_agent.Engine.Lines.{each_line, tail}
use hugin_agent.Engine.Normalize.{Runtime, member, member?, is_text, normalize_claude_line}
use hugin_agent.Engine.Codex.{normalize_codex_line, content_texts}
use hugin_agent.Sessions.ResumeManager.{ResumeDone}

-- An event, with the stream that it comes from.
pub data Emitted : Type 0 where
  from_stdout : EngineEvent → Emitted
  from_stderr : EngineEvent → Emitted
  from_error : EngineEvent → Emitted

-- A call of the registered callbacks.
pub data Output : Type 0 where
  event : Emitted → Output
  done : ResumeDone → Output

-- What is known of the final message: `finalAssistantText`, `finalResultText` and `newSessionId`.
pub record Findings : Type 0 where
  pub assistant_text : String
  pub result_text : Option String
  pub new_session_id : Option String

-- `events` and `observe` of a parsed line; `message` is the final message, given the tail of stderr.
pub record Adapter : Type 0 where
  pub events : Json → List EngineEvent
  pub observe : Json → Findings → Findings
  pub message : Findings → String → String

-- JSON.parse, `slice(-8192)`, and `toString("utf8")` of the bytes of a chunk.
pub record Text : Type 0 where
  pub decode : List ℕ → List ℕ
  pub parse : List ℕ → Option Json
  pub last_units : String → String

-- The calls so far are in order. `child` says that the process was spawned, `settling` that a cancellation
-- without a process is queued.
pub record Runner : Type 0 where
  pub out : List Output
  pub pending : List Emitted
  pub buf : List ℕ
  pub child : Bool
  pub finished : Bool
  pub cancelled : Bool
  pub settling : Bool
  pub paused : Bool
  pub close_outcome : Option EngineOutcome
  pub stderr_tail : String
  pub findings : Findings

abbrev pub new_runner : Runner
new_runner = record {
  out = [];
  pending = [];
  buf = [];
  child = false;
  finished = false;
  cancelled = false;
  settling = false;
  paused = false;
  close_outcome = none;
  stderr_tail = "";
  findings = record { assistant_text = ""; result_text = none; new_session_id = none };
}

-- `pause`
unfoldable pub pause : Runner → Runner
pause r = if r.finished || r.paused then r else record r { paused = true }

-- A line that is blank or no JSON is skipped.
unfoldable pub parse_line : Text → List ℕ → Option Json
unfolding trim
parse_line text line = elim (trim line) [ [] ↦ none | c ∷ cs ↦ text.parse (c ∷ cs) ]

abbrev pub is_blank : List ℕ → Bool
is_blank xs = elim xs [ [] ↦ true | c ∷ cs ↦ false ]

-- How a process ended, if it was not cancelled or killed.
abbrev pub outcome_of : Bool → Option ℕ → EngineOutcome
outcome_of true code = EngineOutcome.cancelled
outcome_of false (some zero) = success (some 0)
outcome_of false (some (suc n)) = error (some (suc n)) (some "nonzero_exit")
outcome_of false none = error none (some "nonzero_exit")

module _ (adapter : Adapter) (text : Text) (pauses : List Output → Bool) where
  abbrev pub call : Output → Runner → Runner
  call o r = record r { out = r.out ++ o ∷ [] }

  -- `for (const cb of eventCbs) cb(e)`
  unfoldable pub deliver : Emitted → Runner → Runner
  unfolding pause
  deliver e r = let r' = call (event e) r in if pauses r'.out then pause r' else r'

  unfoldable pub emit : Emitted → Runner → Runner
  unfolding deliver
  emit e r = if r.paused then record r { pending = r.pending ++ e ∷ [] } else deliver e r

  unfoldable pub emit_all : List EngineEvent → Runner → Runner
  unfolding emit
  emit_all [] r = r
  emit_all (e ∷ es) r = emit_all es (emit (from_stdout e) r)

  abbrev pub result_of : EngineOutcome → Runner → ResumeDone
  result_of outcome r = record {
    outcome = outcome;
    final_message = adapter.message r.findings r.stderr_tail;
    new_session_id = r.findings.new_session_id;
  }

  unfoldable pub finish : EngineOutcome → Runner → Runner
  finish outcome r =
      if r.finished
      then r
      else record r { finished = true; out = r.out ++ done (result_of outcome r) ∷ [] }

  unfoldable pub parse_and_emit : List ℕ → Runner → Runner
  unfolding parse_line emit_all
  parse_and_emit line r = elim (parse_line text line) [
    | none ↦ r
    | some v ↦ emit_all (adapter.events v) (record r { findings = adapter.observe v r.findings })
  ]

  abbrev pub go_on : Runner → Bool
  go_on r = false

  abbrev pub keep_rest : Runner × List ℕ → Runner
  keep_rest (r, rest) = record r { buf = rest }

  -- With `flush`, what is left behind the last line is a line too.
  unfoldable pub drain : Bool → Runner → Runner
  unfolding each_line parse_and_emit trim
  drain flush r =
      let r' = keep_rest (each_line go_on parse_and_emit (suc (length r.buf)) r r.buf) in
      if not flush || is_blank (trim r'.buf)
      then r'
      else parse_and_emit r'.buf (record r' { buf = [] })

  unfoldable pub maybe_finish_closed : Runner → Runner
  unfolding finish drain
  maybe_finish_closed r = elim r.close_outcome [
    | none ↦ r
    | some outcome ↦
        if r.cancelled
        then finish outcome r
        else if r.paused
        then r
        else finish outcome (drain true r)
  ]

  -- `flushPendingEvents`, over the pending events.
  unfoldable pub flush : List Emitted → Runner → Runner
  unfolding deliver
  flush [] r = record r { pending = [] }
  flush (e ∷ es) r = elim r.paused [
    | true ↦ record r { pending = e ∷ es }
    | false ↦ flush es (deliver e r)
  ]

  unfoldable pub resume : Runner → Runner
  unfolding flush drain maybe_finish_closed
  resume r =
      if r.finished || not r.paused
      then r
      else let flushed = flush r.pending (record r { paused = false }) in
        let drained = drain (is_some r.close_outcome) flushed in
        if flushed.paused
        then flushed
        else if drained.paused
        then drained
        else maybe_finish_closed drained

  -- The "data" events; a closed process has none. Each chunk of bytes is decoded on its own; a chunk of
  -- stderr stands here as its decoded text.
  unfoldable pub on_stdout : List ℕ → Runner → Runner
  unfolding drain
  on_stdout chunk r =
      let r' = record r { buf = r.buf ++ text.decode chunk } in
      if not r.child || is_some r.close_outcome then r else if r.paused then r' else drain false r'

  unfoldable pub on_stderr : String → Runner → Runner
  unfolding emit
  on_stderr chunk r =
      if not r.child || is_some r.close_outcome
      then r
      else emit
          (from_stderr (record { kind = "stderr_chunk"; fields = field "text" (str chunk) end }))
          (record r { stderr_tail = text.last_units (r.stderr_tail <> chunk) })

  -- The "error" event.
  unfoldable pub on_error : String → Runner → Runner
  unfolding emit finish
  on_error message r =
      if r.child
      then finish (error none (some "spawn_failed")) (
          emit
            (from_error
              (record { kind = "engine_error"; fields = field "error" (str message) end }))
            r)
      else r

  -- The "close" event, with the exit code and whether a signal ended the process.
  unfoldable pub on_closed : Option ℕ → Bool → Runner → Runner
  unfolding maybe_finish_closed
  on_closed code signalled r =
      if not r.child || is_some r.close_outcome
      then r
      else maybe_finish_closed
          (record r { close_outcome = some (outcome_of (r.cancelled || signalled) code) })

  -- The microtask that spawns the process.
  unfoldable pub start : Runner → Runner
  unfolding finish
  start r =
      if r.finished || r.child
      then r
      else if r.cancelled
      then finish EngineOutcome.cancelled r
      else record r { child = true }

  -- `cancel`; the signals to the process are left out.
  unfoldable pub cancel : Runner → Runner
  cancel r =
      if r.finished then r else record r { cancelled = true; settling = r.settling || not r.child }

  unfoldable pub settle : Runner → Runner
  unfolding finish
  settle r = if r.settling then finish EngineOutcome.cancelled r else r

pub data Input : Type 0 where
  starts : Input
  stdout : List ℕ → Input
  stderr : String → Input
  fails : String → Input
  closes : Option ℕ → Bool → Input
  pauses : Input
  resumes : Input
  cancels : Input
  settles : Input

-- One input, with what the callback does meanwhile.
unfoldable pub step : Adapter → Text → (List Output → Bool) → Input → Runner → Runner
unfolding start on_stdout on_stderr on_error on_closed pause resume cancel settle
step adapter text p starts r = start adapter text p r
step adapter text p (stdout chunk) r = on_stdout adapter text p chunk r
step adapter text p (stderr chunk) r = on_stderr adapter text p chunk r
step adapter text p (fails message) r = on_error adapter text p message r
step adapter text p (closes code signalled) r = on_closed adapter text p code signalled r
step adapter text p pauses r = pause r
step adapter text p resumes r = resume adapter text p r
step adapter text p cancels r = cancel adapter text p r
step adapter text p settles r = settle adapter text p r

unfoldable pub run : Adapter → Text → List (Input × (List Output → Bool)) → Runner → Runner
unfolding step
run adapter text [] r = r
run adapter text ((i, p) ∷ is) r = run adapter text is (step adapter text p i r)
