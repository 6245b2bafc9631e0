-- ===== src/Engine/Claude.antt =====
-- The run of a Claude process: src/engine/claude.ts. Worktrees, files and signals to processes are left out;
-- what they come to are the steps' inputs. `asks` says whether the callback for events calls `pause`
-- within its call, when it has been given so many. A line on which `normalizeClaudeLine` throws ends the
-- daemon; nothing is said of what comes after one.
pub mod Ended
pub mod Shut
use hugin_agent.Prelude.{
  ℕ, zero, suc, String, Bool, true, false, not, ◌&&◌, ◌||◌, Option, none, some, List, [], ◌∷◌, ◌++◌,
  if◌then◌else◌, length, or_else, trim, is_some,
}
use hugin_agent.Json.{Json, str, Fields, end, field}
use hugin_agent.Conn.Outbound.{EngineEvent}
use hugin_agent.Jobs.Types.{
  EngineOutcome, success, error, Sandbox, read_only, workspace_write, full, EngineSpec,
}
use hugin_agent.Engine.Lines.{each_line}
use hugin_agent.Engine.Normalize.{Runtime, normalize_claude_line}
use hugin_agent.Engine.Approval
use hugin_agent.Engine.Approval.{JsonText, ApprovalBridge}

pub data Output : Type 0 where
  event : EngineEvent → Output
  done : EngineOutcome → Output

-- Until the microtask runs, while the bridge starts, and from then on.
pub data Stage : Type 0 where
  queued starting past : Stage

-- The calls so far are in order; `spawned` holds the arguments of the process, once there is one.
pub record ClaudeRun : Type 0 where
  pub out : List Output
  pub buf : List ℕ
  pub stage : Stage
  pub spawned : Option (List String)
  pub timer : Bool
  pub finished : Bool
  pub cancelled : Bool
  pub paused : Bool
  pub bridge : Option ApprovalBridge

abbrev pub new_run : Option ApprovalBridge → ClaudeRun
new_run bridge = record {
  out = [];
  buf = [];
  stage = queued;
  spawned = none;
  timer = false;
  finished = false;
  cancelled = false;
  paused = false;
  bridge = bridge;
}

abbrev write_tools : List String
write_tools = "Write" ∷ "Edit" ∷ "MultiEdit" ∷ "NotebookEdit" ∷ "Bash" ∷ []

abbrev disallowed : Sandbox → List String
disallowed read_only = "--disallowedTools" ∷ write_tools
disallowed workspace_write = []
disallowed full = []

-- The arguments of the process; `config` is the path of the configuration for the bridge.
unfoldable arguments_of : EngineSpec → Option String → List String
arguments_of spec config =
    "-p"
      ∷ spec.prompt
      ∷ "--output-format"
      ∷ "stream-json"
      ∷ "--verbose"
      ∷ "--permission-mode"
      ∷ "default"
      ∷ disallowed spec.sandbox
    ++ elim config [
      | none ↦ []
      | some path ↦
          "--mcp-config" ∷ path ∷ "--strict-mcp-config" ∷ "--permission-prompt-tool"
          ∷ "mcp__hugin__permission_prompt" ∷ []
    ]

abbrev pub close_bridge : Option ApprovalBridge → Option ApprovalBridge
unfolding Approval.close
close_bridge none = none
close_bridge (some b) = some (Approval.close b)

abbrev text_field : String → String → Fields
text_field key text = field key (str text) end

-- How creating the worktree, and bringing up the bridge with its configuration, came out.
pub data Worktree : Type 0 where
  created : Worktree
  refused : Option String → String → Worktree

pub data BridgeStart : Type 0 where
  listening : String → BridgeStart
  failed : String → BridgeStart
  config_failed : String → BridgeStart

-- The parameters of one run.
pub record Env : Type 0 where
  pub runtime : Runtime
  pub parse : List ℕ → Option Json
  pub json : JsonText
  pub spec : EngineSpec
  pub timeout : Bool

module _ (env : Env) (asks : List Output → Bool) where
  -- `for (const cb of eventCbs) cb(e)`
  unfoldable pub emit : EngineEvent → ClaudeRun → ClaudeRun
  emit e r =
      let out = r.out ++ event e ∷ [] in record r { out = out; paused = r.paused || asks out }

  unfoldable pub emit_all : List EngineEvent → ClaudeRun → ClaudeRun
  unfolding emit
  emit_all [] r = r
  emit_all (e ∷ es) r = emit_all es (emit e r)

  unfoldable pub finish : EngineOutcome → ClaudeRun → ClaudeRun
  unfolding Approval.close
  finish o r = if r.finished then r else record r {
    finished = true;
    timer = false;
    bridge = close_bridge r.bridge;
    out = r.out ++ done o ∷ [];
  }

  -- One line of the loop in `drain`: blank lines and lines that are no JSON are skipped.
  unfoldable pub handle_line : List ℕ → ClaudeRun → ClaudeRun
  unfolding emit_all trim normalize_claude_line
  handle_line line r = elim (trim line) [
    | [] ↦ r
    | c ∷ cs ↦ elim (env.parse (c ∷ cs)) [
      | none ↦ r
      | some v ↦ emit_all (or_else (normalize_claude_line env.runtime v) []) r
    ]
  ]

  abbrev pub is_paused : ClaudeRun → Bool
  is_paused r = r.paused

  abbrev pub keep_rest : ClaudeRun × List ℕ → ClaudeRun
  keep_rest (r, rest) = record r { buf = rest }

  unfoldable pub drain : ClaudeRun → ClaudeRun
  unfolding each_line handle_line
  drain r = keep_rest (each_line is_paused handle_line (suc (length r.buf)) r r.buf)

  abbrev engine_error : Fields → EngineEvent
  engine_error fields = record { kind = "engine_error"; fields = fields }

  abbrev code_field : Option String → Fields → Fields
  code_field none fs = fs
  code_field (some code) fs = field "code" (str code) fs

  unfoldable pub spawn : Option String → ClaudeRun → ClaudeRun
  unfolding arguments_of
  spawn config r = record r {
    stage = past;
    spawned = some (arguments_of env.spec config);
    timer = env.timeout;
  }

  -- An "engine_error" event, then the end with this code.
  unfoldable pub abort : Fields → String → ClaudeRun → ClaudeRun
  unfolding emit finish
  abort fields code r = finish (error none (some code)) (emit (engine_error fields) r)

  -- The microtask, from the making of the worktree on.
  unfoldable pub start_in : Worktree → ClaudeRun → ClaudeRun
  unfolding abort spawn
  start_in (refused code message) r =
      let code' = or_else code "workspace_error" in
      abort (field "error" (str message) (field "code" (str code') end)) code'
        (record r { stage = past })
  start_in created r = elim r.bridge [
    | none ↦ spawn none r
    | some b ↦ record r { stage = starting }
  ]

  -- The microtask.
  unfoldable pub start : Worktree → ClaudeRun → ClaudeRun
  unfolding start_in
  start w r = elim r.stage [
    | queued ↦ if r.finished then record r { stage = past } else start_in w r
    | starting ↦ r
    | past ↦ r
  ]

  -- What follows `await bridge.start()`.
  unfoldable pub go_on : BridgeStart → ClaudeRun → ClaudeRun
  unfolding abort spawn
  go_on (failed message) r =
      abort (text_field "error" message) "approval_bridge" (record r { stage = past })
  go_on (listening config) r =
      if r.finished then record r { stage = past } else spawn (some config) r
  go_on (config_failed message) r =
      if r.finished
      then record r { stage = past }
      else abort (text_field "error" message) "approval_bridge" (record r { stage = past })

  -- `bridge.start()` has come to its end.
  unfoldable pub bridge_started : BridgeStart → ClaudeRun → ClaudeRun
  unfolding go_on
  bridge_started o r = elim r.stage [ starting ↦ go_on o r | queued ↦ r | past ↦ r ]

  -- The "data" events of a spawned process.
  unfoldable pub on_stdout : List ℕ → ClaudeRun → ClaudeRun
  unfolding drain
  on_stdout chunk r = if is_some r.spawned then drain (record r { buf = r.buf ++ chunk }) else r

  unfoldable pub on_stderr : String → ClaudeRun → ClaudeRun
  unfolding emit
  on_stderr text r =
      if is_some r.spawned
      then emit (record { kind = "stderr_chunk"; fields = text_field "text" text }) r
      else r

  unfoldable pub on_error : String → ClaudeRun → ClaudeRun
  unfolding abort
  on_error message r =
      if is_some r.spawned then abort (text_field "error" message) "spawn_failed" r else r

  abbrev pub outcome_of : Bool → Option ℕ → EngineOutcome
  outcome_of true code = EngineOutcome.cancelled
  outcome_of false (some zero) = success (some 0)
  outcome_of false (some (suc n)) = error (some (suc n)) (some "nonzero_exit")
  outcome_of false none = error none (some "nonzero_exit")

  -- The "close" event, with the exit code and whether a signal ended the process.
  unfoldable pub on_close : Option ℕ → Bool → ClaudeRun → ClaudeRun
  unfolding drain finish
  on_close code signalled r =
      let drained = drain r in
      if is_some r.spawned
      then finish (outcome_of (drained.cancelled || signalled) code) drained
      else r

  unfoldable pub times_out : ClaudeRun → ClaudeRun
  unfolding finish
  times_out r =
      if r.timer
      then finish (error none (some "timeout")) (record r { cancelled = true; timer = false })
      else r

  unfoldable pub pause : ClaudeRun → ClaudeRun
  pause r = record r { paused = true }

  unfoldable pub resume : ClaudeRun → ClaudeRun
  unfolding drain
  resume r = drain (record r { paused = false })

  -- `cancel`; a process that runs is sent a signal, and closes later.
  unfoldable pub cancel : ClaudeRun → ClaudeRun
  unfolding finish
  cancel r =
      let r' = record r { cancelled = true } in
      if not (is_some r.spawned) || r.finished then finish EngineOutcome.cancelled r' else r'

  -- What happens at the bridge, `resolveApproval` included.
  unfoldable pub at_bridge : Approval.Input → ClaudeRun → ClaudeRun
  unfolding Approval.step
  at_bridge i r = elim r.bridge [
    | none ↦ r
    | some b ↦ record r { bridge = some (Approval.step env.json i b) }
  ]

pub data Input : Type 0 where
  starts : Worktree → Input
  bridge_starts : BridgeStart → Input
  stdout : List ℕ → Input
  stderr : String → Input
  fails : String → Input
  closes : Option ℕ → Bool → Input
  timeout : Input
  pauses : Input
  resumes : Input
  cancels : Input
  approval : Approval.Input → Input

unfoldable pub step : Env → (List Output → Bool) → Input → ClaudeRun → ClaudeRun
unfolding start bridge_started on_stdout on_stderr on_error on_close times_out pause resume cancel
    at_bridge
step env p (starts w) r = start env p w r
step env p (bridge_starts o) r = bridge_started env p o r
step env p (stdout chunk) r = on_stdout env p chunk r
step env p (stderr text) r = on_stderr env p text r
step env p (fails message) r = on_error env p message r
step env p (closes code signalled) r = on_close env p code signalled r
step env p timeout r = times_out env p r
step env p pauses r = pause env p r
step env p resumes r = resume env p r
step env p cancels r = cancel env p r
step env p (approval i) r = at_bridge env p i r

unfoldable pub run : Env → List (Input × (List Output → Bool)) → ClaudeRun → ClaudeRun
unfolding step
run env [] r = r
run env ((i, p) ∷ is) r = run env is (step env p i r)
