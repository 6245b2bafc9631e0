-- ===== src/Tests/Claude.antt =====
-- The theorem on src/engine/claude.ts at a run with a bridge that is cancelled while it waits for a decision.
use hugin_agent.Prelude.{ℕ, ◌≡◌, refl, Bool, true, false, Option, none, some, List, [], ◌∷◌}
use hugin_agent.Json.{Json, str}
use hugin_agent.Jobs.Types.{claude, read_only, allow}
use hugin_agent.Engine.Approval.{ApprovalBridge, connects, sends, resolves, listens}
use hugin_agent.Engine.Permission.{request_line}
use hugin_agent.Engine.Claude.{
  Env, Input, Output, created, listening, starts, bridge_starts, cancels, closes, timeout, approval,
  new_run, run,
}
use hugin_agent.Engine.Claude.Ended.{dones, trace_of, ended_run_decides_nothing}

abbrev parse : List ℕ → Option Json
parse [] = none
parse (c ∷ cs) = some (request_line "r1" "Bash" (str "ls"))

abbrev env : Env
env = record {
  runtime = record { to_lower_case = λ s. s; text_of = λ v. some "" };
  parse = parse;
  json = record { stringify = λ v. 1 ∷ []; parse = parse; string_of = λ v. "" };
  spec = record {
    engine = claude;
    prompt = "list";
    attempt_id = "a1";
    repo_root = "/repo";
    base_sha = none;
    cwd = none;
    sandbox = read_only;
  };
  timeout = true;
}

abbrev never : List Output → Bool
never os = false

abbrev bridge : ApprovalBridge
bridge = record { closed = false; listening = false; pending = []; sockets = []; trace = [] }

-- The tool prompt of a run comes in, and the process ends while it is unanswered.
abbrev before : List (Input × (List Output → Bool))
before =
    (starts created, never)
    ∷ (bridge_starts (listening "mcp.json"), never)
    ∷ (approval listens, never)
    ∷ (approval (connects 7), never)
    ∷ (approval (sends 7 (1 ∷ 10 ∷ []) (λ q. none)), never)
    ∷ (closes (some 0) false, never)
    ∷ []

-- The decision and a second prompt come too late.
abbrev after : List (Input × (List Output → Bool))
after =
    (approval (resolves "r1" allow none), never)
    ∷ (approval (sends 7 (1 ∷ 10 ∷ []) (λ q. none)), never)
    ∷ (timeout, never)
    ∷ (cancels, never)
    ∷ []

ended_run_decides_nothing_example :
    (dones (run env before (new_run (some bridge))).out ≡ 1)
    × (dones (run env after (run env before (new_run (some bridge)))).out ≡ 1)
    × (trace_of (run env after (run env before (new_run (some bridge)))).bridge
        ≡ trace_of (run env before (new_run (some bridge))).bridge)
unfolding run hugin_agent.Engine.Lines.cut_line
ended_run_decides_nothing_example =
    ended_run_decides_nothing env before after (some bridge) refl refl
