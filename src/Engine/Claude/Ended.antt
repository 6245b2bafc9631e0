-- ===== src/Engine/Claude/Ended.antt =====
-- Once a run of src/engine/claude.ts has reported its end, its approval bridge is closed for good.
use hugin_agent.Prelude.{
  ℕ, suc, ◌+◌, ◌≡◌, refl, sym, ap, ◌∙◌, String, Bool, true, false, not, ◌||◌, Option, none, some,
  List, [], ◌∷◌, ◌++◌, if◌then◌else◌, length, is_some, or_else, trim, Bool-cases, inl, inr, arith,
}
use mathlib.Core.Path.{subst}
use hugin_agent.Json.{Json, Fields}
use hugin_agent.Conn.Outbound.{EngineEvent}
use hugin_agent.Jobs.Types.{EngineOutcome, error}
use hugin_agent.Engine.Lines.{each_line, each_line_inv}
use hugin_agent.Engine.Normalize.{normalize_claude_line}
use hugin_agent.Engine.Approval
use hugin_agent.Engine.Approval.{Effect, ApprovalBridge}
use hugin_agent.Engine.Claude.Shut.{
  TidyBridge, ShutBridge, step-Shut, step-Tidy, close_bridge-Shut, Shut-Tidy,
}
use hugin_agent.Engine.Claude.{
  Input, starts, bridge_starts, stdout, stderr, fails, closes, timeout, pauses, resumes, cancels,
  approval, Worktree, created, refused, BridgeStart, failed, listening, config_failed, Stage,
  queued, starting, past, abort, start_in, spawn, start, go_on, bridge_started, on_stdout,
  on_stderr, on_error, on_close, times_out, pause, resume, cancel, at_bridge, step, run, new_run,
  Output, event, done, ClaudeRun, Env, close_bridge, emit, emit_all, finish, handle_line, is_paused,
  keep_rest, drain,
}

unfoldable pub dones : List Output → ℕ
dones [] = 0
dones (event e ∷ os) = dones os
dones (done o ∷ os) = suc (dones os)

dones-append : (xs ys : List Output) → dones (xs ++ ys) ≡ dones xs + dones ys
unfolding dones
dones-append [] ys = omega arith
dones-append (event e ∷ xs) ys = dones-append xs ys
dones-append (done o ∷ xs) ys = omega (arith, dones-append xs ys)

abbrev one_if : Bool → ℕ
one_if true = 1
one_if false = 0

unfoldable pub trace_of : Option ApprovalBridge → List Effect
trace_of none = []
trace_of (some b) = b.trace

-- The end was reported once if the run is finished, and not at all before; and the bridge is closed then.
-- If the run was over `before`, it still is, and its bridge has the same trace.
module _ (ended : Bool) (before : List Effect) where
  record Settled (r : ClaudeRun) : Type 0 where
    once : dones r.out ≡ one_if r.finished
    tidy : TidyBridge r.bridge
    shut : r.finished ≡ true → ShutBridge r.bridge
    stays : ended ≡ true → (r.finished ≡ true) × (trace_of r.bridge ≡ before)

  -- A step that reports no end and leaves the bridge as it is.
  same-Settled :
      (r r' : ClaudeRun)
      → dones r'.out ≡ dones r.out
      → r'.finished ≡ r.finished
      → r'.bridge ≡ r.bridge
      → Settled r
      → Settled r'
  same-Settled r r' o f b k = record {
    once = o ∙ k.once ∙ ap one_if (sym f);
    tidy = subst TidyBridge (sym b) k.tidy;
    shut = λ h. subst ShutBridge (sym b) (k.shut (sym f ∙ h));
    stays = λ h. (f ∙ (k.stays h).0, ap trace_of b ∙ (k.stays h).1);
  }

  module _ (env : Env) (asks : List Output → Bool) where
    emit-Settled : (e : EngineEvent) (r : ClaudeRun) → Settled r → Settled (emit env asks e r)
    unfolding emit dones
    emit-Settled e r k =
        same-Settled r (emit env asks e r) (omega (arith, dones-append r.out (event e ∷ []))) refl
          refl k

    emit_all-Settled :
        (es : List EngineEvent) (r : ClaudeRun) → Settled r → Settled (emit_all env asks es r)
    unfolding emit_all
    emit_all-Settled [] r k = k
    emit_all-Settled (e ∷ es) r k = emit_all-Settled es (emit env asks e r) (emit-Settled e r k)

    finish-Settled : (o : EngineOutcome) (r : ClaudeRun) → Settled r → Settled (finish env asks o r)
    finish-Settled o r k = elim (Bool-cases r.finished) [
      | inl e ↦ subst Settled (sym (late e)) k
      | inr e ↦ subst Settled (sym (first e)) (record {
        once = dones-append r.out (done o ∷ []) ∙ counted e;
        tidy = Shut-Tidy (close_bridge r.bridge) (close_bridge-Shut r.bridge k.tidy);
        shut = λ h. close_bridge-Shut r.bridge k.tidy;
        stays = λ h. absurd (ground (arith, e, (k.stays h).0));
      })
    ]
      where
        over : ClaudeRun
        over = record r {
          finished = true;
          timer = false;
          bridge = close_bridge r.bridge;
          out = r.out ++ done o ∷ [];
        }

        late : r.finished ≡ true → finish env asks o r ≡ r
        late e = unfold finish in ground arith

        first : r.finished ≡ false → finish env asks o r ≡ over
        first e = unfold finish in ground arith

        counted : r.finished ≡ false → dones r.out + dones (done o ∷ []) ≡ 1
        counted e = unfold dones in ground (arith, k.once)

    handle_line-Settled :
        (line : List ℕ) (r : ClaudeRun) → Settled r → Settled (handle_line env asks line r)
    unfolding handle_line
    handle_line-Settled line r k = read (trim line)
      where
        parsed :
            (o : Option Json)
            → Settled (elim o as (λ x. ClaudeRun) [
              | none ↦ r
              | some v ↦ emit_all env asks (or_else (normalize_claude_line env.runtime v) []) r
            ])
        parsed none = k
        parsed (some v) = emit_all-Settled (or_else (normalize_claude_line env.runtime v) []) r k

        read :
            (xs : List ℕ)
            → Settled (elim xs as (λ x. ClaudeRun) [
              | [] ↦ r
              | c ∷ cs ↦ elim (env.parse (c ∷ cs)) as (λ x. ClaudeRun) [
                | none ↦ r
                | some v ↦ emit_all env asks (or_else (normalize_claude_line env.runtime v) []) r
              ]
            ])
        read [] = k
        read (c ∷ cs) = parsed (env.parse (c ∷ cs))

    drain-Settled : (r : ClaudeRun) → Settled r → Settled (drain env asks r)
    unfolding drain
    drain-Settled r k =
        let looped =
          each_line (is_paused env asks) (handle_line env asks) (suc (length r.buf)) r r.buf in
        let kept =
          each_line_inv (handle_line env asks) (λ x t. Settled x)
            (λ x t line rest cut h. handle_line-Settled line x h) (is_paused env asks)
            (suc (length r.buf)) r r.buf k in
        same-Settled looped.0 (keep_rest env asks looped) refl refl refl kept

    moved-Settled : (s : Stage) (r : ClaudeRun) → Settled r → Settled (record r { stage = s })
    moved-Settled s r k = same-Settled r (record r { stage = s }) refl refl refl k

    if-Settled : (b : Bool) (x y : ClaudeRun) → Settled x → Settled y → Settled (if b then x else y)
    if-Settled true x y k l = k
    if-Settled false x y k l = l

    at-Settled :
        (s : Stage) (x y z : ClaudeRun)
        → Settled x
        → Settled y
        → Settled z
        → Settled (elim s as (λ s'. ClaudeRun) [ queued ↦ x | starting ↦ y | past ↦ z ])
    at-Settled queued x y z k l m = k
    at-Settled starting x y z k l m = l
    at-Settled past x y z k l m = m

    abort-Settled :
        (fields : Fields) (code : String) (r : ClaudeRun)
        → Settled r
        → Settled (abort env asks fields code r)
    unfolding abort
    abort-Settled fields code r k =
        finish-Settled (error none (some code))
          (emit env asks (record { kind = "engine_error"; fields = fields }) r)
          (emit-Settled (record { kind = "engine_error"; fields = fields }) r k)

    spawn-Settled :
        (config : Option String) (r : ClaudeRun) → Settled r → Settled (spawn env asks config r)
    unfolding spawn
    spawn-Settled config r k = same-Settled r (spawn env asks config r) refl refl refl k

    start_in-Settled : (w : Worktree) (r : ClaudeRun) → Settled r → Settled (start_in env asks w r)
    unfolding start_in
    start_in-Settled (refused code message) r k = abort-Settled _ _ _ (moved-Settled past r k)
    start_in-Settled created r k = found r.bridge
      where
        found :
            (o : Option ApprovalBridge)
            → Settled (elim o as (λ x. ClaudeRun) [
              | none ↦ spawn env asks none r
              | some b ↦ record r { stage = starting }
            ])
        found none = spawn-Settled none r k
        found (some b) = moved-Settled starting r k

    go_on-Settled : (o : BridgeStart) (r : ClaudeRun) → Settled r → Settled (go_on env asks o r)
    unfolding go_on
    go_on-Settled (failed message) r k = abort-Settled _ _ _ (moved-Settled past r k)
    go_on-Settled (listening config) r k =
        if-Settled r.finished _ _ (moved-Settled past r k) (spawn-Settled (some config) r k)
    go_on-Settled (config_failed message) r k =
        if-Settled r.finished _ _ (moved-Settled past r k)
          (abort-Settled _ _ _ (moved-Settled past r k))

    at_bridge-Settled :
        (i : Approval.Input) (r : ClaudeRun) → Settled r → Settled (at_bridge env asks i r)
    unfolding at_bridge
    at_bridge-Settled i r k = found r.bridge k.tidy k.shut (λ h. (k.stays h).1)
      where
        stepped : Option ApprovalBridge → ClaudeRun
        stepped o = elim o as (λ x. ClaudeRun) [
          | none ↦ r
          | some b ↦ record r { bridge = some (Approval.step env.json i b) }
        ]

        found :
            (o : Option ApprovalBridge)
            → TidyBridge o
            → (r.finished ≡ true → ShutBridge o)
            → (ended ≡ true → trace_of o ≡ before)
            → Settled (stepped o)
        found none t s h = k
        found (some b) t s h =
            unfold trace_of in
            record {
              once = k.once;
              tidy = step-Tidy env.json i b t;
              shut = λ f. (step-Shut env.json i b (s f)).0;
              stays = λ e. ((k.stays e).0, (step-Shut env.json i b (s (k.stays e).0)).1 ∙ h e);
            }

    step-Settled : (i : Input) (r : ClaudeRun) → Settled r → Settled (step env asks i r)
    unfolding step start bridge_started on_stdout on_stderr on_error on_close times_out pause resume
        cancel
    step-Settled (starts w) r k =
        at-Settled r.stage _ _ _
          (if-Settled r.finished _ _ (moved-Settled past r k) (start_in-Settled w r k)) k k
    step-Settled (bridge_starts o) r k = at-Settled r.stage _ _ _ k (go_on-Settled o r k) k
    step-Settled (stdout chunk) r k =
        if-Settled (is_some r.spawned) _ _
          (drain-Settled (record r { buf = r.buf ++ chunk }) (same-Settled r _ refl refl refl k)) k
    step-Settled (stderr text) r k = if-Settled (is_some r.spawned) _ _ (emit-Settled _ r k) k
    step-Settled (fails message) r k = if-Settled (is_some r.spawned) _ _ (abort-Settled _ _ r k) k
    step-Settled (closes code signalled) r k =
        if-Settled (is_some r.spawned) _ _ (finish-Settled _ _ (drain-Settled r k)) k
    step-Settled timeout r k =
        if-Settled r.timer _ _
          (finish-Settled _ (record r { cancelled = true; timer = false })
            (same-Settled r _ refl refl refl k))
          k
    step-Settled pauses r k = same-Settled r _ refl refl refl k
    step-Settled resumes r k =
        drain-Settled (record r { paused = false }) (same-Settled r _ refl refl refl k)
    step-Settled cancels r k =
        let called = record r { cancelled = true } in
        let k' = same-Settled r called refl refl refl k in
        if-Settled (not (is_some r.spawned) || r.finished) _ _ (finish-Settled _ called k') k'
    step-Settled (approval i) r k = at_bridge-Settled i r k

module _ (ended : Bool) (before : List Effect) (env : Env) where
  run-Settled :
      (is : List (Input × (List Output → Bool))) (r : ClaudeRun)
      → Settled ended before r
      → Settled ended before (run env is r)
  unfolding run
  run-Settled [] r k = k
  run-Settled ((i, asks) ∷ is) r k =
      run-Settled is (step env asks i r) (step-Settled ended before env asks i r k)

abbrev open_bridge : Option ApprovalBridge → Bool
open_bridge none = true
open_bridge (some b) = not b.closed

new_run-Settled :
    (before : List Effect) (o : Option ApprovalBridge)
    → open_bridge o ≡ true
    → Settled false before (new_run o)
unfolding dones
new_run-Settled before none h = record {
  once = refl;
  tidy = tt;
  shut = λ e. absurd (ground arith);
  stays = λ e. absurd (ground arith);
}
new_run-Settled before (some b) h = record {
  once = refl;
  tidy = λ c. absurd (ground arith);
  shut = λ e. absurd (ground arith);
  stays = λ e. absurd (ground arith);
}

-- A run of a Claude process starts with no bridge or an open one, and takes any inputs at any times. Once
-- it is finished, its end has been reported once, and whatever is put in after that, it is reported no second time and
-- nothing more happens at the bridge: no request is surfaced, and no answer is written.
pub ended_run_decides_nothing :
    (env : Env) (is js : List (Input × (List Output → Bool))) (o : Option ApprovalBridge)
    → open_bridge o ≡ true
    → (run env is (new_run o)).finished ≡ true
    → (dones (run env is (new_run o)).out ≡ 1)
      × (dones (run env js (run env is (new_run o))).out ≡ 1)
      × (trace_of (run env js (run env is (new_run o))).bridge
          ≡ trace_of (run env is (new_run o)).bridge)
ended_run_decides_nothing env is js o h f =
    let r = run env is (new_run o) in
    let k = run-Settled false [] env is (new_run o) (new_run-Settled [] o h) in
    let over : Settled true (trace_of r.bridge) r = record {
      once = k.once;
      tidy = k.tidy;
      shut = k.shut;
      stays = λ e. (f, refl);
    } in
    let l = run-Settled true (trace_of r.bridge) env js r over in
    (k.once ∙ ap one_if f, l.once ∙ ap one_if (l.stays refl).0, (l.stays refl).1)
