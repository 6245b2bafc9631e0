-- ===== src/Sessions/Runner/Lossless/Run.antt =====
-- What a runner of src/sessions/resume.ts has passed on once its process is closed, if the run is neither paused
-- nor cancelled then.
use hugin_agent.Prelude.{
  ℕ, ◌≡◌, refl, sym, ap, ◌∙◌, Bool, true, false, ◌||◌, List, [], ◌∷◌, ◌++◌, append-nil,
  if◌then◌else◌, is_some, arith, String, none, some,
}
use hugin_agent.Json.{str, end, field}
use hugin_agent.Jobs.Types.{EngineOutcome, error}
use hugin_agent.Sessions.Runner.{
  from_error, Output, Adapter, Text, Runner, new_runner, pause, emit, finish, on_error, start,
  cancel, settle, Input, starts, stdout, stderr, fails, closes, pauses, resumes, cancels, settles,
  step, run,
}
use hugin_agent.Sessions.Runner.Done.{dones, one_if, run-Ended}
use hugin_agent.Sessions.Runner.Lossless.Shown.{called, held_back, shown, text_events}
use hugin_agent.Sessions.Runner.Lossless.Mid.{Mid-same, Kept}
use hugin_agent.Sessions.Runner.Lossless.Resumed.{resume-Kept}
use hugin_agent.Sessions.Runner.Lossless.Quiet.{Kept-same, emit-Kept, finish-Kept, taken}
use hugin_agent.Sessions.Runner.Lossless.Fed.{on_closed-Kept, on_stderr-Kept, on_stdout-Kept}

module _ (adapter : Adapter) (text : Text) (asks : List Output → Bool) where
  -- A step that changes none of what is passed on or held back.
  pub flags-Kept :
      (all : List ℕ) (r r' : Runner)
      → r'.out ≡ r.out
      → r'.pending ≡ r.pending
      → r'.buf ≡ r.buf
      → r'.close_outcome ≡ r.close_outcome
      → (r'.cancelled ≡ false → r.cancelled ≡ false)
      → (r'.paused ≡ false → r.paused ≡ false)
      → (r.finished ≡ true → r'.finished ≡ true)
      → Kept adapter text all r
      → Kept adapter text all r'
  flags-Kept all r r' o h b c x p f k =
      Kept-same adapter text asks all r r' b c x p f
        (Mid-same adapter text asks all r r' (λ free. h ∙ k.mid.flowing (p free))
          (ap (λ os. called os ++ held_back r'.pending) o
            ∙ ap (λ es. called r.out ++ held_back es) h)
          b c k.mid)
        k

  pub start-Kept :
      (all : List ℕ) (r : Runner)
      → Kept adapter text all r
      → Kept adapter text all (start adapter text asks r)
  unfolding start
  start-Kept all r k = split (r.finished || r.child) r.cancelled
    where
      spawned : Runner
      spawned = record r { child = true }

      split :
          (b c : Bool)
          → Kept adapter text all (
              if b
              then r
              else if c
              then finish adapter text asks EngineOutcome.cancelled r
              else spawned)
      split true c = k
      split false true = finish-Kept adapter text asks all EngineOutcome.cancelled r k
      split false false = flags-Kept all r spawned refl refl refl refl (λ h. h) (λ h. h) (λ h. h) k

  pub settle-Kept :
      (all : List ℕ) (r : Runner)
      → Kept adapter text all r
      → Kept adapter text all (settle adapter text asks r)
  unfolding settle
  settle-Kept all r k = split r.settling
    where
      split :
          (b : Bool)
          → Kept adapter text all
              (if b then finish adapter text asks EngineOutcome.cancelled r else r)
      split true = finish-Kept adapter text asks all EngineOutcome.cancelled r k
      split false = k

  pub pause-Kept :
      (all : List ℕ) (r : Runner) → Kept adapter text all r → Kept adapter text all (pause r)
  unfolding pause
  pause-Kept all r k =
      flags-Kept all r (pause r) (ground arith) (ground arith) (ground arith) (ground arith)
        (λ h. ground arith) (λ h. ground arith) (λ h. ground arith) k

  pub cancel-Kept :
      (all : List ℕ) (r : Runner)
      → Kept adapter text all r
      → Kept adapter text all (cancel adapter text asks r)
  unfolding cancel
  cancel-Kept all r k =
      flags-Kept all r (cancel adapter text asks r) (ground arith) (ground arith) (ground arith)
        (ground arith) (λ h. ground arith) (λ h. ground arith) (λ h. ground arith) k

  on_error-Kept :
      (all : List ℕ) (message : String) (r : Runner)
      → Kept adapter text all r
      → Kept adapter text all (on_error adapter text asks message r)
  unfolding on_error
  on_error-Kept all message r k = split r.child
    where
      split :
          (b : Bool)
          → Kept adapter text all (
              if b
              then finish adapter text asks (error none (some "spawn_failed")) (
                  emit adapter text asks
                    (from_error
                      (record { kind = "engine_error"; fields = field "error" (str message) end }))
                    r)
              else r)
      split true =
          finish-Kept adapter text asks all _ (emit adapter text asks _ r)
            (emit-Kept adapter text asks all _ r refl k)
      split false = k

  pub step-Kept :
      (all : List ℕ) (i : Input) (r : Runner)
      → Kept adapter text all r
      → Kept adapter text (taken text i r all) (step adapter text asks i r)
  unfolding step
  step-Kept all starts r k = start-Kept all r k
  step-Kept all (stdout chunk) r k = on_stdout-Kept adapter text asks all chunk r k
  step-Kept all (stderr chunk) r k = on_stderr-Kept adapter text asks all chunk r k
  step-Kept all (fails message) r k = on_error-Kept all message r k
  step-Kept all (closes code signalled) r k =
      on_closed-Kept adapter text asks all code signalled r k
  step-Kept all pauses r k = pause-Kept all r k
  step-Kept all resumes r k = resume-Kept adapter text asks all r k
  step-Kept all cancels r k = cancel-Kept all r k
  step-Kept all settles r k = settle-Kept all r k

-- All the text that a run reads on stdout, chunk by chunk.
unfoldable pub stdout_of :
    Adapter → Text → List (Input × (List Output → Bool)) → Runner → List ℕ → List ℕ
stdout_of adapter text [] r all = all
stdout_of adapter text ((i, p) ∷ is) r all =
    stdout_of adapter text is (step adapter text p i r) (taken text i r all)

run-Kept :
    (adapter : Adapter) (text : Text) (is : List (Input × (List Output → Bool))) (all : List ℕ)
    (r : Runner)
    → Kept adapter text all r
    → Kept adapter text (stdout_of adapter text is r all) (run adapter text is r)
unfolding run stdout_of
run-Kept adapter text [] all r k = k
run-Kept adapter text ((i, p) ∷ is) all r k =
    run-Kept adapter text is (taken text i r all) (step adapter text p i r)
      (step-Kept adapter text p all i r k)

new-Kept : (adapter : Adapter) (text : Text) → Kept adapter text [] new_runner
unfolding called held_back
new-Kept adapter text = record {
  mid = record { flowing = λ h. refl; kept = refl; ongoing = λ h. (refl, refl) };
  settled = λ h. absurd (ground arith);
}

-- When the process is closed and the run is neither paused nor cancelled, the end was reported, once, and
-- the events passed on are all those that stand in the text read from stdout, each once and in order, a last
-- line without a line end included. That text is what the chunks decode to, each on its own, one after the
-- other. This holds whatever the chunks are, and however often and where the callback and the caller paused.
pub run_passes_all_on :
    (adapter : Adapter) (text : Text) (is : List (Input × (List Output → Bool)))
    → is_some (run adapter text is new_runner).close_outcome ≡ true
    → (run adapter text is new_runner).cancelled ≡ false
    → (run adapter text is new_runner).paused ≡ false
    → (dones (run adapter text is new_runner).out ≡ 1)
      × (called (run adapter text is new_runner).out
          ≡ text_events adapter text (stdout_of adapter text is new_runner []))
unfolding dones held_back
run_passes_all_on adapter text is closed free flows =
    let r = run adapter text is new_runner in
    let k = run-Kept adapter text is [] new_runner (new-Kept adapter text) in
    let end = k.settled closed free flows in
    let ended = run-Ended adapter text is new_runner (record { once = refl }) in
    (
      ended.once ∙ ap one_if end.0,
      sym (append-nil (called r.out))
          ∙ ap (λ ps. called r.out ++ held_back ps) (sym (k.mid.flowing flows))
          ∙ sym (append-nil (shown r))
          ∙ ap (◌++◌ (shown r)) (sym end.1)
          ∙ k.mid.kept,
    )
