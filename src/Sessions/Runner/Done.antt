-- ===== src/Sessions/Runner/Done.antt =====
-- A runner of src/sessions/resume.ts reports its end once, and not before it comes.
use hugin_agent.Prelude.{
  ℕ, suc, ◌+◌, ◌≡◌, String, Bool, true, false, not, ◌||◌, Option, none, some, List, [], ◌∷◌, ◌++◌,
  if◌then◌else◌, length, is_some, Bool-cases, inl, inr, arith, trim, ◌<>◌,
}
use hugin_agent.Json.{Json, str, field, end}
use hugin_agent.Conn.Outbound.{EngineEvent}
use hugin_agent.Jobs.Types.{error, EngineOutcome}
use hugin_agent.Engine.Lines.{each_line, each_line_inv}
use hugin_agent.Sessions.Runner.{
  Emitted, from_stdout, from_stderr, from_error, Output, event, done, Adapter, Text, Runner,
  is_blank, result_of, pause, deliver, emit, emit_all, finish, parse_line, parse_and_emit, go_on,
  keep_rest, drain, maybe_finish_closed, flush, resume, on_stdout, on_stderr, on_error, on_closed,
  start, cancel, settle, Input, starts, stdout, stderr, fails, closes, pauses, resumes, cancels,
  settles, step, run,
}

unfoldable pub dones : List Output → ℕ
dones [] = 0
dones (event e ∷ os) = dones os
dones (done d ∷ os) = suc (dones os)

dones-append : (xs ys : List Output) → dones (xs ++ ys) ≡ dones xs + dones ys
unfolding dones
dones-append [] ys = omega arith
dones-append (event e ∷ xs) ys = dones-append xs ys
dones-append (done d ∷ xs) ys = omega (arith, dones-append xs ys)

abbrev pub one_if : Bool → ℕ
one_if true = 1
one_if false = 0

-- The end was reported once if the run is finished, and not at all before.
pub record Ended (r : Runner) : Type 0 where
  pub once : dones r.out ≡ one_if r.finished

module _ (adapter : Adapter) (text : Text) (asks : List Output → Bool) where
  deliver-Ended : (e : Emitted) (r : Runner) → Ended r → Ended (deliver adapter text asks e r)
  unfolding deliver pause dones
  deliver-Ended e r k = record { once = ground (arith, dones-append r.out (event e ∷ []), k.once) }

  emit-Ended : (e : Emitted) (r : Runner) → Ended r → Ended (emit adapter text asks e r)
  unfolding emit
  emit-Ended e r k = elim (Bool-cases r.paused) [
    | inl held ↦ record { once = ground (arith, k.once) }
    | inr free ↦ record { once = ground (arith, (deliver-Ended e r k).once) }
  ]

  emit_all-Ended :
      (es : List EngineEvent) (r : Runner) → Ended r → Ended (emit_all adapter text asks es r)
  unfolding emit_all
  emit_all-Ended [] r k = k
  emit_all-Ended (e ∷ es) r k =
      emit_all-Ended es (emit adapter text asks (from_stdout e) r) (emit-Ended (from_stdout e) r k)

  finish-Ended : (o : EngineOutcome) (r : Runner) → Ended r → Ended (finish adapter text asks o r)
  unfolding finish dones
  finish-Ended o r k = record {
    once = ground (arith, dones-append r.out (done (result_of adapter text asks o r) ∷ []), k.once);
  }

  parse_and_emit-Ended :
      (line : List ℕ) (r : Runner) → Ended r → Ended (parse_and_emit adapter text asks line r)
  unfolding parse_and_emit
  parse_and_emit-Ended line r k = read (parse_line text line)
    where
      read :
          (o : Option Json)
          → Ended (elim o [
            | none ↦ r
            | some v ↦
                emit_all adapter text asks
                  (adapter.events v)
                  (record r { findings = adapter.observe v r.findings })
          ])
      read none = k
      read (some v) =
          emit_all-Ended (adapter.events v) (record r { findings = adapter.observe v r.findings })
            (record { once = k.once })

  drain-Ended : (flush : Bool) (r : Runner) → Ended r → Ended (drain adapter text asks flush r)
  unfolding drain
  drain-Ended flush r k = tailed (not flush || is_blank (trim r'.buf))
    where
      r' : Runner
      r' = keep_rest adapter text asks (
          each_line (go_on adapter text asks) (parse_and_emit adapter text asks)
            (suc (length r.buf)) r r.buf)

      lines : Ended r'
      lines = record {
        once =
            (each_line_inv (parse_and_emit adapter text asks) (λ s t. Ended s)
              (λ s t line rest cut k. parse_and_emit-Ended line s k) (go_on adapter text asks)
              (suc (length r.buf)) r r.buf k).once;
      }

      tailed :
          (b : Bool)
          → Ended
              (if b then r' else parse_and_emit adapter text asks r'.buf (record r' { buf = [] }))
      tailed true = lines
      tailed false =
          parse_and_emit-Ended r'.buf (record r' { buf = [] }) (record { once = lines.once })

  maybe_finish_closed-Ended :
      (r : Runner) → Ended r → Ended (maybe_finish_closed adapter text asks r)
  unfolding maybe_finish_closed
  maybe_finish_closed-Ended r k = closed r.close_outcome r.cancelled r.paused
    where
      closed :
          (o : Option EngineOutcome) (c p : Bool)
          → Ended (elim o [
            | none ↦ r
            | some outcome ↦
                if c
                then finish adapter text asks outcome r
                else if p
                then r
                else finish adapter text asks outcome (drain adapter text asks true r)
          ])
      closed none c p = k
      closed (some o) true p = finish-Ended o r k
      closed (some o) false true = k
      closed (some o) false false =
          finish-Ended o (drain adapter text asks true r) (drain-Ended true r k)

  flush-Ended : (es : List Emitted) (r : Runner) → Ended r → Ended (flush adapter text asks es r)
  unfolding flush
  flush-Ended [] r k = record { once = k.once }
  flush-Ended (e ∷ es) r k =
      held r.paused (flush-Ended es (deliver adapter text asks e r) (deliver-Ended e r k))
    where
      held :
          (b : Bool)
          → Ended (flush adapter text asks es (deliver adapter text asks e r))
          → Ended (elim b [
            | true ↦ record r { pending = e ∷ es }
            | false ↦ flush adapter text asks es (deliver adapter text asks e r)
          ])
      held true f = record { once = k.once }
      held false f = f

  resume-Ended : (r : Runner) → Ended r → Ended (resume adapter text asks r)
  unfolding resume
  resume-Ended r k = resumed (r.finished || not r.paused) flushed.paused drained.paused
    where
      flushed : Runner
      flushed = flush adapter text asks r.pending (record r { paused = false })

      drained : Runner
      drained = drain adapter text asks (is_some r.close_outcome) flushed

      f : Ended flushed
      f = flush-Ended r.pending (record r { paused = false }) (record { once = k.once })

      d : Ended drained
      d = drain-Ended (is_some r.close_outcome) flushed f

      resumed :
          (b p q : Bool)
          → Ended (
              if b
              then r
              else if p
              then flushed
              else if q
              then drained
              else maybe_finish_closed adapter text asks drained)
      resumed true p q = k
      resumed false true q = f
      resumed false false true = d
      resumed false false false = maybe_finish_closed-Ended drained d

  on_stdout-Ended :
      (chunk : List ℕ) (r : Runner) → Ended r → Ended (on_stdout adapter text asks chunk r)
  unfolding on_stdout
  on_stdout-Ended chunk r k = taken (not r.child || is_some r.close_outcome) r.paused
    where
      r' : Runner
      r' = record r { buf = r.buf ++ text.decode chunk }

      taken :
          (b p : Bool) → Ended (if b then r else if p then r' else drain adapter text asks false r')
      taken true p = k
      taken false true = record { once = k.once }
      taken false false = drain-Ended false r' (record { once = k.once })

  on_stderr-Ended :
      (chunk : String) (r : Runner) → Ended r → Ended (on_stderr adapter text asks chunk r)
  unfolding on_stderr
  on_stderr-Ended chunk r k = taken (not r.child || is_some r.close_outcome)
    where
      r' : Runner
      r' = record r { stderr_tail = text.last_units (r.stderr_tail <> chunk) }

      ev : Emitted
      ev = from_stderr (record { kind = "stderr_chunk"; fields = field "text" (str chunk) end })

      taken : (b : Bool) → Ended (if b then r else emit adapter text asks ev r')
      taken true = k
      taken false = emit-Ended ev r' (record { once = k.once })

  on_closed-Ended :
      (code : Option ℕ) (signalled : Bool) (r : Runner)
      → Ended r
      → Ended (on_closed adapter text asks code signalled r)
  unfolding on_closed
  on_closed-Ended code signalled r k = taken (not r.child || is_some r.close_outcome) _
    where
      taken :
          (b : Bool) (o : EngineOutcome)
          → Ended (
              if b
              then r
              else maybe_finish_closed adapter text asks (record r { close_outcome = some o }))
      taken true o = k
      taken false o =
          maybe_finish_closed-Ended (record r { close_outcome = some o }) (record { once = k.once })

  start-Ended : (r : Runner) → Ended r → Ended (start adapter text asks r)
  unfolding start
  start-Ended r k = taken (r.finished || r.child) r.cancelled
    where
      taken :
          (b c : Bool)
          → Ended (
              if b
              then r
              else if c
              then finish adapter text asks EngineOutcome.cancelled r
              else record r { child = true })
      taken true c = k
      taken false true = finish-Ended EngineOutcome.cancelled r k
      taken false false = record { once = k.once }

  settle-Ended : (r : Runner) → Ended r → Ended (settle adapter text asks r)
  unfolding settle
  settle-Ended r k = taken r.settling
    where
      taken :
          (b : Bool) → Ended (if b then finish adapter text asks EngineOutcome.cancelled r else r)
      taken true = finish-Ended EngineOutcome.cancelled r k
      taken false = k

  on_error-Ended :
      (message : String) (r : Runner) → Ended r → Ended (on_error adapter text asks message r)
  unfolding on_error
  on_error-Ended message r k = taken r.child
    where
      ev : Emitted
      ev = from_error (record { kind = "engine_error"; fields = field "error" (str message) end })

      taken :
          (b : Bool)
          → Ended (
              if b
              then finish adapter text asks
                  (error none (some "spawn_failed"))
                  (emit adapter text asks ev r)
              else r)
      taken true =
          finish-Ended (error none (some "spawn_failed")) (emit adapter text asks ev r)
            (emit-Ended ev r k)
      taken false = k

  step-Ended : (i : Input) (r : Runner) → Ended r → Ended (step adapter text asks i r)
  unfolding step pause cancel
  step-Ended starts r k = start-Ended r k
  step-Ended (stdout chunk) r k = on_stdout-Ended chunk r k
  step-Ended (stderr chunk) r k = on_stderr-Ended chunk r k
  step-Ended (fails message) r k = on_error-Ended message r k
  step-Ended (closes code signalled) r k = on_closed-Ended code signalled r k
  step-Ended pauses r k = record { once = ground (arith, k.once) }
  step-Ended resumes r k = resume-Ended r k
  step-Ended cancels r k = record { once = ground (arith, k.once) }
  step-Ended settles r k = settle-Ended r k

-- Along any run, however the process, the callback and the caller act, the end has been reported just once if
-- the run is finished, and not at all if it is not.
pub run-Ended :
    (adapter : Adapter) (text : Text) (is : List (Input × (List Output → Bool))) (r : Runner)
    → Ended r
    → Ended (run adapter text is r)
unfolding run
run-Ended adapter text [] r k = k
run-Ended adapter text ((i, p) ∷ is) r k =
    run-Ended adapter text is (step adapter text p i r) (step-Ended adapter text p i r k)
