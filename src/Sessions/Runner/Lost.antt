-- ===== src/Sessions/Runner/Lost.antt =====
-- A runner of src/sessions/resume.ts that loses events: `maybeFinishClosed` reports the end also when the callback paused while the last line was read.
use hugin_agent.Prelude.{
  ℕ, suc, ◌≡◌, refl, sym, ap, ◌∙◌, Bool, true, false, Option, none, some, List, [], ◌∷◌, ◌++◌,
  append-nil, length, is_some, arith, trim,
}
use mathlib.Core.Path.{subst}
use hugin_agent.Json.{Json}
use hugin_agent.Conn.Outbound.{EngineEvent}
use hugin_agent.Jobs.Types.{EngineOutcome}
use hugin_agent.Engine.Lines.{cut_line, cut_line-none, each_line, each_line-fold}
use hugin_agent.Sessions.Runner.{
  from_stdout, Output, event, done, Adapter, Text, Runner, pause, deliver, emit, emit_all, finish,
  parse_line, parse_and_emit, is_blank, go_on, drain, maybe_finish_closed, resume, on_stdout,
  on_stderr, on_error, on_closed, start, cancel, settle, outcome_of, result_of, Input, starts,
  stdout, stderr, fails, closes, pauses, resumes, cancels, settles, step, run,
}
use hugin_agent.Sessions.Runner.Lossless.{called, called-append}

-- The end was reported while the run was paused.
record Stuck (r : Runner) : Type 0 where
  reported : r.finished ≡ true
  held : r.paused ≡ true
  closed : is_some r.close_outcome ≡ true

step-Stuck :
    (adapter : Adapter) (text : Text) (asks : List Output → Bool) (i : Input) (r : Runner)
    → Stuck r
    → Stuck (step adapter text asks i r) × ((step adapter text asks i r).out ≡ r.out)
unfolding step start on_stdout on_stderr on_error emit finish on_closed pause resume cancel settle
step-Stuck adapter text asks starts r k = ground (arith, k.reported, k.held, k.closed)
step-Stuck adapter text asks (stdout chunk) r k = ground (arith, k.reported, k.held, k.closed)
step-Stuck adapter text asks (stderr chunk) r k = ground (arith, k.reported, k.held, k.closed)
step-Stuck adapter text asks (fails message) r k = ground (arith, k.reported, k.held, k.closed)
step-Stuck adapter text asks (closes code signalled) r k =
    ground (arith, k.reported, k.held, k.closed)
step-Stuck adapter text asks pauses r k = ground (arith, k.reported, k.held, k.closed)
step-Stuck adapter text asks resumes r k = ground (arith, k.reported, k.held, k.closed)
step-Stuck adapter text asks cancels r k = ground (arith, k.reported, k.held, k.closed)
step-Stuck adapter text asks settles r k = ground (arith, k.reported, k.held, k.closed)

run-Stuck :
    (adapter : Adapter) (text : Text) (is : List (Input × (List Output → Bool))) (r : Runner)
    → Stuck r
    → (run adapter text is r).out ≡ r.out
unfolding run
run-Stuck adapter text [] r k = refl
run-Stuck adapter text ((i, p) ∷ is) r k =
    let next = step-Stuck adapter text p i r k in
    run-Stuck adapter text is (step adapter text p i r) next.0 ∙ next.1

parsed-not_blank :
    (text : Text) (line : List ℕ) (v : Json)
    → parse_line text line ≡ some v
    → is_blank (trim line) ≡ false
unfolding parse_line
parsed-not_blank text line v h = read (trim line) h
  where
    read :
        (xs : List ℕ)
        → (elim xs as (λ x. Option Json) [ [] ↦ none | c ∷ cs ↦ text.parse (c ∷ cs) ]) ≡ some v
        → is_blank xs ≡ false
    read [] e = absurd (ground arith)
    read (c ∷ cs) e = refl

module _ (adapter : Adapter) (text : Text) (asks : List Output → Bool) where
  -- Paused, it holds back whatever comes.
  emit_all-paused :
      (es : List EngineEvent) (r : Runner)
      → r.paused ≡ true
      → let r' = emit_all adapter text asks es r in
        (r'.out ≡ r.out)
        × (r'.paused ≡ true)
        × (r'.finished ≡ r.finished)
        × (r'.close_outcome ≡ r.close_outcome)
  unfolding emit_all emit
  emit_all-paused [] r h = (refl, h, refl, refl)
  emit_all-paused (e ∷ es) r h =
      let next = emit adapter text asks (from_stdout e) r in
      let held : next ≡ record r { pending = r.pending ++ from_stdout e ∷ [] } = ground arith in
      let rest = emit_all-paused es next (ap (λ (x : Runner). x.paused) held ∙ h) in
      (
        rest.0 ∙ ap (λ (x : Runner). x.out) held,
        rest.1,
        rest.2 ∙ ap (λ (x : Runner). x.finished) held,
        rest.3 ∙ ap (λ (x : Runner). x.close_outcome) held,
      )

  -- The callback pauses at the first of the events.
  emit_all-first :
      (e : EngineEvent) (es : List EngineEvent) (r : Runner)
      → r.paused ≡ false
      → r.finished ≡ false
      → asks (r.out ++ event (from_stdout e) ∷ []) ≡ true
      → let r' = emit_all adapter text asks (e ∷ es) r in
        (r'.out ≡ r.out ++ event (from_stdout e) ∷ [])
        × (r'.paused ≡ true)
        × (r'.finished ≡ false)
        × (r'.close_outcome ≡ r.close_outcome)
  unfolding emit_all emit deliver pause
  emit_all-first e es r p f h =
      let next = emit adapter text asks (from_stdout e) r in
      let given : next ≡ record r { out = r.out ++ event (from_stdout e) ∷ []; paused = true } =
        ground arith in
      let rest = emit_all-paused es next (ap (λ (x : Runner). x.paused) given) in
      (
        rest.0 ∙ ap (λ (x : Runner). x.out) given,
        rest.1,
        rest.2 ∙ ap (λ (x : Runner). x.finished) given ∙ f,
        rest.3 ∙ ap (λ (x : Runner). x.close_outcome) given,
      )

  finish-Stuck :
      (o : EngineOutcome) (r : Runner)
      → r.finished ≡ false
      → r.paused ≡ true
      → is_some r.close_outcome ≡ true
      → Stuck (finish adapter text asks o r)
        × (called (finish adapter text asks o r).out ≡ called r.out)
  unfolding finish called
  finish-Stuck o r f p c =
      let ended : finish adapter text asks o r ≡ record r {
        finished = true;
        out = r.out ++ done (result_of adapter text asks o r) ∷ [];
      } =
        ground arith in
      (
        record { reported = ground arith; held = ground arith; closed = ground arith },
        ap (λ (x : Runner). called x.out) ended
            ∙ called-append r.out (done (result_of adapter text asks o r) ∷ [])
            ∙ append-nil (called r.out),
      )

  -- The last line of the output, that has no line end.
  drain-last :
      (r : Runner) (v : Json)
      → cut_line r.buf ≡ none
      → parse_line text r.buf ≡ some v
      → drain adapter text asks true r
        ≡ emit_all adapter text asks
            (adapter.events v)
            (record r { buf = []; findings = adapter.observe v r.findings })
  unfolding drain parse_and_emit
  drain-last r v n h =
      let none_left = cut_line-none r.buf n in
      let read =
        each_line-fold (parse_and_emit adapter text asks) (suc (length r.buf)) r r.buf
          (omega arith) in
      let left : each_line (go_on adapter text asks) (parse_and_emit adapter text asks)
            (suc (length r.buf)) r r.buf
          ≡ (r, r.buf) =
        ground (arith, read, none_left) in
      let full = parsed-not_blank text r.buf v h in ground (arith, left, full, h)

  -- A process that printed a last line without a line end, of two events or more, is closed with exit code 0
  -- and no signal while the run is not paused, and the callback pauses at the first of them: the end is reported at once, and the other
  -- events never are, whatever follows.
  pub paused_at_close_loses :
      (r : Runner) (v : Json) (e e' : EngineEvent) (es : List EngineEvent)
      (later : List (Input × (List Output → Bool)))
      → r.child ≡ true
      → r.close_outcome ≡ none
      → r.finished ≡ false
      → r.cancelled ≡ false
      → r.paused ≡ false
      → cut_line r.buf ≡ none
      → parse_line text r.buf ≡ some v
      → adapter.events v ≡ e ∷ e' ∷ es
      → asks (r.out ++ event (from_stdout e) ∷ []) ≡ true
      → let closed = on_closed adapter text asks (some 0) false r in
        (closed.finished ≡ true)
        × (called (run adapter text later closed).out ≡ called r.out ++ e ∷ [])
  unfolding on_closed maybe_finish_closed called
  paused_at_close_loses r v e e' es later child opened f c p n h said pauses_at =
      let code : Option ℕ = some 0 in
      let o = outcome_of false code in
      let shut = record r { close_outcome = some o } in
      let noted = record shut { buf = []; findings = adapter.observe v r.findings } in
      let drained = emit_all adapter text asks (e ∷ e' ∷ es) noted in
      let first = emit_all-first e (e' ∷ es) noted p f pauses_at in
      let end = finish-Stuck o drained first.2 first.1 (ap is_some first.3) in
      let reading = drain-last shut v n h ∙ ap (λ vs. emit_all adapter text asks vs noted) said in
      let closed : on_closed adapter text asks code false r ≡ finish adapter text asks o drained =
        ground (arith, reading) in
      (
        ap (λ (x : Runner). x.finished) closed ∙ end.0.reported,
        ap called (
              run-Stuck adapter text later (on_closed adapter text asks code false r)
                (subst Stuck (sym closed) end.0))
            ∙ ap (λ (x : Runner). called x.out) closed
            ∙ end.1
            ∙ ap called first.0
            ∙ called-append r.out (event (from_stdout e) ∷ []),
      )
