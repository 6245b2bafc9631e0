-- ===== src/Sessions/Runner/Lossless/Drained.antt =====
-- What `drain` of src/sessions/resume.ts adds to the events passed on or held back.
use hugin_agent.Prelude.{
  ℕ, suc, ◌≡◌, ◌⊎◌, refl, sym, ap, ◌∙◌, Bool, true, false, Option, none, some, List, [], ◌∷◌, ◌++◌,
  append-nil, if◌then◌else◌, length, Bool-cases, inl, inr, arith, trim,
}
use mathlib.Core.Path.{subst}
use hugin_agent.Json.{Json}
use hugin_agent.Conn.Outbound.{EngineEvent}
use hugin_agent.Engine.Lines.{each_line, each_line-fold, complete, tail, complete-tail}
use hugin_agent.Sessions.Runner.{
  Emitted, from_stdout, Output, Adapter, Text, Runner, pause, deliver, emit, emit_all, parse_line,
  parse_and_emit, go_on, keep_rest, is_blank, drain,
}
use hugin_agent.Sessions.Runner.Lossless.Shown.{Emits, Flowing, events_of, line_events, text_events}
use hugin_agent.Sessions.Runner.Lossless.Emits.{Emits-trans, fold-Emits, parse_and_emit-Emits}

module _ (adapter : Adapter) (text : Text) (asks : List Output → Bool) where
  -- What the loop over the lines comes to.
  pub lines_read : Runner → Runner
  lines_read r = keep_rest adapter text asks (
      each_line (go_on adapter text asks) (parse_and_emit adapter text asks) (suc (length r.buf)) r
        r.buf)

  pub lines_read-Emits :
      (r : Runner)
      → Flowing r
      → Emits r (lines_read r) (events_of adapter text (complete r.buf))
        × ((lines_read r).buf ≡ tail r.buf)
  unfolding lines_read
  lines_read-Emits r f =
      let e =
        each_line-fold (parse_and_emit adapter text asks) (suc (length r.buf)) r r.buf
          (omega arith) in
      let all = fold-Emits adapter text asks (complete r.buf) r f in
      rw e (
        record {
          more = all.more;
          flowing = all.flowing;
          closing = all.closing;
          ending = all.ending;
          cancelling = all.cancelling;
        },
        refl,
      )

  pub drain-Emits :
      (r : Runner)
      → Flowing r
      → Emits r (drain adapter text asks false r) (events_of adapter text (complete r.buf))
        × ((drain adapter text asks false r).buf ≡ tail r.buf)
  unfolding drain lines_read
  drain-Emits r f = lines_read-Emits r f

  pub blank-nil : (s : List ℕ) → is_blank (trim s) ≡ true → line_events adapter text s ≡ []
  unfolding line_events parse_line
  blank-nil s h = read (trim s) h
    where
      read :
          (xs : List ℕ)
          → is_blank xs ≡ true
          → (elim (elim xs as (λ x. Option Json) [ [] ↦ none | c ∷ cs ↦ text.parse (c ∷ cs) ])
              as (λ x. List EngineEvent) [ none ↦ [] | some v ↦ adapter.events v ])
            ≡ []
      read [] e = refl
      read (c ∷ cs) e = absurd (ground arith)

  pub emit-buf : (e : Emitted) (r : Runner) → (emit adapter text asks e r).buf ≡ r.buf
  unfolding emit deliver pause
  emit-buf e r = ground arith

  pub emit_all-buf :
      (es : List EngineEvent) (r : Runner) → (emit_all adapter text asks es r).buf ≡ r.buf
  unfolding emit_all
  emit_all-buf [] r = refl
  emit_all-buf (e ∷ es) r =
      emit_all-buf es (emit adapter text asks (from_stdout e) r) ∙ emit-buf (from_stdout e) r

  pub parse_and_emit-buf :
      (line : List ℕ) (r : Runner) → (parse_and_emit adapter text asks line r).buf ≡ r.buf
  unfolding parse_and_emit
  parse_and_emit-buf line r = read (parse_line text line)
    where
      read :
          (o : Option Json)
          → (elim o as (λ x. Runner) [
            | none ↦ r
            | some v ↦
                emit_all adapter text asks
                  (adapter.events v)
                  (record r { findings = adapter.observe v r.findings })
          ]).buf
            ≡ r.buf
      read none = refl
      read (some v) =
          emit_all-buf (adapter.events v) (record r { findings = adapter.observe v r.findings })

  pub text_events-nil : text_events adapter text [] ≡ []
  unfolding events_of complete tail trim
  text_events-nil = blank-nil [] refl

  pub text_events-tail :
      (s : List ℕ) → is_blank (trim (tail s)) ≡ true → text_events adapter text (tail s) ≡ []
  unfolding events_of
  text_events-tail s h = let last = complete-tail s in rw (last.0, last.1) (blank-nil (tail s) h)

  pub drain-all-Emits :
      (r : Runner)
      → Flowing r
      → Emits r (drain adapter text asks true r) (text_events adapter text r.buf)
        × (text_events adapter text (drain adapter text asks true r).buf ≡ [])
  unfolding drain lines_read
  drain-all-Emits r f = split (Bool-cases (is_blank (trim r'.buf)))
    where
      r' : Runner
      r' = lines_read r

      first : Emits r r' (events_of adapter text (complete r.buf)) × (r'.buf ≡ tail r.buf)
      first = lines_read-Emits r f

      cleared : Runner
      cleared = record r' { buf = [] }

      last :
          Emits cleared
            (parse_and_emit adapter text asks r'.buf cleared)
            (line_events adapter text r'.buf)
      last = parse_and_emit-Emits adapter text asks r'.buf cleared first.0.flowing

      split :
          (is_blank (trim r'.buf) ≡ true) ⊎ (is_blank (trim r'.buf) ≡ false)
          → Emits r (drain adapter text asks true r) (text_events adapter text r.buf)
            × (text_events adapter text (drain adapter text asks true r).buf ≡ [])
      split (inl blank) =
          let same : drain adapter text asks true r ≡ r' =
            ap (λ (b : Bool). if b then r' else parse_and_emit adapter text asks r'.buf cleared)
              blank in
          let blank' = ap (λ t. is_blank (trim t)) (sym first.1) ∙ blank in
          let nothing =
            sym (append-nil (events_of adapter text (complete r.buf)))
            ∙ ap (◌++◌ (events_of adapter text (complete r.buf)))
                (sym (blank-nil (tail r.buf) blank')) in
          (
            subst (λ x. Emits r x (text_events adapter text r.buf)) (sym same)
                (subst (Emits r r') nothing first.0),
            ap (λ (x : Runner). text_events adapter text x.buf) same
                ∙ ap (text_events adapter text) first.1
                ∙ text_events-tail r.buf blank',
          )
      split (inr full) =
          let same : drain adapter text asks true r
              ≡ parse_and_emit adapter text asks r'.buf cleared =
            ap (λ (b : Bool). if b then r' else parse_and_emit adapter text asks r'.buf cleared)
              full in
          let said =
            ap (λ t. events_of adapter text (complete r.buf) ++ line_events adapter text t)
              first.1 in
          let both =
            Emits-trans adapter text asks r r' (parse_and_emit adapter text asks r'.buf cleared)
              (events_of adapter text (complete r.buf)) (line_events adapter text r'.buf) first.0
              (record {
                more = last.more;
                flowing = last.flowing;
                closing = last.closing;
                ending = last.ending;
                cancelling = last.cancelling;
              }) in
          (
            subst (λ x. Emits r x (text_events adapter text r.buf)) (sym same)
                (subst (Emits r (parse_and_emit adapter text asks r'.buf cleared)) said both),
            ap (λ (x : Runner). text_events adapter text x.buf) same
                ∙ ap (text_events adapter text) (parse_and_emit-buf r'.buf cleared)
                ∙ text_events-nil,
          )
