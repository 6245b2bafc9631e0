-- ===== src/Sessions/Runner/Lossless/Emits.antt =====
-- What one event or one line of src/sessions/resume.ts adds to the events passed on or held back.
use hugin_agent.Prelude.{
  ℕ, ◌≡◌, refl, sym, ap, ◌∙◌, Bool, true, Option, none, some, List, [], ◌∷◌, ◌++◌, append_assoc,
  append-nil, Bool-cases, inl, inr, arith,
}
use mathlib.Core.Path.{subst}
use hugin_agent.Json.{Json}
use hugin_agent.Conn.Outbound.{EngineEvent}
use hugin_agent.Engine.Lines.{fold}
use hugin_agent.Sessions.Runner.{
  Emitted, from_stdout, Output, event, Adapter, Text, Runner, pause, deliver, emit, emit_all,
  parse_line, parse_and_emit,
}
use hugin_agent.Sessions.Runner.Lossless.Shown.{
  Emits, Flowing, called, called-append, events_of, held_back, held_back-append, line_events, shown,
  stdout_event,
}

module _ (adapter : Adapter) (text : Text) (asks : List Output → Bool) where
  pub deliver-Emits :
      (e : Emitted) (r : Runner)
      → r.pending ≡ []
      → Emits r (deliver adapter text asks e r) (stdout_event e)
  unfolding deliver pause called held_back
  deliver-Emits e r h = record {
    more =
        ap (λ os. called os ++ held_back r'.pending) out
        ∙ ap (λ ps. called (r.out ++ event e ∷ []) ++ held_back ps) (pending ∙ h)
        ∙ append-nil (called (r.out ++ event e ∷ []))
        ∙ called-append r.out (event e ∷ [])
        ∙ ap (◌++◌ (called r.out)) (append-nil (stdout_event e))
        ∙ ap (λ es. es ++ stdout_event e) (sym (append-nil (called r.out)))
        ∙ ap (λ ps. (called r.out ++ held_back ps) ++ stdout_event e) (sym h);
    flowing = λ free. pending ∙ h;
    closing = ground arith;
    ending = ground arith;
    cancelling = ground arith;
  }
    where
      r' : Runner
      r' = deliver adapter text asks e r

      out : r'.out ≡ r.out ++ event e ∷ []
      out = ground arith

      pending : r'.pending ≡ r.pending
      pending = ground arith

  pub held-Emits :
      (e : Emitted) (r : Runner)
      → r.paused ≡ true
      → Emits r (record r { pending = r.pending ++ e ∷ [] }) (stdout_event e)
  unfolding held_back
  held-Emits e r held = record {
    more =
        ap (◌++◌ (called r.out)) (
          held_back-append r.pending (e ∷ [])
          ∙ ap (◌++◌ (held_back r.pending)) (append-nil (stdout_event e)))
        ∙ sym (append_assoc (called r.out) (held_back r.pending) (stdout_event e));
    flowing = λ free. absurd (ground arith);
    closing = refl;
    ending = refl;
    cancelling = refl;
  }

  pub emit-Emits :
      (e : Emitted) (r : Runner) → Flowing r → Emits r (emit adapter text asks e r) (stdout_event e)
  unfolding emit
  emit-Emits e r f = elim (Bool-cases r.paused) [
    | inl held ↦
        let same : emit adapter text asks e r ≡ record r { pending = r.pending ++ e ∷ [] } =
          ground arith in
        subst (λ x. Emits r x (stdout_event e)) (sym same) (held-Emits e r held)
    | inr free ↦
        let same : emit adapter text asks e r ≡ deliver adapter text asks e r = ground arith in
        subst (λ x. Emits r x (stdout_event e)) (sym same) (deliver-Emits e r (f free))
  ]

  pub Emits-trans :
      (r s t : Runner) (es fs : List EngineEvent)
      → Emits r s es
      → Emits s t fs
      → Emits r t (es ++ fs)
  Emits-trans r s t es fs a b = record {
    more = b.more ∙ ap (λ x. x ++ fs) a.more ∙ append_assoc (shown r) es fs;
    flowing = b.flowing;
    closing = b.closing ∙ a.closing;
    ending = b.ending ∙ a.ending;
    cancelling = b.cancelling ∙ a.cancelling;
  }

  pub Emits-none :
      (r s : Runner)
      → shown s ≡ shown r
      → Flowing s
      → s.close_outcome ≡ r.close_outcome
      → s.finished ≡ r.finished
      → s.cancelled ≡ r.cancelled
      → Emits r s []
  Emits-none r s e f c d k = record {
    more = e ∙ sym (append-nil (shown r));
    flowing = f;
    closing = c;
    ending = d;
    cancelling = k;
  }

  pub emit_all-Emits :
      (es : List EngineEvent) (r : Runner)
      → Flowing r
      → Emits r (emit_all adapter text asks es r) es
  unfolding emit_all
  emit_all-Emits [] r f = Emits-none r r refl f refl refl refl
  emit_all-Emits (e ∷ es) r f =
      let next = emit adapter text asks (from_stdout e) r in
      let first = emit-Emits (from_stdout e) r f in
      Emits-trans r next (emit_all adapter text asks es next) (e ∷ []) es first
        (emit_all-Emits es next first.flowing)

  pub parse_and_emit-Emits :
      (line : List ℕ) (r : Runner)
      → Flowing r
      → Emits r (parse_and_emit adapter text asks line r) (line_events adapter text line)
  unfolding parse_and_emit line_events
  parse_and_emit-Emits line r f = read (parse_line text line)
    where
      read :
          (o : Option Json)
          → Emits r
              (elim o [
                | none ↦ r
                | some v ↦
                    emit_all adapter text asks
                      (adapter.events v)
                      (record r { findings = adapter.observe v r.findings })
              ])
              (elim o [ none ↦ [] | some v ↦ adapter.events v ])
      read none = Emits-none r r refl f refl refl refl
      read (some v) =
          let noted = record r { findings = adapter.observe v r.findings } in
          let all = emit_all-Emits (adapter.events v) noted f in
          record {
            more = all.more;
            flowing = all.flowing;
            closing = all.closing;
            ending = all.ending;
            cancelling = all.cancelling;
          }

  pub fold-Emits :
      (ls : List (List ℕ)) (r : Runner)
      → Flowing r
      → Emits r (fold (parse_and_emit adapter text asks) ls r) (events_of adapter text ls)
  unfolding events_of
  fold-Emits [] r f = Emits-none r r refl f refl refl refl
  fold-Emits (l ∷ ls) r f =
      let next = parse_and_emit adapter text asks l r in
      let first = parse_and_emit-Emits l r f in
      Emits-trans r next (fold (parse_and_emit adapter text asks) ls next)
        (line_events adapter text l) (events_of adapter text ls) first
        (fold-Emits ls next first.flowing)
