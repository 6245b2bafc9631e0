-- ===== src/Sessions/Runner/Lossless/Mid.antt =====
-- What every step of a runner of src/sessions/resume.ts keeps of the events of its process.
use hugin_agent.Prelude.{
  ℕ, ◌≡◌, ◌⊎◌, refl, sym, ap, ◌∙◌, Bool, true, false, none, some, List, [], ◌∷◌, ◌++◌, append_assoc,
  append-nil, is_some, Bool-cases, Option-cases, inl, inr, arith,
}
use mathlib.Core.Path.{subst}
use hugin_agent.Conn.Outbound.{EngineEvent}
use hugin_agent.Jobs.Types.{EngineOutcome}
use hugin_agent.Engine.Lines.{complete, tail, complete-tail}
use hugin_agent.Sessions.Runner.{
  Output, done, Adapter, Text, Runner, finish, result_of, drain, maybe_finish_closed,
}
use hugin_agent.Sessions.Runner.Lossless.Shown.{
  called, called-append, held_back, shown, Flowing, Emits, events_of, line_events, text_events,
}
use hugin_agent.Sessions.Runner.Lossless.Drained.{drain-Emits, drain-all-Emits}

module _ (adapter : Adapter) (text : Text) where
  abbrev pub events : List (List ℕ) → List EngineEvent
  events ls = events_of adapter text ls

  abbrev pub events_in : List ℕ → List EngineEvent
  events_in s = text_events adapter text s

  -- With `all` received, every event of it was passed on, is held back or is still in the buffer.
  pub record Mid (all : List ℕ) (r : Runner) : Type 0 where
    pub flowing : Flowing r
    pub kept : shown r ++ events_in r.buf ≡ events_in all
    pub ongoing :
        r.close_outcome ≡ none
        → (shown r ++ events (complete r.buf) ≡ events (complete all)) × (tail r.buf ≡ tail all)

  -- And once the process is closed, the end was reported and nothing is left, unless the run is
  -- cancelled or paused.
  pub record Kept (all : List ℕ) (r : Runner) : Type 0 where
    pub mid : Mid all r
    pub settled :
        is_some r.close_outcome ≡ true
        → r.cancelled ≡ false
        → r.paused ≡ false
        → (r.finished ≡ true) × (events_in r.buf ≡ [])

module _ (adapter : Adapter) (text : Text) (asks : List Output → Bool) where
  -- While it is open, the middle part follows from what the complete lines hold.
  pub Mid-open :
      (all : List ℕ) (r : Runner)
      → Flowing r
      → r.close_outcome ≡ none
      → shown r ++ events adapter text (complete r.buf) ≡ events adapter text (complete all)
      → tail r.buf ≡ tail all
      → Mid adapter text all r
  Mid-open all r f o e t = record {
    flowing = f;
    kept =
        sym (
          append_assoc (shown r) (events adapter text (complete r.buf))
            (line_events adapter text (tail r.buf)))
        ∙ ap (λ es. es ++ line_events adapter text (tail r.buf)) e
        ∙ ap (λ s. events adapter text (complete all) ++ line_events adapter text s) t;
    ongoing = λ _. (e, t);
  }

  -- A step that changes nothing that is said here.
  pub Mid-same :
      (all : List ℕ) (r r' : Runner)
      → Flowing r'
      → shown r' ≡ shown r
      → r'.buf ≡ r.buf
      → r'.close_outcome ≡ r.close_outcome
      → Mid adapter text all r
      → Mid adapter text all r'
  Mid-same all r r' f s b c m = record {
    flowing = f;
    kept =
        ap (λ es. es ++ events_in adapter text r'.buf) s
        ∙ ap (λ t. shown r ++ events_in adapter text t) b
        ∙ m.kept;
    ongoing = λ o.
        let was = m.ongoing (sym c ∙ o) in
        (
          ap (λ es. es ++ events adapter text (complete r'.buf)) s
              ∙ ap (λ t. shown r ++ events adapter text (complete t)) b
              ∙ was.0,
          ap tail b ∙ was.1,
        );
  }

  pub append-events-nil : (es : List EngineEvent) → es ++ events adapter text [] ≡ es
  unfolding events_of
  append-events-nil es = append-nil es

  pub finish-shown :
      (o : EngineOutcome) (r : Runner) → shown (finish adapter text asks o r) ≡ shown r
  unfolding finish called
  finish-shown o r = split (Bool-cases r.finished)
    where
      split :
          (r.finished ≡ true) ⊎ (r.finished ≡ false)
          → shown (finish adapter text asks o r) ≡ shown r
      split (inl e) = rw e refl
      split (inr e) = rw e (
          ap (λ es. es ++ held_back r.pending)
            (called-append r.out (done (result_of adapter text asks o r) ∷ [])
              ∙ append-nil (called r.out)))

  pub finish-same :
      (o : EngineOutcome) (r : Runner)
      → let r' = finish adapter text asks o r in
        (r'.finished ≡ true)
        × (r'.buf ≡ r.buf)
        × (r'.close_outcome ≡ r.close_outcome)
        × (r'.pending ≡ r.pending)
        × (r'.paused ≡ r.paused)
  unfolding finish
  finish-same o r = ground arith

  pub finish-cancelled :
      (o : EngineOutcome) (r : Runner) → (finish adapter text asks o r).cancelled ≡ r.cancelled
  unfolding finish
  finish-cancelled o r = ground arith

  pub finish-Mid :
      (all : List ℕ) (o : EngineOutcome) (r : Runner)
      → Mid adapter text all r
      → Mid adapter text all (finish adapter text asks o r)
  finish-Mid all o r m =
      let same = finish-same o r in
      Mid-same all r (finish adapter text asks o r) (λ free. same.3 ∙ m.flowing (sym same.4 ∙ free))
        (finish-shown o r) same.1 same.2 m

  pub drain-open-Mid :
      (all : List ℕ) (r : Runner)
      → r.close_outcome ≡ none
      → Mid adapter text all r
      → Mid adapter text all (drain adapter text asks false r)
  drain-open-Mid all r o m =
      Mid-open all r' drained.0.flowing (drained.0.closing ∙ o)
        (ap (λ t. shown r' ++ events adapter text (complete t)) drained.1
          ∙ ap (λ ls. shown r' ++ events adapter text ls) last.0
          ∙ ap (λ es. es ++ events adapter text []) drained.0.more
          ∙ append-events-nil (shown r ++ events adapter text (complete r.buf))
          ∙ was.0)
        (ap tail drained.1 ∙ last.1 ∙ was.1)
    where
      r' : Runner
      r' = drain adapter text asks false r

      drained : Emits r r' (events adapter text (complete r.buf)) × (r'.buf ≡ tail r.buf)
      drained = drain-Emits adapter text asks r m.flowing

      last : (complete (tail r.buf) ≡ []) × (tail (tail r.buf) ≡ tail r.buf)
      last = complete-tail r.buf

      was :
          (shown r ++ events adapter text (complete r.buf) ≡ events adapter text (complete all))
          × (tail r.buf ≡ tail all)
      was = m.ongoing o

  pub drain-closed-Mid :
      (all : List ℕ) (r : Runner) (o : EngineOutcome)
      → r.close_outcome ≡ some o
      → Mid adapter text all r
      → Mid adapter text all (drain adapter text asks true r)
  drain-closed-Mid all r o e m = record {
    flowing = drained.0.flowing;
    kept = ap (◌++◌ (shown r')) drained.1 ∙ append-nil (shown r') ∙ drained.0.more ∙ m.kept;
    ongoing = λ n. absurd (ground (arith, drained.0.closing));
  }
    where
      r' : Runner
      r' = drain adapter text asks true r

      drained : Emits r r' (events_in adapter text r.buf) × (events_in adapter text r'.buf ≡ [])
      drained = drain-all-Emits adapter text asks r m.flowing

  pub Kept-unsettled :
      (all : List ℕ) (r : Runner)
      → (r.paused ≡ true) ⊎ (r.cancelled ≡ true) ⊎ (r.close_outcome ≡ none)
      → Mid adapter text all r
      → Kept adapter text all r
  Kept-unsettled all r why m = record {
    mid = m;
    settled = λ closed free flows. absurd (ground arith);
  }

  pub maybe_finish_closed-Kept :
      (all : List ℕ) (r : Runner)
      → Mid adapter text all r
      → Kept adapter text all (maybe_finish_closed adapter text asks r)
  unfolding maybe_finish_closed
  maybe_finish_closed-Kept all r m =
      split (Option-cases r.close_outcome) (Bool-cases r.cancelled) (Bool-cases r.paused)
    where
      goal : Runner
      goal = maybe_finish_closed adapter text asks r

      split :
          (r.close_outcome ≡ none) ⊎ (o : EngineOutcome) × (r.close_outcome ≡ some o)
          → (r.cancelled ≡ true) ⊎ (r.cancelled ≡ false)
          → (r.paused ≡ true) ⊎ (r.paused ≡ false)
          → Kept adapter text all goal
      split (inl o) c p =
          let same : goal ≡ r = ground arith in
          subst (Kept adapter text all) (sym same) (Kept-unsettled all r (inr (inr o)) m)
      split (inr (o, e)) (inl c) p =
          let same : goal ≡ finish adapter text asks o r = ground arith in
          subst (Kept adapter text all) (sym same) (
            Kept-unsettled all (finish adapter text asks o r) (inr (inl (finish-cancelled o r ∙ c)))
              (finish-Mid all o r m))
      split (inr (o, e)) (inr c) (inl p) =
          let same : goal ≡ r = ground arith in
          subst (Kept adapter text all) (sym same) (Kept-unsettled all r (inl p) m)
      split (inr (o, e)) (inr c) (inr p) =
          let drained = drain adapter text asks true r in
          let same : goal ≡ finish adapter text asks o drained = ground arith in
          let read = drain-all-Emits adapter text asks r m.flowing in
          let end = finish-same o drained in
          subst (Kept adapter text all) (sym same) (record {
            mid = finish-Mid all o drained (drain-closed-Mid all r o e m);
            settled = λ closed free flows. (end.0, ap (events_in adapter text) end.1 ∙ read.1);
          })
