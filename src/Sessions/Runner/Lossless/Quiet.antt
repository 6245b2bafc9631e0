-- ===== src/Sessions/Runner/Lossless/Quiet.antt =====
-- Steps of a runner of src/sessions/resume.ts that read nothing.
use hugin_agent.Prelude.{
  ℕ, ◌≡◌, sym, ap, ◌∙◌, Bool, true, false, not, ◌||◌, List, [], ◌++◌, append-nil, if◌then◌else◌,
  is_some, arith,
}
use hugin_agent.Jobs.Types.{EngineOutcome}
use hugin_agent.Sessions.Runner.{
  Emitted, Output, Adapter, Text, Runner, pause, deliver, emit, finish, Input, stdout,
}
use hugin_agent.Sessions.Runner.Lossless.Shown.{stdout_event, shown}
use hugin_agent.Sessions.Runner.Lossless.Emits.{emit-Emits}
use hugin_agent.Sessions.Runner.Lossless.Drained.{emit-buf}
use hugin_agent.Sessions.Runner.Lossless.Mid.{
  events_in, Mid, Mid-same, Kept, finish-same, finish-cancelled, finish-Mid,
}

-- The text of stdout that a run has read: what its chunks decode to, in order.
abbrev pub taken : Text → Input → Runner → List ℕ → List ℕ
taken text (stdout chunk) r all =
    if not r.child || is_some r.close_outcome then all else all ++ text.decode chunk
taken text _ r all = all

module _ (adapter : Adapter) (text : Text) (asks : List Output → Bool) where
  -- A step after which a run is at most as ready to report its end.
  pub Kept-same :
      (all : List ℕ) (r r' : Runner)
      → r'.buf ≡ r.buf
      → r'.close_outcome ≡ r.close_outcome
      → (r'.cancelled ≡ false → r.cancelled ≡ false)
      → (r'.paused ≡ false → r.paused ≡ false)
      → (r.finished ≡ true → r'.finished ≡ true)
      → Mid adapter text all r'
      → Kept adapter text all r
      → Kept adapter text all r'
  Kept-same all r r' b c x p f m k = record {
    mid = m;
    settled = λ closed free flows.
        let was = k.settled (ap is_some (sym c) ∙ closed) (x free) (p flows) in
        (f was.0, ap (events_in adapter text) b ∙ was.1);
  }

  pub emit-paused :
      (e : Emitted) (r : Runner) → (emit adapter text asks e r).paused ≡ false → r.paused ≡ false
  unfolding emit deliver pause
  emit-paused e r h = ground arith

  pub emit-Kept :
      (all : List ℕ) (e : Emitted) (r : Runner)
      → stdout_event e ≡ []
      → Kept adapter text all r
      → Kept adapter text all (emit adapter text asks e r)
  emit-Kept all e r none_of k =
      let said = emit-Emits adapter text asks e r k.mid.flowing in
      let same = said.more ∙ ap (◌++◌ (shown r)) none_of ∙ append-nil (shown r) in
      Kept-same all r (emit adapter text asks e r) (emit-buf adapter text asks e r) said.closing
        (λ h. sym said.cancelling ∙ h) (emit-paused e r) (λ h. said.ending ∙ h)
        (Mid-same adapter text asks all r (emit adapter text asks e r) said.flowing same
          (emit-buf adapter text asks e r) said.closing k.mid)
        k

  pub finish-Kept :
      (all : List ℕ) (o : EngineOutcome) (r : Runner)
      → Kept adapter text all r
      → Kept adapter text all (finish adapter text asks o r)
  finish-Kept all o r k =
      let same = finish-same adapter text asks o r in
      Kept-same all r (finish adapter text asks o r) same.1 same.2
        (λ h. sym (finish-cancelled adapter text asks o r) ∙ h) (λ h. sym same.4 ∙ h) (λ h. same.0)
        (finish-Mid adapter text asks all o r k.mid) k
