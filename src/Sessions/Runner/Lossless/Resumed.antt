-- ===== src/Sessions/Runner/Lossless/Resumed.antt =====
-- `resume` of src/sessions/resume.ts keeps every event of the process.
use hugin_agent.Prelude.{
  ℕ, ◌≡◌, ◌⊎◌, refl, sym, ap, ◌∙◌, Bool, true, false, not, ◌||◌, List, [], ◌∷◌, ◌++◌, append_assoc,
  append-nil, is_some, Bool-cases, Option-cases, inl, inr, arith,
}
use mathlib.Core.Path.{subst}
use hugin_agent.Sessions.Runner.{
  Emitted, Output, event, Adapter, Text, Runner, pause, deliver, drain, maybe_finish_closed, flush,
  resume,
}
use hugin_agent.Sessions.Runner.Lossless.Shown.{
  called, called-append, held_back, stdout_event, shown, Flowing,
}
use hugin_agent.Sessions.Runner.Lossless.Mid.{
  Kept, Kept-unsettled, Mid, Mid-same, drain-closed-Mid, drain-open-Mid, maybe_finish_closed-Kept,
}

module _ (adapter : Adapter) (text : Text) (asks : List Output → Bool) where
  pub deliver-same :
      (e : Emitted) (r : Runner)
      → let r' = deliver adapter text asks e r in
        (r'.out ≡ r.out ++ event e ∷ [])
        × (r'.buf ≡ r.buf)
        × (r'.close_outcome ≡ r.close_outcome)
        × (r'.pending ≡ r.pending)
  unfolding deliver pause
  deliver-same e r = ground arith

  pub Flushed : List Emitted → Runner → Runner → Type 0
  Flushed es r r' =
      (shown r' ≡ called r.out ++ held_back es)
      × Flowing r'
      × (r'.buf ≡ r.buf)
      × (r'.close_outcome ≡ r.close_outcome)

  pub flush-Flushed : (es : List Emitted) (r : Runner) → Flushed es r (flush adapter text asks es r)
  unfolding flush held_back Flushed called
  flush-Flushed [] r = (refl, λ free. refl, refl, refl)
  flush-Flushed (e ∷ es) r =
      held (Bool-cases r.paused) (flush-Flushed es (deliver adapter text asks e r))
        (deliver-same e r)
    where
      next : Runner
      next = deliver adapter text asks e r

      held :
          (r.paused ≡ true) ⊎ (r.paused ≡ false)
          → Flushed es next (flush adapter text asks es next)
          → (next.out ≡ r.out ++ event e ∷ [])
            × (next.buf ≡ r.buf)
            × (next.close_outcome ≡ r.close_outcome)
            × (next.pending ≡ r.pending)
          → Flushed (e ∷ es) r (flush adapter text asks (e ∷ es) r)
      held (inl p) f d =
          let same : flush adapter text asks (e ∷ es) r ≡ record r { pending = e ∷ es } =
            ground arith in
          subst (Flushed (e ∷ es) r) (sym same) (refl, λ free. absurd (ground arith), refl, refl)
      held (inr p) f d =
          let same : flush adapter text asks (e ∷ es) r ≡ flush adapter text asks es next =
            ground arith in
          subst (Flushed (e ∷ es) r) (sym same) (
            f.0
                ∙ ap (λ os. called os ++ held_back es) d.0
                ∙ ap (λ x. x ++ held_back es)
                    (called-append r.out (event e ∷ [])
                      ∙ ap (◌++◌ (called r.out)) (append-nil (stdout_event e)))
                ∙ append_assoc (called r.out) (stdout_event e) (held_back es),
            f.1,
            f.2 ∙ d.1,
            f.3 ∙ d.2,
          )

  pub drain-Mid :
      (all : List ℕ) (r : Runner)
      → Mid adapter text all r
      → Mid adapter text all (drain adapter text asks (is_some r.close_outcome) r)
  drain-Mid all r m = elim (Option-cases r.close_outcome) [
    | inl o ↦
        subst (λ b. Mid adapter text all (drain adapter text asks b r)) (ap is_some (sym o))
          (drain-open-Mid adapter text asks all r o m)
    | inr (o, e) ↦
        subst (λ b. Mid adapter text all (drain adapter text asks b r)) (ap is_some (sym e))
          (drain-closed-Mid adapter text asks all r o e m)
  ]

  pub resume-Kept :
      (all : List ℕ) (r : Runner)
      → Kept adapter text all r
      → Kept adapter text all (resume adapter text asks r)
  unfolding resume
  resume-Kept all r k =
      resumed (Bool-cases (r.finished || not r.paused)) (Bool-cases flushed.paused)
        (Bool-cases drained.paused)
    where
      goal : Runner
      goal = resume adapter text asks r

      flushed : Runner
      flushed = flush adapter text asks r.pending (record r { paused = false })

      drained : Runner
      drained = drain adapter text asks (is_some r.close_outcome) flushed

      f : Flushed r.pending (record r { paused = false }) flushed
      f = flush-Flushed r.pending (record r { paused = false })

      m : Mid adapter text all flushed
      m = unfold Flushed in Mid-same adapter text asks all r flushed f.1 f.0 f.2 f.3 k.mid

      n : Mid adapter text all drained
      n =
          unfold Flushed in
          subst (λ o. Mid adapter text all (drain adapter text asks (is_some o) flushed)) f.3
            (drain-Mid all flushed m)

      resumed :
          ((r.finished || not r.paused) ≡ true) ⊎ ((r.finished || not r.paused) ≡ false)
          → (flushed.paused ≡ true) ⊎ (flushed.paused ≡ false)
          → (drained.paused ≡ true) ⊎ (drained.paused ≡ false)
          → Kept adapter text all goal
      resumed (inl e) p q =
          let same : goal ≡ r = ground arith in subst (Kept adapter text all) (sym same) k
      resumed (inr e) (inl p) q =
          let same : goal ≡ flushed = ground arith in
          subst (Kept adapter text all) (sym same)
            (Kept-unsettled adapter text asks all flushed (inl p) m)
      resumed (inr e) (inr p) (inl q) =
          let same : goal ≡ drained = ground arith in
          subst (Kept adapter text all) (sym same)
            (Kept-unsettled adapter text asks all drained (inl q) n)
      resumed (inr e) (inr p) (inr q) =
          let same : goal ≡ maybe_finish_closed adapter text asks drained = ground arith in
          subst (Kept adapter text all) (sym same)
            (maybe_finish_closed-Kept adapter text asks all drained n)
