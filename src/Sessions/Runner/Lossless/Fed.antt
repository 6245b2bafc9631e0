-- ===== src/Sessions/Runner/Lossless/Fed.antt =====
-- A runner of src/sessions/resume.ts reads a chunk, or its process is closed.
use hugin_agent.Prelude.{
  ℕ, ◌≡◌, ◌⊎◌, refl, sym, ap, ◌∙◌, String, Bool, true, false, not, ◌||◌, Option, none, some, List,
  ◌++◌, append_assoc, if◌then◌else◌, is_some, Bool-cases, inl, inr, arith, ◌<>◌,
}
use mathlib.Core.Path.{subst}
use hugin_agent.Json.{str, field, end}
use hugin_agent.Engine.Lines.{complete, tail, complete-append}
use hugin_agent.Sessions.Runner.{
  Emitted, from_stderr, Output, Adapter, Text, Runner, emit, outcome_of, drain, maybe_finish_closed,
  on_stdout, on_stderr, on_closed,
}
use hugin_agent.Sessions.Runner.Lossless.Shown.{shown, events_of-append}
use hugin_agent.Sessions.Runner.Lossless.Drained.{drain-Emits}
use hugin_agent.Sessions.Runner.Lossless.Mid.{
  events, Mid, Mid-open, Kept, Kept-unsettled, drain-open-Mid, maybe_finish_closed-Kept,
}
use hugin_agent.Sessions.Runner.Lossless.Quiet.{emit-Kept}

module _ (adapter : Adapter) (text : Text) (asks : List Output → Bool) where
  pub fed :
      (all chunk : List ℕ) (r : Runner)
      → r.close_outcome ≡ none
      → Mid adapter text all r
      → (shown r ++ events adapter text (complete (r.buf ++ chunk))
          ≡ events adapter text (complete (all ++ chunk)))
        × (tail (r.buf ++ chunk) ≡ tail (all ++ chunk))
  fed all chunk r o m =
      let was = m.ongoing o in
      let now = complete-append r.buf chunk in
      let then_all = complete-append all chunk in
      let rest = complete (tail all ++ chunk) in
      (
        ap (λ ls. shown r ++ events adapter text ls) now.0
            ∙ ap (◌++◌ (shown r))
                (events_of-append adapter text (complete r.buf) (complete (tail r.buf ++ chunk)))
            ∙ ap
                (λ t.
                  shown r
                  ++ (events adapter text (complete r.buf)
                      ++ events adapter text (complete (t ++ chunk))))
                was.1
            ∙ sym (
                append_assoc (shown r) (events adapter text (complete r.buf))
                  (events adapter text rest))
            ∙ ap (λ es. es ++ events adapter text rest) was.0
            ∙ sym (events_of-append adapter text (complete all) rest)
            ∙ ap (events adapter text) (sym then_all.0),
        now.1 ∙ ap (λ t. tail (t ++ chunk)) was.1 ∙ sym then_all.1,
      )

  pub on_stdout-Kept :
      (all chunk : List ℕ) (r : Runner)
      → Kept adapter text all r
      → Kept adapter text
          (if not r.child || is_some r.close_outcome then all else all ++ text.decode chunk)
          (on_stdout adapter text asks chunk r)
  unfolding on_stdout
  on_stdout-Kept all chunk r k =
      taken (Bool-cases (not r.child || is_some r.close_outcome)) (Bool-cases r.paused)
    where
      goal : Runner
      goal = on_stdout adapter text asks chunk r

      r' : Runner
      r' = record r { buf = r.buf ++ text.decode chunk }

      whole : List ℕ
      whole = if not r.child || is_some r.close_outcome then all else all ++ text.decode chunk

      Goal : List ℕ → Runner → Type 0
      Goal s x = Kept adapter text s x

      next : r.close_outcome ≡ none → Mid adapter text (all ++ text.decode chunk) r'
      next o =
          let now = fed all (text.decode chunk) r o k.mid in
          Mid-open adapter text asks (all ++ text.decode chunk) r' k.mid.flowing o now.0 now.1

      taken :
          ((not r.child || is_some r.close_outcome) ≡ true)
            ⊎ ((not r.child || is_some r.close_outcome) ≡ false)
          → (r.paused ≡ true) ⊎ (r.paused ≡ false)
          → Kept adapter text whole goal
      taken (inl e) p =
          let same : goal ≡ r = ground arith in
          let text_same : whole ≡ all = ground arith in
          subst (λ s. Kept adapter text s goal) (sym text_same)
            (subst (λ x. Kept adapter text all x) (sym same) k)
      taken (inr e) (inl p) =
          let same : goal ≡ r' = ground arith in
          let text_same : whole ≡ all ++ text.decode chunk = ground arith in
          let o : r.close_outcome ≡ none = ground arith in
          subst (λ s. Kept adapter text s goal) (sym text_same)
            (subst (λ x. Kept adapter text (all ++ text.decode chunk) x) (sym same)
              (Kept-unsettled adapter text asks (all ++ text.decode chunk) r' (inl p) (next o)))
      taken (inr e) (inr p) =
          let drained = drain adapter text asks false r' in
          let same : goal ≡ drained = ground arith in
          let text_same : whole ≡ all ++ text.decode chunk = ground arith in
          let o : r.close_outcome ≡ none = ground arith in
          let read = drain-Emits adapter text asks r' k.mid.flowing in
          subst (λ s. Kept adapter text s goal) (sym text_same)
            (subst (λ x. Kept adapter text (all ++ text.decode chunk) x) (sym same)
              (Kept-unsettled adapter text asks (all ++ text.decode chunk) drained
                (inr (inr (read.0.closing ∙ o)))
                (drain-open-Mid adapter text asks (all ++ text.decode chunk) r' o (next o))))

  pub on_closed-Kept :
      (all : List ℕ) (code : Option ℕ) (signalled : Bool) (r : Runner)
      → Kept adapter text all r
      → Kept adapter text all (on_closed adapter text asks code signalled r)
  unfolding on_closed
  on_closed-Kept all code signalled r k =
      split (Bool-cases (not r.child || is_some r.close_outcome))
    where
      goal : Runner
      goal = on_closed adapter text asks code signalled r

      closed : Runner
      closed = record r { close_outcome = some (outcome_of (r.cancelled || signalled) code) }

      mid : Mid adapter text all closed
      mid = record {
        flowing = k.mid.flowing;
        kept = k.mid.kept;
        ongoing = λ h. absurd (ground arith);
      }

      split :
          ((not r.child || is_some r.close_outcome) ≡ true)
            ⊎ ((not r.child || is_some r.close_outcome) ≡ false)
          → Kept adapter text all goal
      split (inl e) =
          let same : goal ≡ r = ground arith in subst (λ x. Kept adapter text all x) (sym same) k
      split (inr e) =
          let same : goal ≡ maybe_finish_closed adapter text asks closed = ground arith in
          subst (λ x. Kept adapter text all x) (sym same)
            (maybe_finish_closed-Kept adapter text asks all closed mid)

  pub on_stderr-Kept :
      (all : List ℕ) (chunk : String) (r : Runner)
      → Kept adapter text all r
      → Kept adapter text all (on_stderr adapter text asks chunk r)
  unfolding on_stderr
  on_stderr-Kept all chunk r k = split (not r.child || is_some r.close_outcome)
    where
      noted : Runner
      noted = record r { stderr_tail = text.last_units (r.stderr_tail <> chunk) }

      same : Kept adapter text all noted
      same = record {
        mid = record { flowing = k.mid.flowing; kept = k.mid.kept; ongoing = k.mid.ongoing };
        settled = k.settled;
      }

      said : Emitted
      said = from_stderr (record { kind = "stderr_chunk"; fields = field "text" (str chunk) end })

      split :
          (b : Bool) → Kept adapter text all (if b then r else emit adapter text asks said noted)
      split true = k
      split false = emit-Kept adapter text asks all said noted refl same
