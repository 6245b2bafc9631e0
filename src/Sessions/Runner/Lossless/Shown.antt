-- ===== src/Sessions/Runner/Lossless/Shown.antt =====
-- The events that a runner of src/sessions/resume.ts has passed on or holds back, and those of a text.
use hugin_agent.Prelude.{
  ℕ, ◌≡◌, refl, sym, ap, ◌∙◌, false, none, some, List, [], ◌∷◌, ◌++◌, append_assoc,
}
use hugin_agent.Conn.Outbound.{EngineEvent}
use hugin_agent.Engine.Lines.{complete, tail}
use hugin_agent.Sessions.Runner.{
  Emitted, from_stdout, from_stderr, from_error, Output, event, done, Adapter, Text, Runner,
  parse_line,
}

abbrev pub stdout_event : Emitted → List EngineEvent
stdout_event (from_stdout e) = e ∷ []
stdout_event (from_stderr e) = []
stdout_event (from_error e) = []

-- The events of stdout among the calls, and among the events that are held back.
unfoldable pub called : List Output → List EngineEvent
called [] = []
called (event e ∷ os) = stdout_event e ++ called os
called (done d ∷ os) = called os

unfoldable pub held_back : List Emitted → List EngineEvent
held_back [] = []
held_back (e ∷ es) = stdout_event e ++ held_back es

pub called-append : (xs ys : List Output) → called (xs ++ ys) ≡ called xs ++ called ys
unfolding called
called-append [] ys = refl
called-append (event e ∷ xs) ys =
    ap (◌++◌ (stdout_event e)) (called-append xs ys)
    ∙ sym (append_assoc (stdout_event e) (called xs) (called ys))
called-append (done d ∷ xs) ys = called-append xs ys

pub held_back-append : (xs ys : List Emitted) → held_back (xs ++ ys) ≡ held_back xs ++ held_back ys
unfolding held_back
held_back-append [] ys = refl
held_back-append (e ∷ xs) ys =
    ap (◌++◌ (stdout_event e)) (held_back-append xs ys)
    ∙ sym (append_assoc (stdout_event e) (held_back xs) (held_back ys))

-- All that the process said so far, in the order in which it comes or will come.
abbrev pub shown : Runner → List EngineEvent
shown r = called r.out ++ held_back r.pending

-- Nothing is held back while the run is not paused.
abbrev pub Flowing : Runner → Type 0
Flowing r = r.paused ≡ false → r.pending ≡ []

-- `r'` has the events `es` besides those of `r`, and is otherwise as far.
pub record Emits (r r' : Runner) (es : List EngineEvent) : Type 0 where
  pub more : shown r' ≡ shown r ++ es
  pub flowing : Flowing r'
  pub closing : r'.close_outcome ≡ r.close_outcome
  pub ending : r'.finished ≡ r.finished
  pub cancelling : r'.cancelled ≡ r.cancelled

module _ (adapter : Adapter) (text : Text) where
  -- The events that a line stands for, and those of a whole text, its last line included.
  unfoldable pub line_events : List ℕ → List EngineEvent
  line_events line = elim (parse_line text line) [ none ↦ [] | some v ↦ adapter.events v ]

  unfoldable pub events_of : List (List ℕ) → List EngineEvent
  events_of [] = []
  events_of (l ∷ ls) = line_events l ++ events_of ls

  abbrev pub text_events : List ℕ → List EngineEvent
  text_events s = events_of (complete s) ++ line_events (tail s)

  pub events_of-append :
      (ls ms : List (List ℕ)) → events_of (ls ++ ms) ≡ events_of ls ++ events_of ms
  unfolding events_of
  events_of-append [] ms = refl
  events_of-append (l ∷ ls) ms =
      ap (◌++◌ (line_events l)) (events_of-append ls ms)
      ∙ sym (append_assoc (line_events l) (events_of ls) (events_of ms))
