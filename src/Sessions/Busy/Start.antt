-- ===== src/Sessions/Busy/Start.antt =====
-- A new turn of src/sessions/resume-manager.ts keeps turns and active sessions in step.
use hugin_agent.Prelude.{
  ◌≡◌, refl, sym, ap, ◌⊎◌, inl, inr, String, false, not, ◌||◌, none, str_eq, ◌<>◌, Bool-cases,
  Option-cases, arith, eq_iff,
}
use mathlib.Core.Path.{subst}
use hugin_agent.Prelude.Map
use hugin_agent.Sessions.ResumeManager.{
  Env, ResumeManager, TurnState, TurnStart, SessionHandleTarget, Started, started, throws,
  attach_throws, ResumeSpec, error, resume_accept, engine_text, plan_forks, add_key, contains,
  contains-add_key, contains-delete_key, session_key, fail_start, enter_turn, new_turn, spec_of,
  begin_turn, start_turn, reject, run, send,
}
use hugin_agent.Sessions.Busy.Kept.{Busy, Busy-equal, Busy-same, Busy-finalize}

pub entered-Busy :
    (m m' : ResumeManager) (id : String) (st : TurnState)
    → Map.get m.turns id ≡ none
    → contains st.key m.active ≡ false
    → st.finalized ≡ false
    → m'.turns ≡ Map.set m.turns id st
    → ((k : String) → contains k m'.active ≡ (str_eq st.key k || contains k m.active))
    → Busy m
    → Busy m'
entered-Busy m m' id st unused idle fin t a b = record {
  live_is_active = λ j s h. ground (
    arith,
    ap (λ ts. Map.get ts j) t,
    h,
    a s.key,
    Map.get-set m.turns id j st,
    eq_iff st.key s.key,
    b.live_is_active j s,
  );
  one_per_session = λ i j s u h k e. ground (
    arith,
    ap (λ ts. Map.get ts i) t,
    ap (λ ts. Map.get ts j) t,
    h,
    k,
    Map.get-set m.turns id i st,
    Map.get-set m.turns id j st,
    eq_iff id i,
    eq_iff id j,
    b.live_is_active i s,
    b.live_is_active j u,
    b.one_per_session i j s u,
    e,
  );
  active_has_turn = λ k h. elim (Bool-cases (str_eq st.key k)) [
    | inl new ↦ (
      id,
      st,
      rw t (ground (arith, Map.get-set m.turns id id st, eq_iff id id)),
      (eq_iff st.key k).0 new,
    )
    | inr old ↦
        (let (j, s, at_s, same) = b.active_has_turn k (ground (arith, a k)) in
          (j, s, rw t (ground (arith, Map.get-set m.turns id j st, eq_iff id j)), same))
  ];
}

pub Started-cases :
    (s : Started)
    → (s ≡ started)
      ⊎ (((message : String) × (s ≡ throws message))
          ⊎ ((message : String) × (s ≡ attach_throws message)))
Started-cases started = inl refl
Started-cases (throws message) = inr (inl (message, refl))
Started-cases (attach_throws message) = inr (inr (message, refl))

-- A request for a turn is refused, or its session was idle and the turn begins.
pub start_cases :
    (env : Env) (id : String) (req : TurnStart) (m : ResumeManager)
    → ((code : String) × (message : String) × (start_turn env id req m ≡ reject req code message m))
      ⊎ ((target : SessionHandleTarget) × (run : ResumeSpec → Started) × (start_turn env id req m
            ≡ begin_turn id req target run m)
          × (contains (session_key target) m.active ≡ false))
unfolding start_turn
start_cases env id req m = elim (Option-cases (env.validate_handle req.handle)) [
  | inl invalid ↦ inl ("handle_invalid", "session handle is invalid or stale", ground arith)
  | inr (target, valid) ↦ elim (Option-cases (env.runner target.engine)) [
    | inl absent ↦ inl (
      "engine_unavailable",
      engine_text target.engine <> " resume runner is not available",
      ground (arith, valid),
    )
    | inr (run, present) ↦ elim (Bool-cases (contains (session_key target) m.active)) [
      | inl taken ↦ inl (
        "session_busy",
        "a resume turn is already active for this session",
        ground (arith, valid, present),
      )
      | inr idle ↦ inr (target, run, ground (arith, valid, present), idle)
    ]
  ]
]

pub entered_turn-Busy :
    (id : String) (target : SessionHandleTarget) (spec : ResumeSpec) (m a : ResumeManager)
    → Map.get m.turns id ≡ none
    → contains (session_key target) m.active ≡ false
    → a.turns ≡ m.turns
    → ((k : String) → contains k a.active ≡ (str_eq (session_key target) k || contains k m.active))
    → Busy m
    → Busy (enter_turn id target spec a)
unfolding enter_turn
entered_turn-Busy id target spec m a unused idle t act b =
    entered-Busy m (enter_turn id target spec a) id (new_turn target a.run_count) unused idle refl
      (ap (λ ts. Map.set ts id (new_turn target a.run_count)) t) act b

pub begin_turn-Busy :
    (id : String) (req : TurnStart) (target : SessionHandleTarget) (run : ResumeSpec → Started)
    (m : ResumeManager)
    → Map.get m.turns id ≡ none
    → contains (session_key target) m.active ≡ false
    → Busy m
    → Busy (begin_turn id req target run m)
unfolding begin_turn fail_start send enter_turn Map.has
begin_turn-Busy id req target run m unused idle b = elim (Started-cases (run spec)) [
  | inl ran ↦ subst Busy (sym (ground (arith, ran))) entered
  | inr (inl (message, threw)) ↦
      Busy-equal m (begin_turn id req target run m)
        (λ k. ground (
          arith,
          threw,
          unused,
          idle,
          contains-delete_key key k accepted.active,
          contains-add_key key k m.active,
          eq_iff key k,
        ))
        (ground (arith, threw, unused)) b
  | inr (inr (message, threw)) ↦
      subst Busy
        (sym (
          ground
            (arith, threw, Map.get-set m.turns id id (new_turn target m.run_count), eq_iff id id)))
        (Busy-finalize id error message none (enter_turn id target spec accepted) entered)
]
  where
    key : String
    key = session_key target

    spec : ResumeSpec
    spec = spec_of target req.message

    accepted : ResumeManager
    accepted =
        send
          (resume_accept req.request_id id (plan_forks target.engine)
            (not (plan_forks target.engine)))
          (record m { active = add_key key m.active })

    entered : Busy (enter_turn id target spec accepted)
    entered =
        entered_turn-Busy id target spec m accepted unused idle refl
          (λ k. contains-add_key key k m.active) b

pub start_turn-Busy :
    (env : Env) (id : String) (req : TurnStart) (m : ResumeManager)
    → Map.get m.turns id ≡ none
    → Busy m
    → Busy (start_turn env id req m)
unfolding reject send
start_turn-Busy env id req m unused b = elim (start_cases env id req m) [
  | inl (code, message, e) ↦
      Busy-same m (start_turn env id req m) (ap (λ (x : ResumeManager). x.active) e)
        (ap (λ (x : ResumeManager). x.turns) e) b
  | inr (target, run, e, idle) ↦
      subst Busy (sym e) (begin_turn-Busy id req target run m unused idle b)
]
