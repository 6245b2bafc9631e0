-- ===== src/Sessions/Busy/Kept.antt =====
-- The agreement of turns and active sessions in src/sessions/resume-manager.ts, and the writes that keep it.
use hugin_agent.Prelude.{
  ◌≡◌, refl, sym, ap, ◌∙◌, inl, inr, String, true, false, not, ◌&&◌, Option, none, some, List, [],
  ◌∷◌, str_eq, Bool-cases, Option-cases, arith, eq_iff,
}
use hugin_agent.Prelude.Map
use hugin_agent.Sessions.ResumeManager.{
  Env, ResumeManager, TurnState, TurnStatus, contains, contains-delete_key, live_turn, write_turn,
  finalize, Input, step, turn_start, session_cancel, session_ack, run_event, run_done, turn_timeout,
  connection_closed,
}

-- A turn in the map is not finalized and its session is active; two turns are never of one session;
-- and every active session has a turn.
pub record Busy (m : ResumeManager) : Type 0 where
  pub live_is_active :
      (id : String) (st : TurnState)
      → Map.get m.turns id ≡ some st
      → (contains st.key m.active ≡ true) × (st.finalized ≡ false)
  pub one_per_session :
      (i j : String) (s t : TurnState)
      → Map.get m.turns i ≡ some s
      → Map.get m.turns j ≡ some t
      → s.key ≡ t.key
      → i ≡ j
  pub active_has_turn :
      (k : String)
      → contains k m.active ≡ true
      → (id : String) × (st : TurnState) × (Map.get m.turns id ≡ some st) × (st.key ≡ k)

-- The id that an input draws for a new turn is not in use.
abbrev pub Unused : Input → ResumeManager → Type 0
Unused (turn_start id req) m = Map.get m.turns id ≡ none
Unused (session_cancel id) m = Unit
Unused (session_ack id n) m = Unit
Unused (run_event id ev) m = Unit
Unused (run_done id result) m = Unit
Unused (turn_timeout id) m = Unit
Unused connection_closed m = Unit

abbrev pub FreshIds : Env → List Input → ResumeManager → Type 0
FreshIds env [] m = Unit
FreshIds env (i ∷ is) m = Unused i m × FreshIds env is (step env i m)

pub Busy-equal :
    (m m' : ResumeManager)
    → ((k : String) → contains k m'.active ≡ contains k m.active)
    → m'.turns ≡ m.turns
    → Busy m
    → Busy m'
Busy-equal m m' a t b = record {
  live_is_active = λ id st h. rw (a st.key) (b.live_is_active id st (rw (← t) h));
  one_per_session = λ i j s u h k e. b.one_per_session i j s u (rw (← t) h) (rw (← t) k) e;
  active_has_turn = λ k h. rw t (b.active_has_turn k (rw (← a k) h));
}

pub Busy-same :
    (m m' : ResumeManager) → m'.active ≡ m.active → m'.turns ≡ m.turns → Busy m → Busy m'
Busy-same m m' a t b = Busy-equal m m' (λ k. ap (contains k) a) t b

-- What is found after a write was there before, under the same key of a session.
pub written_before :
    (m : ResumeManager) (id j : String) (old st s : TurnState)
    → Map.get m.turns id ≡ some old
    → st.key ≡ old.key
    → Map.get (Map.set m.turns id st) j ≡ some s
    → (u : TurnState) × (Map.get m.turns j ≡ some u) × (u.key ≡ s.key)
written_before m id j old st s at key h = elim (Bool-cases (str_eq id j)) [
  | inl same ↦ (old, ground (arith, eq_iff id j), ground (arith, Map.get-set m.turns id j st))
  | inr other ↦ (s, ground (arith, Map.get-set m.turns id j st), refl)
]

pub Busy-write :
    (m : ResumeManager) (id : String) (old st : TurnState)
    → Map.get m.turns id ≡ some old
    → st.key ≡ old.key
    → st.finalized ≡ false
    → Busy m
    → Busy (write_turn id st m)
unfolding write_turn
Busy-write m id old st at key fin b = record {
  live_is_active = λ j s h. ground (
    arith,
    Map.get-set m.turns id j st,
    eq_iff id j,
    b.live_is_active j s,
    b.live_is_active id old at,
  );
  one_per_session = λ i j s u h k e.
      (let (s', at_s, same_s) = written_before m id i old st s at key h in
        let (u', at_u, same_u) = written_before m id j old st u at key k in
        b.one_per_session i j s' u' at_s at_u (same_s ∙ (e ∙ sym same_u)));
  active_has_turn = λ k h.
      (let (j, s, at_s, same) = b.active_has_turn k h in
        elim (Bool-cases (str_eq id j)) [
          | inl hit ↦ (
            id,
            st,
            ground (arith, Map.get-set m.turns id id st, eq_iff id id),
            key ∙ ground (arith, eq_iff id j),
          )
          | inr miss ↦ (j, s, ground (arith, Map.get-set m.turns id j st), same)
        ]);
}

pub live_turn-some :
    (m : ResumeManager) (id : String) (st : TurnState)
    → live_turn m id ≡ some st
    → Map.get m.turns id ≡ some st
unfolding live_turn
live_turn-some m id st h = ground arith

pub live_turn-none :
    (m : ResumeManager) (id : String) → Busy m → live_turn m id ≡ none → Map.get m.turns id ≡ none
unfolding live_turn
live_turn-none m id b h = elim (Option-cases (Map.get m.turns id)) [
  | inl gone ↦ gone
  | inr (st, at) ↦ absurd (ground (arith, b.live_is_active id st at))
]

pub removed_before :
    (m : ResumeManager) (id j : String) (s : TurnState)
    → Map.get (Map.remove m.turns id) j ≡ some s
    → (Map.get m.turns j ≡ some s) × (str_eq id j ≡ false)
removed_before m id j s h = ground (arith, Map.get-remove m.turns id j)

pub finalized-Busy :
    (m m' : ResumeManager) (id : String) (st : TurnState)
    → Map.get m.turns id ≡ some st
    → m'.turns ≡ Map.remove m.turns id
    → ((k : String) → contains k m'.active ≡ (not (str_eq st.key k) && contains k m.active))
    → Busy m
    → Busy m'
finalized-Busy m m' id st at t a b = record {
  live_is_active = λ j s h.
      (let (at_s, other) = removed_before m id j s (rw (← t) h) in
        ground (
          arith,
          a s.key,
          b.live_is_active j s at_s,
          b.one_per_session id j st s at at_s,
          eq_iff st.key s.key,
          eq_iff id j,
        ));
  one_per_session = λ i j s u h k e.
      b.one_per_session i j s u (removed_before m id i s (rw (← t) h)).0
        (removed_before m id j u (rw (← t) k)).0 e;
  active_has_turn = λ k h.
      (let (j, s, at_s, same) = b.active_has_turn k (ground (arith, a k)) in
        (
          j,
          s,
          rw t (ground (arith, Map.get-remove m.turns id j, eq_iff id j, eq_iff st.key k, a k)),
          same,
        ));
}

pub Busy-finalize :
    (id : String) (status : TurnStatus) (message : String) (handle : Option String)
    (m : ResumeManager)
    → Busy m
    → Busy (finalize id status message handle m)
unfolding finalize
Busy-finalize id status message handle m b = elim (Option-cases (live_turn m id)) [
  | inl gone ↦ Busy-same m (finalize id status message handle m) (ground arith) (ground arith) b
  | inr (st, live) ↦
      finalized-Busy m (finalize id status message handle m) id st (live_turn-some m id st live)
        (ground arith) (λ k. ground (arith, contains-delete_key st.key k m.active)) b
]
