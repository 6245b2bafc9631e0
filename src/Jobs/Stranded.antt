-- ===== src/Jobs/Stranded.antt =====
-- A paused job and the acknowledgements of other attempts: `handleStreamAck` of src/jobs/manager.ts.
use hugin_agent.Prelude.{
  ℕ, suc, ◌≡◌, ◌≢◌, refl, sym, ap, ◌∙◌, ◌⊎◌, inl, inr, String, false, some, List, [], ◌∷◌, ◌==◌,
  if◌then◌else◌, get_elem?, get_elem?-set_self, get_elem?-set_ne, get_elem?-lt, Bool-cases,
  Option-cases, arith, set,
}
use hugin_agent.Jobs.Types.{JobState, StreamAck}
use hugin_agent.Jobs.Registry
use hugin_agent.Jobs.Manager.{
  Env, Manager, Effect, resumes, registered, registered-parts, write_job, with_store, on_run,
}
use hugin_agent.Jobs.Inbound.{handle_stream_ack, resume_below_cap}

-- How often the run was resumed.
unfoldable pub resumed : ℕ → List Effect → ℕ
resumed h [] = 0
resumed h (resumes k ∷ es) = if k == h then suc (resumed h es) else resumed h es
resumed h (e ∷ es) = resumed h es

unfoldable pub ack_all : Env → List (ℕ × StreamAck) → Manager → Manager
ack_all env [] m = m
ack_all env ((now, msg) ∷ rest) m = ack_all env rest (handle_stream_ack env now msg m)

-- Acknowledgements for other attempts only.
abbrev ForOthers : String → List (ℕ × StreamAck) → Type 0
ForOthers id [] = Unit
ForOthers id ((now, msg) ∷ rest) = (msg.attempt_id ≢ id) × ForOthers id rest

-- The job is registered, and shares neither its object nor its run with the job of another attempt.
pub record Alone (other : ℕ) (st' : JobState) (h : ℕ) (m : Manager) : Type 0 where
  pub live : registered m st'.attempt_id ≡ some (other, st')
  pub others :
      (id : String) (ref : ℕ) (st : JobState)
      → id ≢ st'.attempt_id
      → registered m id ≡ some (ref, st)
      → (ref ≢ other) × (st.run ≢ some h)

-- What a step on a job at `ref` changes at most.
record Touches (ref : ℕ) (st : JobState) (m m' : Manager) : Type 0 where
  same_registry : m'.registry ≡ m.registry
  same_or_set : (m'.heap ≡ m.heap) ⊎ (m'.heap ≡ set m.heap ref (record st { paused = false }))
  same_or_resumed :
      (m'.trace ≡ m.trace) ⊎ ((k : ℕ) × (st.run ≡ some k) × (m'.trace ≡ resumes k ∷ m.trace))

same-Alone :
    (other : ℕ) (st' : JobState) (h : ℕ) (m m' : Manager)
    → m'.registry ≡ m.registry
    → m'.heap ≡ m.heap
    → Alone other st' h m
    → Alone other st' h m'
same-Alone other st' h m m' r p a =
    let same : (id : String) → registered m' id ≡ registered m id =
      λ id. unfold registered in ground (arith, r, p) in
    record {
      live = same st'.attempt_id ∙ a.live;
      others = λ id ref st ne e. a.others id ref st ne (sym (same id) ∙ e);
    }

-- What was registered with an attempt before the job at `ref` was set running.
set-before :
    (m m' : Manager) (ref i : ℕ) (st s : JobState) (id : String)
    → m'.registry ≡ m.registry
    → m'.heap ≡ set m.heap ref (record st { paused = false })
    → get_elem? m.heap ref ≡ some st
    → registered m' id ≡ some (i, s)
    → (u : JobState) × (registered m id ≡ some (i, u)) × (u.run ≡ s.run)
set-before m m' ref i st s id r p at e =
    let parts = registered-parts m' id e in
    let there : get_elem? (set m.heap ref (record st { paused = false })) i ≡ some s =
      rw (← p) parts.1 in
    let entry : Registry.get m.registry id ≡ some i = rw (← r) parts.0 in
    elim (Bool-cases (ref == i)) [
      | inl here ↦
          let hit : ref ≡ i = ground (arith, here) in
          (
            st,
            unfold registered in ground (arith, entry, at, hit),
            ground (
              arith,
              there,
              hit,
              get_elem?-set_self m.heap ref (record st { paused = false })
                  (get_elem?-lt m.heap ref at),
            ),
          )
      | inr elsewhere ↦
          let miss : ref ≢ i = λ same. ground (arith, elsewhere, same) in
          (
            s,
            unfold registered in
                ground (
                  arith,
                  entry,
                  there,
                  get_elem?-set_ne m.heap ref i (record st { paused = false }) miss,
                ),
            refl,
          )
    ]

touched-Alone :
    (other h ref : ℕ) (st' st : JobState) (id : String) (m m' : Manager)
    → id ≢ st'.attempt_id
    → registered m id ≡ some (ref, st)
    → Touches ref st m m'
    → Alone other st' h m
    → Alone other st' h m' × (resumed h m'.trace ≡ resumed h m.trace)
touched-Alone other h ref st' st id m m' ne reg t a =
    (kept t.same_or_set, counted t.same_or_resumed)
  where
    at : get_elem? m.heap ref ≡ some st
    at = (registered-parts m id reg).1

    kept :
        (m'.heap ≡ m.heap) ⊎ (m'.heap ≡ set m.heap ref (record st { paused = false }))
        → Alone other st' h m'
    kept (inl p) = same-Alone other st' h m m' t.same_registry p a
    kept (inr p) = record {
      live =
          (let parts = registered-parts m st'.attempt_id a.live in
            unfold registered in
            ground (
              arith,
              t.same_registry,
              p,
              parts,
              get_elem?-set_ne m.heap ref other (record st { paused = false })
                  ((a.others id ref st ne reg).0),
            ));
      others = λ j i s j_ne e.
          (let (u, was, same) = set-before m m' ref i st s j t.same_registry p at e in
            let k = a.others j i u j_ne was in (k.0, λ same_run. k.1 (same ∙ same_run)));
    }

    counted :
        (m'.trace ≡ m.trace) ⊎ ((k : ℕ) × (st.run ≡ some k) × (m'.trace ≡ resumes k ∷ m.trace))
        → resumed h m'.trace ≡ resumed h m.trace
    counted (inl e) = ap (resumed h) e
    counted (inr (k, busy, e)) =
        let differs : (k == h) ≡ false = elim (Bool-cases (k == h)) [
          | inl same ↦
              let hit : k ≡ h = ground (arith, same) in
              absurd ((a.others id ref st ne reg).1 (busy ∙ ap some hit))
          | inr other_run ↦ other_run
        ] in
        ap (resumed h) e ∙ unfold resumed in ground (arith, differs)

ack-Touches :
    (env : Env) (now : ℕ) (msg : StreamAck) (m : Manager) (ref : ℕ) (st : JobState)
    → registered m msg.attempt_id ≡ some (ref, st)
    → Touches ref st m (handle_stream_ack env now msg m)
unfolding handle_stream_ack resume_below_cap write_job with_store on_run
ack-Touches env now msg m ref st reg = elim (Option-cases st.run) [
  | inl idle ↦ record {
    same_registry = ground arith;
    same_or_set = ground arith;
    same_or_resumed = inl (ground arith);
  }
  | inr (k, busy) ↦ record {
    same_registry = ground arith;
    same_or_set = ground arith;
    same_or_resumed = ground arith;
  }
]

ack-Alone :
    (env : Env) (now : ℕ) (msg : StreamAck) (m : Manager) (other h : ℕ) (st' : JobState)
    → msg.attempt_id ≢ st'.attempt_id
    → Alone other st' h m
    → let m' = handle_stream_ack env now msg m in
      Alone other st' h m' × (resumed h m'.trace ≡ resumed h m.trace)
ack-Alone env now msg m other h st' ne a = elim (Option-cases (registered m msg.attempt_id)) [
  | inl gone ↦
      let m' = handle_stream_ack env now msg m in
      unfold handle_stream_ack resume_below_cap with_store in
      (same-Alone other st' h m m' (ground arith) (ground arith) a, ap (resumed h) (ground arith))
  | inr ((ref, st), reg) ↦
      touched-Alone other h ref st' st msg.attempt_id m (handle_stream_ack env now msg m) ne reg
        (ack-Touches env now msg m ref st reg) a
]

-- A job that is paused stays paused as long as only other attempts are acknowledged, however many
-- acknowledgements arrive, accepted or not, and whatever they free: the job is not written, and its run is never
-- resumed, also where a cap on the whole connection had paused it and that cap is lifted now. It is assumed
-- that no other attempt has the job's object or its run.
pub lifted_cap_leaves_paused :
    (env : Env) (acks : List (ℕ × StreamAck)) (m : Manager) (other h : ℕ) (st' : JobState)
    → ForOthers st'.attempt_id acks
    → Alone other st' h m
    → let m' = ack_all env acks m in
      (registered m' st'.attempt_id ≡ some (other, st')) × (resumed h m'.trace ≡ resumed h m.trace)
unfolding ack_all
lifted_cap_leaves_paused env [] m other h st' f a = (a.live, refl)
lifted_cap_leaves_paused env ((now, msg) ∷ rest) m other h st' f a =
    let next = ack-Alone env now msg m other h st' f.0 a in
    let later =
      lifted_cap_leaves_paused env rest (handle_stream_ack env now msg m) other h st' f.1 next.0 in
    (later.0, later.1 ∙ next.1)
