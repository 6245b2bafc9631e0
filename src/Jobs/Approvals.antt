-- ===== src/Jobs/Approvals.antt =====
-- Remote approvals of src/jobs/manager.ts: a request is answered by a response or by its timer, once.
use hugin_agent.Prelude.{
  ℕ, ◌≡◌, refl, ap, ◌∙◌, String, Option, true, false, none, some, List, [], ◌∷◌, ◌==◌, get_elem?,
  get_elem?-set_self, get_elem?-lt, arith, eq_iff,
}
use hugin_agent.Prelude.Map
use hugin_agent.Store.Rows.{find}
use hugin_agent.Jobs.Types.{JobState, ApprovalRequest, ApprovalResponse, ApprovalDecision, deny}
use hugin_agent.Jobs.Registry
use hugin_agent.Jobs.Manager.{
  Env, Manager, Timer, resolves, registered, registered-parts, live_lease_ok, lease_ok,
  clear_timeout,
}
use hugin_agent.Jobs.Callbacks.{on_approval_request, timer_fires}
use hugin_agent.Jobs.Inbound.{handle_approval_response}

find-clear_timeout :
    (id : ℕ) (ts : List Timer) → find (λ (t : Timer). t.id == id) (clear_timeout id ts) ≡ none
unfolding find clear_timeout
find-clear_timeout id [] = refl
find-clear_timeout id (t ∷ ts) = ground (arith, find-clear_timeout id ts)

-- The job while the request is open.
abbrev asked : Manager → ApprovalRequest → JobState → JobState
asked m req st = record st {
  approval_timers = Map.set st.approval_timers req.request_id m.timer_count;
}

-- The request is registered with the job and with a timer.
record Open (env : Env) (ref : ℕ) (req : ApprovalRequest) (st : JobState) (m m' : Manager)
    : Type 0 where
  live : registered m' st.attempt_id ≡ some (ref, asked m req st)
  armed :
      m'.timers ≡ record { id = m.timer_count; job = ref; request_id = req.request_id } ∷ m.timers

asked-Open :
    (env : Env) (ref : ℕ) (req : ApprovalRequest) (st : JobState) (m : Manager)
    → registered m st.attempt_id ≡ some (ref, st)
    → st.fenced ≡ false
    → Open env ref req st m (on_approval_request env ref req m)
unfolding on_approval_request registered
asked-Open env ref req st m reg live = record {
  live = ground (
    arith,
    registered-parts m st.attempt_id reg,
    get_elem?-set_self m.heap ref (asked m req st)
        (get_elem?-lt m.heap ref (registered-parts m st.attempt_id reg).1),
  );
  armed = ground (arith, registered-parts m st.attempt_id reg);
}

-- The job after its request was settled.
abbrev settled_job : Manager → ApprovalRequest → JobState → JobState
settled_job m req st = record st {
  approval_timers =
      Map.remove (Map.set st.approval_timers req.request_id m.timer_count) req.request_id;
}

forgets :
    (m : Manager) (req : ApprovalRequest) (st : JobState)
    → Map.get (settled_job m req st).approval_timers req.request_id ≡ none
forgets m req st = ground (
  arith,
  Map.get-remove (Map.set st.approval_timers req.request_id m.timer_count) req.request_id
      req.request_id,
  eq_iff req.request_id req.request_id,
)

-- The job knows the request no more, and its timer is not armed.
record Spent (ref : ℕ) (st : JobState) (attempt request : String) (timer : ℕ) (m : Manager)
    : Type 0 where
  live : registered m attempt ≡ some (ref, st)
  forgotten : Map.get st.approval_timers request ≡ none
  disarmed : find (λ (t : Timer). t.id == timer) m.timers ≡ none

answered :
    (env : Env) (now ref h : ℕ) (req : ApprovalRequest) (msg : ApprovalResponse) (st : JobState)
    (m m' : Manager)
    → Open env ref req st m m'
    → st.run ≡ some h
    → msg.attempt_id ≡ st.attempt_id
    → msg.request_id ≡ req.request_id
    → live_lease_ok now (asked m req st) msg.lease_id ≡ true
    → let m2 = handle_approval_response now msg m' in
      (m2.trace ≡ resolves h req.request_id msg.decision msg.reason ∷ m'.trace)
      × Spent ref (settled_job m req st) st.attempt_id req.request_id m.timer_count m2
unfolding handle_approval_response lease_ok registered
answered env now ref h req msg st m m' o run a r ok = (
  ground (arith, facts, o.armed),
  record {
    live = ground (
      arith,
      facts,
      parts,
      a,
      r,
      get_elem?-set_self m'.heap ref (settled_job m req st) (get_elem?-lt m'.heap ref parts.1),
    );
    forgotten = forgets m req st;
    disarmed =
        ap (find (λ (t : Timer). t.id == m.timer_count)) (ground (arith, facts, o.armed))
        ∙ find-clear_timeout m.timer_count m'.timers;
  },
)
  where
    parts :
        (Registry.get m'.registry st.attempt_id ≡ some ref)
        × (get_elem? m'.heap ref ≡ some (asked m req st))
    parts = registered-parts m' st.attempt_id o.live

    facts :
        (registered m' msg.attempt_id ≡ some (ref, asked m req st))
        × (Map.get (Map.set st.approval_timers req.request_id m.timer_count) msg.request_id
            ≡ some m.timer_count)
    facts = (
      rw a o.live,
      Map.get-set st.approval_timers req.request_id msg.request_id m.timer_count
          ∙ ground (arith, eq_iff req.request_id msg.request_id),
    )

denied :
    (env : Env) (ref h : ℕ) (req : ApprovalRequest) (st : JobState) (m m' : Manager)
    → Open env ref req st m m'
    → st.run ≡ some h
    → let m2 = timer_fires m.timer_count m' in
      (m2.trace ≡ resolves h req.request_id deny (some "approval timeout") ∷ m'.trace)
      × Spent ref (settled_job m req st) st.attempt_id req.request_id m.timer_count m2
unfolding timer_fires registered find
denied env ref h req st m m' o run = (
  ground (arith, o.armed, parts),
  record {
    live = ground (
      arith,
      o.armed,
      parts,
      get_elem?-set_self m'.heap ref (settled_job m req st) (get_elem?-lt m'.heap ref parts.1),
    );
    forgotten = forgets m req st;
    disarmed =
        ap (find (λ (t : Timer). t.id == m.timer_count)) (ground (arith, o.armed, parts))
        ∙ find-clear_timeout m.timer_count m'.timers;
  },
)
  where
    parts :
        (Registry.get m'.registry st.attempt_id ≡ some ref)
        × (get_elem? m'.heap ref ≡ some (asked m req st))
    parts = registered-parts m' st.attempt_id o.live

-- What could settle a request: a response at some time, under some lease, or its timer.
pub data Settling : Type 0 where
  responds : ℕ → String → ApprovalDecision → Option String → Settling
  runs_out : Settling

unfoldable pub settle : String → String → ℕ → Settling → Manager → Manager
settle attempt request timer (responds now lease decision reason) m =
    handle_approval_response now
      (record {
        attempt_id = attempt;
        lease_id = lease;
        request_id = request;
        decision = decision;
        reason = reason;
      })
      m
settle attempt request timer runs_out m = timer_fires timer m

unfoldable pub settle_all : String → String → ℕ → List Settling → Manager → Manager
settle_all attempt request timer [] m = m
settle_all attempt request timer (s ∷ ss) m =
    settle_all attempt request timer ss (settle attempt request timer s m)

settle-Spent :
    (ref : ℕ) (st : JobState) (attempt request : String) (timer : ℕ) (s : Settling) (m : Manager)
    → Spent ref st attempt request timer m
    → settle attempt request timer s m ≡ m
unfolding settle handle_approval_response timer_fires
settle-Spent ref st attempt request timer (responds now lease decision reason) m k =
    ground (arith, k.live, k.forgotten)
settle-Spent ref st attempt request timer runs_out m k = ground (arith, k.disarmed)

settle_all-Spent :
    (ref : ℕ) (st : JobState) (attempt request : String) (timer : ℕ) (ss : List Settling)
    (m : Manager)
    → Spent ref st attempt request timer m
    → settle_all attempt request timer ss m ≡ m
unfolding settle_all
settle_all-Spent ref st attempt request timer [] m k = refl
settle_all-Spent ref st attempt request timer (s ∷ ss) m k =
    ap (settle_all attempt request timer ss) (settle-Spent ref st attempt request timer s m k)
    ∙ settle_all-Spent ref st attempt request timer ss m k

-- A request for approval of a live job is settled once. If a response comes first, under an accepted lease,
-- the engine gets its decision; if the timer runs out first, the engine gets a denial. After either, any
-- number of responses to the request, the same or others, under any leases, and of firings of its timer, in
-- any order, change nothing, so the engine is not called again.
pub approval_settled_once :
    (env : Env) (now ref h : ℕ) (req : ApprovalRequest) (msg : ApprovalResponse) (st : JobState)
    (m : Manager) (later : List Settling)
    → registered m st.attempt_id ≡ some (ref, st)
    → st.fenced ≡ false
    → st.run ≡ some h
    → msg.attempt_id ≡ st.attempt_id
    → msg.request_id ≡ req.request_id
    → let m1 = on_approval_request env ref req m in
      let responded = handle_approval_response now msg m1 in
      let expired = timer_fires m.timer_count m1 in
      (live_lease_ok now st msg.lease_id ≡ true
        → (responded.trace ≡ resolves h req.request_id msg.decision msg.reason ∷ m1.trace)
          × (settle_all st.attempt_id req.request_id m.timer_count later responded ≡ responded))
      × (expired.trace ≡ resolves h req.request_id deny (some "approval timeout") ∷ m1.trace)
      × (settle_all st.attempt_id req.request_id m.timer_count later expired ≡ expired)
unfolding live_lease_ok
approval_settled_once env now ref h req msg st m later reg live run a r =
    let m1 = on_approval_request env ref req m in
    let o = asked-Open env ref req st m reg live in
    let out = denied env ref h req st m m1 o run in
    let spent =
      settle_all-Spent ref (settled_job m req st) st.attempt_id req.request_id m.timer_count
        later in
    (
      λ ok.
          let answer = answered env now ref h req msg st m m1 o run a r ok in
          (answer.0, spent (handle_approval_response now msg m1) answer.1),
      out.0,
      spent (timer_fires m.timer_count m1) out.1,
    )
