-- ===== src/Engine/Approval/Routing.antt =====
-- To whom the bridge of src/engine/permission.ts writes a decision.
use hugin_agent.Prelude.{
  ℕ, suc, ◌+◌, ◌≤◌, ◌≡◌, refl, ap, ◌∙◌, String, Bool, true, false, ◌&&◌, Option, none, some, List,
  [], ◌∷◌, ◌++◌, ◌==◌, str_eq, if◌then◌else◌, length, Option-cases, arith, eq_iff,
}
use mathlib.Core.Path.{subst, sym}
use hugin_agent.Prelude.Map
use hugin_agent.Prelude.Map.{Map}
use hugin_agent.Json.{get_field}
use hugin_agent.Jobs.Types.{ApprovalDecision}
use hugin_agent.Engine.Lines.{each_line, each_line_inv}
use hugin_agent.Engine.Normalize.{member, is_text}
use hugin_agent.Engine.Approval.{
  JsonText, ApprovalBridge, ToolRequest, Answer, Connection, Effect, asks, writes, destroys,
  resolve, call_back, accept_request, read_request, handle_line, buffer_of, never, store_rest,
  on_data, on_connection, drop_pending, on_close, destroy_all, close, on_request, Input, connects,
  sends, disconnects, listens, resolves, closes, step, run,
}

abbrev pub one_if : Bool → ℕ
one_if true = 1
one_if false = 0

-- How often the request `id` was raised by the connection `socket`.
unfoldable pub raised : ℕ → String → List Effect → ℕ
raised s id [] = 0
raised s id (asks socket req ∷ t) = one_if (socket == s && str_eq req.request_id id) + raised s id t
raised s id (writes socket line ∷ t) = raised s id t
raised s id (destroys socket ∷ t) = raised s id t

-- How often a decision on `id` was written to it.
unfoldable pub answered : ℕ → String → List Effect → ℕ
unfolding get_field
answered s id [] = 0
answered s id (asks socket req ∷ t) = answered s id t
answered s id (writes socket line ∷ t) =
    one_if (socket == s && is_text (member line "id") id) + answered s id t
answered s id (destroys socket ∷ t) = answered s id t

-- How often the request waits for its answer.
unfoldable pub waiting : ℕ → String → Map ℕ → ℕ
waiting s id [] = 0
waiting s id ((j, socket) ∷ m) = one_if (socket == s && str_eq j id) + waiting s id m

waiting-set :
    (s socket : ℕ) (id j : String) (m : Map ℕ)
    → waiting s j (Map.set m id socket) ≤ one_if (socket == s && str_eq id j) + waiting s j m
unfolding waiting Map.set
waiting-set s socket id j [] = omega arith
waiting-set s socket id j ((k, t) ∷ m) =
    ground (arith, eq_iff k id, eq_iff k j, eq_iff id j, waiting-set s socket id j m)

waiting-remove :
    (s : ℕ) (id j : String) (m : Map ℕ)
    → waiting s j (Map.remove m id) ≡ (if str_eq id j then 0 else waiting s j m)
unfolding waiting Map.remove
waiting-remove s id j [] = ground arith
waiting-remove s id j ((k, t) ∷ m) =
    ground (arith, eq_iff k id, eq_iff k j, eq_iff id j, waiting-remove s id j m)

waiting-get : (s : ℕ) (id : String) (m : Map ℕ) → Map.get m id ≡ some s → 1 ≤ waiting s id m
unfolding waiting Map.get
waiting-get s id [] h = absurd (ground arith)
waiting-get s id ((k, t) ∷ m) h = ground (arith, eq_iff k id, waiting-get s id m)

waiting-drop :
    (s socket : ℕ) (id : String) (m : Map ℕ) → waiting s id (drop_pending socket m) ≤ waiting s id m
unfolding waiting drop_pending
waiting-drop s socket id [] = omega arith
waiting-drop s socket id ((k, t) ∷ m) = ground (arith, waiting-drop s socket id m)

-- Every decision answers a request of the same connection, each request at most once; a request that waits
-- has an answer to come.
pub record Fair (b : ApprovalBridge) : Type 0 where
  pub fair :
      (s : ℕ) (id : String) → answered s id b.trace + waiting s id b.pending ≤ raised s id b.trace
  pub heard : b.listening ≡ true

resolve-Fair :
    (id : String) (decision : ApprovalDecision) (reason : Option String) (b : ApprovalBridge)
    → Fair b
    → Fair (resolve id decision reason b)
unfolding resolve answered raised get_field
resolve-Fair id decision reason b r = record {
  fair = λ s j. ground (
    arith,
    Option-cases (Map.get b.pending id),
    waiting-remove s id j b.pending,
    waiting-get s id b.pending,
    eq_iff id j,
    r.fair s j,
  );
  heard = ground (arith, r.heard);
}

asked-Fair :
    (socket : ℕ) (req : ToolRequest) (b : ApprovalBridge)
    → Fair b
    → Fair (record b {
      pending = Map.set b.pending req.request_id socket;
      trace = asks socket req ∷ b.trace;
    })
unfolding answered raised
asked-Fair socket req b r = record {
  fair = λ s j. ground (arith, waiting-set s socket req.request_id j b.pending, r.fair s j);
  heard = r.heard;
}

accept_request-Fair :
    (answer : ToolRequest → Option Answer) (socket : ℕ) (req : ToolRequest) (b : ApprovalBridge)
    → Fair b
    → Fair (accept_request answer socket req b)
unfolding accept_request
accept_request-Fair answer socket req b r =
    let e : accept_request answer socket req b ≡ call_back answer req asked =
      ground (arith, r.heard) in
    subst Fair (sym e) (called (answer req))
  where
    asked : ApprovalBridge
    asked = record b {
      pending = Map.set b.pending req.request_id socket;
      trace = asks socket req ∷ b.trace;
    }

    called :
        (o : Option Answer)
        → Fair (elim o [ none ↦ asked | some a ↦ resolve req.request_id a.decision a.reason asked ])
    called none = asked-Fair socket req b r
    called (some a) =
        resolve-Fair req.request_id a.decision a.reason asked (asked-Fair socket req b r)

handle_line-Fair :
    (json : JsonText) (answer : ToolRequest → Option Answer) (socket : ℕ) (line : List ℕ)
    (b : ApprovalBridge)
    → Fair b
    → Fair (handle_line json answer socket line b)
unfolding handle_line
handle_line-Fair json answer socket line b r = read (read_request json line)
  where
    read :
        (o : Option ToolRequest)
        → Fair (elim o [ none ↦ b | some req ↦ accept_request answer socket req b ])
    read none = r
    read (some req) = accept_request-Fair answer socket req b r

same_pending :
    (b b' : ApprovalBridge)
    → b'.pending ≡ b.pending
    → b'.listening ≡ b.listening
    → b'.trace ≡ b.trace
    → Fair b
    → Fair b'
same_pending b b' p l t r = record {
  fair = λ s id.
      ground (arith, ap (waiting s id) p, ap (raised s id) t, ap (answered s id) t, r.fair s id);
  heard = l ∙ r.heard;
}

on_data-Fair :
    (json : JsonText) (answer : ToolRequest → Option Answer) (socket : ℕ) (chunk : List ℕ)
    (b : ApprovalBridge)
    → Fair b
    → Fair (on_data json answer socket chunk b)
unfolding on_data
on_data-Fair json answer socket chunk b r = found (buffer_of socket b.sockets)
  where
    looped : List ℕ → ApprovalBridge × List ℕ
    looped buf =
        each_line never (handle_line json answer socket) (suc (length (buf ++ chunk))) b
          (buf ++ chunk)

    found :
        (o : Option (List ℕ))
        → Fair (elim o [ none ↦ b | some buf ↦ store_rest socket (looped buf) ])
    found none = r
    found (some buf) = same_pending (looped buf).0 (store_rest socket (looped buf)) refl refl refl (
        each_line_inv (handle_line json answer socket) (λ s t. Fair s)
          (λ s t line rest cut k. handle_line-Fair json answer socket line s k) never
          (suc (length (buf ++ chunk))) b (buf ++ chunk) r)

on_close-Fair : (socket : ℕ) (b : ApprovalBridge) → Fair b → Fair (on_close socket b)
unfolding on_close
on_close-Fair socket b r = record {
  fair = λ s id. omega (arith, waiting-drop s socket id b.pending, r.fair s id);
  heard = r.heard;
}

destroy_all-counts :
    (s : ℕ) (id : String) (cs : List Connection) (t : List Effect)
    → (raised s id (destroy_all cs t) ≡ raised s id t)
      × (answered s id (destroy_all cs t) ≡ answered s id t)
unfolding raised answered
destroy_all-counts s id [] t = (refl, refl)
destroy_all-counts s id (c ∷ cs) t = destroy_all-counts s id cs (destroys c.socket ∷ t)

close-Fair : (b : ApprovalBridge) → Fair b → Fair (close b)
unfolding close waiting
close-Fair b r = record {
  fair = λ s id. ground (arith, destroy_all-counts s id b.sockets b.trace, r.fair s id);
  heard = ground (arith, r.heard);
}

step-Fair : (json : JsonText) (i : Input) (b : ApprovalBridge) → Fair b → Fair (step json i b)
unfolding step on_connection on_request
step-Fair json (connects s) b r =
    same_pending b (step json (connects s) b) (ground arith) (ground arith) (ground arith) r
step-Fair json (sends s chunk answer) b r = on_data-Fair json answer s chunk b r
step-Fair json (disconnects s) b r = on_close-Fair s b r
step-Fair json listens b r = same_pending b (on_request b) refl (sym r.heard) refl r
step-Fair json (resolves id decision reason) b r = resolve-Fair id decision reason b r
step-Fair json closes b r = close-Fair b r

-- Along any run every decision is written to a connection that raised its request, and at most one for each
-- time it was raised: no answer goes to another connection, and none is given twice.
pub run-Fair :
    (json : JsonText) (is : List Input) (b : ApprovalBridge) → Fair b → Fair (run json is b)
unfolding run
run-Fair json [] b r = r
run-Fair json (i ∷ is) b r = run-Fair json is (step json i b) (step-Fair json i b r)
