-- ===== src/Engine/Claude/Shut.antt =====
-- A closed approval bridge stays as it is: ApprovalBridge of src/engine/permission.ts.
use hugin_agent.Prelude.{
  ℕ, suc, ◌≡◌, refl, sym, ◌∙◌, Bool, true, false, Option, none, some, List, [], ◌++◌, length,
  Bool-cases, Option-cases, inl, inr, arith,
}
use hugin_agent.Prelude.Map
use mathlib.Core.Path.{subst}
use hugin_agent.Engine.Lines.{each_line, each_line_inv}
use hugin_agent.Engine.Approval
use hugin_agent.Engine.Approval.{
  JsonText, Effect, ApprovalBridge, ToolRequest, Answer, buffer_of, set_buffer, drop_pending,
  resolve, accept_request, read_request, never, store_rest, on_data, on_connection, on_close,
  on_request, connects, sends, disconnects, listens, resolves, closes,
}
use hugin_agent.Engine.Claude.{close_bridge}

-- A bridge that is closed for good.
pub record Shut (b : ApprovalBridge) : Type 0 where
  pub is_closed : b.closed ≡ true
  pub none_pending : b.pending ≡ []
  pub no_socket : b.sockets ≡ []

abbrev Tidy : ApprovalBridge → Type 0
Tidy b = b.closed ≡ true → Shut b

pub step-Shut :
    (json : JsonText) (i : Approval.Input) (b : ApprovalBridge)
    → Shut b
    → Shut (Approval.step json i b) × ((Approval.step json i b).trace ≡ b.trace)
unfolding Approval.step on_connection on_data on_close on_request resolve Approval.close buffer_of
    drop_pending Map.get
step-Shut json (connects s) b k = ground (arith, k.is_closed, k.none_pending, k.no_socket)
step-Shut json (sends s chunk answer) b k = ground (arith, k.is_closed, k.none_pending, k.no_socket)
step-Shut json (disconnects s) b k = ground (arith, k.is_closed, k.none_pending, k.no_socket)
step-Shut json listens b k = ground (arith, k.is_closed, k.none_pending, k.no_socket)
step-Shut json (resolves id d reason) b k = ground (arith, k.is_closed, k.none_pending, k.no_socket)
step-Shut json closes b k = ground (arith, k.is_closed, k.none_pending, k.no_socket)

handle_line-closed :
    (json : JsonText) (answer : ToolRequest → Option Answer) (s : ℕ) (line : List ℕ)
    (b : ApprovalBridge)
    → (Approval.handle_line json answer s line b).closed ≡ b.closed
unfolding Approval.handle_line accept_request resolve
handle_line-closed json answer s line b = elim (Option-cases (read_request json line)) [
  | inl e ↦ ground arith
  | inr (req, e) ↦ elim (Option-cases (answer req)) [
    | inl silent ↦ ground arith
    | inr (a, said) ↦
        ground (arith, Option-cases (Map.get (Map.set b.pending req.request_id s) req.request_id))
  ]
]

on_data-closed :
    (json : JsonText) (answer : ToolRequest → Option Answer) (s : ℕ) (chunk : List ℕ)
    (b : ApprovalBridge)
    → (on_data json answer s chunk b).closed ≡ b.closed
unfolding on_data
on_data-closed json answer s chunk b = found (buffer_of s b.sockets)
  where
    looped : List ℕ → ApprovalBridge × List ℕ
    looped buf =
        each_line never (Approval.handle_line json answer s) (suc (length (buf ++ chunk))) b
          (buf ++ chunk)

    found :
        (o : Option (List ℕ))
        → (elim o as (λ x. ApprovalBridge) [
          | none ↦ b
          | some buf ↦ store_rest s (looped buf)
        ]).closed
          ≡ b.closed
    found none = refl
    found (some buf) =
        each_line_inv (Approval.handle_line json answer s) (λ x t. x.closed ≡ b.closed)
          (λ x t line rest cut k. handle_line-closed json answer s line x ∙ k) never
          (suc (length (buf ++ chunk))) b (buf ++ chunk) refl

close-Shut : (b : ApprovalBridge) → Tidy b → Shut (Approval.close b)
unfolding Approval.close
close-Shut b t = elim (Bool-cases b.closed) [
  | inl e ↦ let same : Approval.close b ≡ b = ground arith in subst Shut (sym same) (t e)
  | inr e ↦ record {
    is_closed = ground arith;
    none_pending = ground arith;
    no_socket = ground arith;
  }
]

is_closes : Approval.Input → Bool
is_closes closes = true
is_closes (connects s) = false
is_closes (sends s chunk answer) = false
is_closes (disconnects s) = false
is_closes listens = false
is_closes (resolves id d reason) = false

-- A step other than `closes` leaves an open bridge open.
step-open :
    (json : JsonText) (i : Approval.Input) (b : ApprovalBridge)
    → is_closes i ≡ false
    → b.closed ≡ false
    → (Approval.step json i b).closed ≡ false
unfolding is_closes Approval.step on_connection on_close on_request resolve
step-open json (connects s) b h e = ground arith
step-open json (sends s chunk answer) b h e = on_data-closed json answer s chunk b ∙ e
step-open json (disconnects s) b h e = e
step-open json listens b h e = e
step-open json (resolves id d reason) b h e = ground (arith, Option-cases (Map.get b.pending id))
step-open json closes b h e = absurd (ground arith)

pub step-Tidy :
    (json : JsonText) (i : Approval.Input) (b : ApprovalBridge)
    → Tidy b
    → Tidy (Approval.step json i b)
unfolding is_closes Approval.step
step-Tidy json closes b t h = close-Shut b t
step-Tidy json i b t h = elim (Bool-cases b.closed) [
  | inl e ↦ (step-Shut json i b (t e)).0
  | inr e ↦ absurd (ground (arith, step-open json i b refl e))
]

-- The bridge of a run, if it has one.
abbrev pub TidyBridge : Option ApprovalBridge → Type 0
TidyBridge none = Unit
TidyBridge (some b) = Tidy b

abbrev pub ShutBridge : Option ApprovalBridge → Type 0
ShutBridge none = Unit
ShutBridge (some b) = Shut b

pub close_bridge-Shut : (o : Option ApprovalBridge) → TidyBridge o → ShutBridge (close_bridge o)
unfolding close_bridge
close_bridge-Shut none t = tt
close_bridge-Shut (some b) t = close-Shut b t

pub Shut-Tidy : (o : Option ApprovalBridge) → ShutBridge o → TidyBridge o
Shut-Tidy none k = tt
Shut-Tidy (some b) k = λ h. k
