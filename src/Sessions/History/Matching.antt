-- ===== src/Sessions/History/Matching.antt =====
-- The results of tool calls in src/sessions/history.ts: `pushToolResult` and `consumeToolResult` on a map of
-- lists do what one queue for each call does.
use hugin_agent.Prelude.{
  ◌≡◌, refl, ap, ◌∙◌, String, Option, none, some, List, [], ◌∷◌, ◌++◌, str_eq, if◌then◌else◌,
  or_else, Option-cases, inl, inr, arith, eq_iff,
}
use hugin_agent.Prelude.Map
use hugin_agent.Prelude.Map.{Map}
use hugin_agent.Sessions.History.ToolCalls.{
  ToolResult, ToolResults, push_tool_result, consume_tool_result,
}

-- The specification: a queue of results for every call.
abbrev Queues : Type 0
Queues = String → List ToolResult

abbrev enqueue : String → ToolResult → Queues → Queues
enqueue id r q j = if str_eq id j then q j ++ r ∷ [] else q j

abbrev pub front : List ToolResult → Option ToolResult
front [] = none
front (r ∷ rs) = some r

abbrev pub behind : List ToolResult → List ToolResult
behind [] = []
behind (r ∷ rs) = rs

abbrev dequeue : String → Queues → Queues
dequeue id q j = if str_eq id j then behind (q j) else q j

-- What the loops over the lines do with the results, in any order.
pub data Access : Type 0 where
  pushes : String → ToolResult → Access
  consumes : String → Access

-- The results that the calls get, one answer for each consumption.
unfoldable pub answers : List Access → ToolResults → List (Option ToolResult)
unfolding push_tool_result consume_tool_result
answers [] m = []
answers (pushes id r ∷ ops) m = answers ops (push_tool_result id r m)
answers (consumes id ∷ ops) m =
    (consume_tool_result id m).0 ∷ answers ops (consume_tool_result id m).1

unfoldable pub queue_answers : List Access → Queues → List (Option ToolResult)
queue_answers [] q = []
queue_answers (pushes id r ∷ ops) q = queue_answers ops (enqueue id r q)
queue_answers (consumes id ∷ ops) q = front (q id) ∷ queue_answers ops (dequeue id q)

-- The map stands for the queues.
Represents : ToolResults → Queues → Type 0
Represents m q = (id : String) → or_else (Map.get m id) [] ≡ q id

push-Represents :
    (id : String) (r : ToolResult) (m : ToolResults) (q : Queues)
    → Represents m q
    → Represents (push_tool_result id r m) (enqueue id r q)
unfolding push_tool_result Represents
push-Represents id r m q h j = elim (Option-cases (Map.get m id)) [
  | inl e ↦ ground (arith, Map.get-set m id j (r ∷ []), eq_iff id j, h j)
  | inr (old, e) ↦ ground (arith, Map.get-set m id j (old ++ r ∷ []), eq_iff id j, h j)
]

consume-Represents :
    (id : String) (m : ToolResults) (q : Queues)
    → Represents m q
    → ((consume_tool_result id m).0 ≡ front (q id))
      × Represents (consume_tool_result id m).1 (dequeue id q)
unfolding consume_tool_result Represents
consume-Represents id m q h = split (Map.get m id) refl
  where
    split :
        (o : Option (List ToolResult))
        → Map.get m id ≡ o
        → ((consume_tool_result id m).0 ≡ front (q id))
          × ((j : String) → or_else (Map.get (consume_tool_result id m).1 j) [] ≡ dequeue id q j)
    split none e = (ground (arith, h id), λ j. ground (arith, eq_iff id j, h j))
    split (some []) e = (ground (arith, h id), λ j. ground (arith, eq_iff id j, h j))
    split (some (r ∷ [])) e =
        (ground (arith, h id), λ j. ground (arith, Map.get-remove m id j, eq_iff id j, h j))
    split (some (r ∷ s ∷ rs)) e =
        (ground (arith, h id), λ j. ground (arith, Map.get-set m id j (s ∷ rs), eq_iff id j, h j))

answers-Represents :
    (ops : List Access) (m : ToolResults) (q : Queues)
    → Represents m q
    → answers ops m ≡ queue_answers ops q
unfolding answers queue_answers
answers-Represents [] m q h = refl
answers-Represents (pushes id r ∷ ops) m q h =
    answers-Represents ops (push_tool_result id r m) (enqueue id r q) (push-Represents id r m q h)
answers-Represents (consumes id ∷ ops) m q h =
    let step = consume-Represents id m q h in
    ap (λ x. x ∷ answers ops (consume_tool_result id m).1) step.0
    ∙ ap (◌∷◌ (front (q id)))
        (answers-Represents ops (consume_tool_result id m).1 (dequeue id q) step.1)

-- The map of lists refines the queues: in whatever order results are pushed and consumed, every call gets just
-- what a queue of its own would give it, the oldest result of that call that was not consumed yet, or none.
pub answers-queue_answers : (ops : List Access) → answers ops [] ≡ queue_answers ops (λ id. [])
unfolding Represents Map.get
answers-queue_answers ops = answers-Represents ops [] (λ id. []) (λ id. refl)
