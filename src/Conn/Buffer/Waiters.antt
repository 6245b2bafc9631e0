-- ===== src/Conn/Buffer/Waiters.antt =====
-- Messages that no waiter of src/conn/client.ts is waiting for.
use hugin_agent.Prelude.{
  ◌≡◌, ◌⊎◌, inl, inr, Bool, false, none, some, List, [], ◌∷◌, ◌++◌, filter, Option-cases,
  Bool-cases, arith,
}
use mathlib.Core.Path.{subst}
use hugin_agent.Conn.Client.{Inbound, Waiter, RelayClient, take_waiter}

-- No waiter of the list wants the message.
abbrev pub Unwanted : Inbound → List Waiter → Type 0
Unwanted m [] = Unit
Unwanted m (w ∷ ws) = (w.pred m ≡ false) × Unwanted m ws

abbrev pub AllUnwanted : List Inbound → List Waiter → Type 0
AllUnwanted [] ws = Unit
AllUnwanted (m ∷ ms) ws = Unwanted m ws × AllUnwanted ms ws

-- What is buffered is wanted by no waiter, and nothing is buffered while a handler is there.
pub record Routed (c : RelayClient) : Type 0 where
  pub unwanted : AllUnwanted c.pending c.waiters
  pub handled_first : (c.message_handlers ≡ []) ⊎ (c.pending ≡ [])

pub take_waiter-none : (m : Inbound) (ws : List Waiter) → take_waiter m ws ≡ none → Unwanted m ws
unfolding take_waiter
take_waiter-none m [] h = tt
take_waiter-none m (w ∷ ws) h = elim (Option-cases (take_waiter m ws)) [
  | inl missed ↦ (ground arith, take_waiter-none m ws missed)
  | inr ((x, xs), found) ↦ absurd (ground arith)
]

pub Unwanted-take :
    (m k : Inbound) (ws : List Waiter) (w : Waiter) (rest : List Waiter)
    → take_waiter m ws ≡ some (w, rest)
    → Unwanted k ws
    → Unwanted k rest
unfolding take_waiter
Unwanted-take m k [] w rest h u = absurd (ground arith)
Unwanted-take m k (x ∷ xs) w rest h u = elim (Bool-cases (x.pred m)) [
  | inl hit ↦ let same : xs ≡ rest = ground arith in subst (Unwanted k) same u.1
  | inr miss ↦ elim (Option-cases (take_waiter m xs)) [
    | inl missed ↦ absurd (ground arith)
    | inr ((y, ys), found) ↦
        let same : x ∷ ys ≡ rest = ground arith in
        subst (Unwanted k) same (u.0, Unwanted-take m k xs y ys found u.1)
  ]
]

pub AllUnwanted-map :
    (ms : List Inbound) (ws ws' : List Waiter)
    → ((m : Inbound) → Unwanted m ws → Unwanted m ws')
    → AllUnwanted ms ws
    → AllUnwanted ms ws'
AllUnwanted-map [] ws ws' f u = tt
AllUnwanted-map (m ∷ ms) ws ws' f u = (f m u.0, AllUnwanted-map ms ws ws' f u.1)

pub AllUnwanted-append :
    (ms ns : List Inbound) (ws : List Waiter)
    → AllUnwanted ms ws
    → AllUnwanted ns ws
    → AllUnwanted (ms ++ ns) ws
AllUnwanted-append [] ns ws u v = v
AllUnwanted-append (m ∷ ms) ns ws u v = (u.0, AllUnwanted-append ms ns ws u.1 v)

pub Unwanted-filter :
    (p : Waiter → Bool) (m : Inbound) (ws : List Waiter) → Unwanted m ws → Unwanted m (filter p ws)
Unwanted-filter p m [] u = tt
Unwanted-filter p m (w ∷ ws) u = elim (Bool-cases (p w)) [
  | inl kept ↦
      let same : w ∷ filter p ws ≡ filter p (w ∷ ws) = ground arith in
      subst (Unwanted m) same (u.0, Unwanted-filter p m ws u.1)
  | inr dropped ↦
      let same : filter p ws ≡ filter p (w ∷ ws) = ground arith in
      subst (Unwanted m) same (Unwanted-filter p m ws u.1)
]

pub AllUnwanted-nobody : (ms : List Inbound) → AllUnwanted ms []
AllUnwanted-nobody [] = tt
AllUnwanted-nobody (m ∷ ms) = (tt, AllUnwanted-nobody ms)
