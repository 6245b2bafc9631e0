-- ===== src/Conn/Buffer.antt =====
-- The buffer of src/conn/client.ts: a buffered message is never wanted.
pub mod Waiters
use hugin_agent.Prelude.{
  ℕ, ◌≡◌, ◌⊎◌, inl, inr, refl, sym, ap, ◌∙◌, Bool, true, false, none, some, List, [], ◌∷◌, ◌++◌,
  ◌==◌, if◌then◌else◌, filter, Option-cases, Bool-cases, arith,
}
use mathlib.Core.Path.{subst}
use hugin_agent.Conn.Client.{
  Inbound, Codec, decode_inbound, Waiter, RelayClient, take_waiter, deliver, is_accept,
  on_socket_message, on_socket_close, set_authed, arm_for_accept, on_message, remove_handler,
  take_pending, has_waiter, wait_for, wait_times_out, Step, step, run, frame, closes, authenticates,
  arms, handles, unhandles, waits, times_out, is_protocol_v2,
}
use hugin_agent.Conn.Routing.{decode_cases, refused_frame}
use Waiters.{
  Unwanted, AllUnwanted, Routed, take_waiter-none, Unwanted-take, AllUnwanted-map,
  AllUnwanted-append, Unwanted-filter, AllUnwanted-nobody,
}

Routed-same :
    (c c' : RelayClient)
    → c'.pending ≡ c.pending
    → c'.waiters ≡ c.waiters
    → c'.message_handlers ≡ c.message_handlers
    → Routed c
    → Routed c'
Routed-same c c' p w h r = record {
  unwanted = rw (p, w) r.unwanted;
  handled_first = rw (p, h) r.handled_first;
}

handler_cases : (hs : List ℕ) → (hs ≡ []) ⊎ ((k : ℕ) × (ks : List ℕ) × (hs ≡ k ∷ ks))
handler_cases [] = inl refl
handler_cases (k ∷ ks) = inr (k, ks, refl)

deliver-Routed : (m : Inbound) (c : RelayClient) → Routed c → Routed (deliver m c)
unfolding deliver
deliver-Routed m c r = elim (Option-cases (take_waiter m c.waiters)) [
  | inr ((w, ws), found) ↦ record {
    unwanted =
        (let same_pending : c.pending ≡ (deliver m c).pending = ground arith in
          let same_waiters : ws ≡ (deliver m c).waiters = ground arith in
          rw (← same_pending, ← same_waiters)
            (AllUnwanted-map c.pending c.waiters ws
              (λ k u. Unwanted-take m k c.waiters w ws found u) r.unwanted));
    handled_first = ground (arith, r.handled_first);
  }
  | inl missed ↦ elim (handler_cases c.message_handlers) [
    | inl nobody ↦
        let same_pending : c.pending ++ m ∷ [] ≡ (deliver m c).pending = ground arith in
        let same_waiters : c.waiters ≡ (deliver m c).waiters = ground arith in
        let same_handlers : c.message_handlers ≡ (deliver m c).message_handlers = ground arith in
        record {
          unwanted =
              rw (← same_pending, ← same_waiters)
                (AllUnwanted-append c.pending (m ∷ []) c.waiters r.unwanted
                  (take_waiter-none m c.waiters missed, tt));
          handled_first = inl (sym same_handlers ∙ nobody);
        }
    | inr (h, hs, some_handler) ↦
        Routed-same c (deliver m c) (ground arith) (ground arith) (ground arith) r
  ]
]

on_socket_message-Routed :
    (codec : Codec) (raw : List ℕ) (c : RelayClient)
    → Routed c
    → Routed (on_socket_message codec raw c)
unfolding on_socket_message
on_socket_message-Routed codec raw c r =
    elim (decode_cases (decode_inbound codec c.authed c.v2 raw)) [
      | inr no_message ↦ subst Routed (sym (refused_frame codec raw c no_message)) r
      | inl (m, e) ↦
          let opened = record c { v2 = is_protocol_v2 m.negotiated_major; authed = true } in
          elim (Bool-cases (is_accept m.type)) [
            | inr other ↦
                let same : deliver m c ≡ on_socket_message codec raw c = ground (arith, e) in
                subst Routed same (deliver-Routed m c r)
            | inl accept ↦ elim (Bool-cases c.armed_for_accept) [
              | inl armed ↦
                  let same : deliver m opened ≡ on_socket_message codec raw c = ground (arith, e) in
                  subst Routed same
                    (deliver-Routed m opened (Routed-same c opened refl refl refl r))
              | inr premature ↦
                  let same : c ≡ on_socket_message codec raw c = ground (arith, e) in
                  subst Routed same r
            ]
          ]
    ]

take_pending-none :
    (p : Inbound → Bool) (id : ℕ) (ms : List Inbound) (ws : List Waiter)
    → take_pending p ms ≡ none
    → AllUnwanted ms ws
    → AllUnwanted ms (ws ++ record { id = id; pred = p } ∷ [])
unfolding take_pending
take_pending-none p id [] ws h u = tt
take_pending-none p id (m ∷ ms) ws h u = elim (Option-cases (take_pending p ms)) [
  | inl missed ↦ (last ws (ground arith) u.0, take_pending-none p id ms ws missed u.1)
  | inr ((x, xs), found) ↦ absurd (ground arith)
]
  where
    last :
        (vs : List Waiter)
        → p m ≡ false
        → Unwanted m vs
        → Unwanted m (vs ++ record { id = id; pred = p } ∷ [])
    last [] f v = (f, tt)
    last (w ∷ rest) f v = (v.0, last rest f v.1)

take_pending-some :
    (p : Inbound → Bool) (ms : List Inbound) (ws : List Waiter) (m : Inbound) (rest : List Inbound)
    → take_pending p ms ≡ some (m, rest)
    → AllUnwanted ms ws
    → AllUnwanted rest ws
unfolding take_pending
take_pending-some p [] ws m rest h u = absurd (ground arith)
take_pending-some p (x ∷ xs) ws m rest h u = elim (Bool-cases (p x)) [
  | inl hit ↦ let same : xs ≡ rest = ground arith in subst (λ ms. AllUnwanted ms ws) same u.1
  | inr miss ↦ elim (Option-cases (take_pending p xs)) [
    | inl missed ↦ absurd (ground arith)
    | inr ((y, ys), found) ↦
        let same : x ∷ ys ≡ rest = ground arith in
        subst (λ ms. AllUnwanted ms ws) same (u.0, take_pending-some p xs ws y ys found u.1)
  ]
]

wait_for-Routed : (p : Inbound → Bool) (c : RelayClient) → Routed c → Routed (wait_for p c)
unfolding wait_for
wait_for-Routed p c r = elim (Option-cases (take_pending p c.pending)) [
  | inl missed ↦
      let same_pending : c.pending ≡ (wait_for p c).pending = ground arith in
      let same_waiters : c.waiters ++ record { id = c.waiter_count; pred = p } ∷ []
          ≡ (wait_for p c).waiters =
        ground arith in
      record {
        unwanted =
            rw (← same_pending, ← same_waiters)
              (take_pending-none p c.waiter_count c.pending c.waiters missed r.unwanted);
        handled_first = ground (arith, r.handled_first);
      }
  | inr ((m, ms), found) ↦
      let same_pending : ms ≡ (wait_for p c).pending = ground arith in
      let same_waiters : c.waiters ≡ (wait_for p c).waiters = ground arith in
      record {
        unwanted =
            rw (← same_pending, ← same_waiters)
              (take_pending-some p c.pending c.waiters m ms found r.unwanted);
        handled_first = elim r.handled_first [
          | inl nobody ↦ inl (ground arith)
          | inr empty ↦ absurd (ground (arith, ap (take_pending p) empty, take_pending_nil p))
        ];
      }
]
  where
    take_pending_nil : (q : Inbound → Bool) → take_pending q [] ≡ none
    take_pending_nil q = unfold take_pending in refl

step-Routed : (codec : Codec) (s : Step) (c : RelayClient) → Routed c → Routed (step codec s c)
unfolding step on_socket_close on_message remove_handler wait_times_out set_authed arm_for_accept
step-Routed codec (frame raw) c r = on_socket_message-Routed codec raw c r
step-Routed codec closes c r = record {
  unwanted = AllUnwanted-nobody c.pending;
  handled_first = r.handled_first;
}
step-Routed codec (authenticates b) c r = Routed-same c (set_authed b c) refl refl refl r
step-Routed codec arms c r = Routed-same c (arm_for_accept c) refl refl refl r
step-Routed codec (handles h) c r = record { unwanted = tt; handled_first = inr refl }
step-Routed codec (unhandles h) c r = record {
  unwanted = r.unwanted;
  handled_first = elim r.handled_first [
    | inl nobody ↦ inl (ap (filter (λ x. if x == h then false else true)) nobody)
    | inr empty ↦ inr empty
  ];
}
step-Routed codec (waits p) c r = wait_for-Routed p c r
step-Routed codec (times_out id) c r = elim (Bool-cases (has_waiter id c.waiters)) [
  | inr unknown ↦ Routed-same c (wait_times_out id c) (ground arith) (ground arith) (ground arith) r
  | inl known ↦
      let left = filter (λ (w : Waiter). if w.id == id then false else true) c.waiters in
      let timed_out = record c { waiters = left } in
      Routed-same timed_out (wait_times_out id c) (ground arith) (ground arith) (ground arith)
        (record {
          unwanted =
              AllUnwanted-map c.pending c.waiters left
                (λ m u. Unwanted-filter (λ w. if w.id == id then false else true) m c.waiters u)
                r.unwanted;
          handled_first = r.handled_first;
        })
]

-- Along any run no buffered message is one that a waiter is waiting for, and nothing is buffered while
-- a handler is registered: no message is kept back from who wants it.
pub run-Routed :
    (codec : Codec) (ss : List Step) (c : RelayClient) → Routed c → Routed (run codec ss c)
unfolding run
run-Routed codec [] c r = r
run-Routed codec (s ∷ ss) c r = run-Routed codec ss (step codec s c) (step-Routed codec s c r)
