-- ===== src/Daemon.antt =====
-- The life of the daemon between connections: the epoch gate and the reconnect loop of src/daemon.ts,
-- with `backoffDelay` of src/conn/reconnect.ts.
use hugin_agent.Prelude.{
  ℕ, zero, suc, ◌+◌, ◌*◌, ◌^◌, ◌<◌, ◌≡◌, inl, inr, Bool, true, false, Option, none, some, List, [],
  ◌∷◌, leb, if◌then◌else◌, min, Bool-cases, arith, length, get_elem?, ap,
}
use mathlib.Core.Path.{subst}

unfoldable backoff_delay : ℕ → ℕ → ℕ → ℕ
backoff_delay attempt min_ms max_ms = min max_ms (min_ms * 2 ^ attempt)

-- The last epoch that was accepted, none before the first: `lastEpoch` is -1 then.
pub record Epochs : Type 0 where
  pub last_epoch : Option ℕ

-- `acceptEpoch`
unfoldable accept_epoch : ℕ → Epochs → Epochs × Bool
accept_epoch epoch e = elim e.last_epoch [
  | none ↦ (record { last_epoch = some epoch }, true)
  | some last ↦ if leb epoch last then (e, false) else (record { last_epoch = some epoch }, true)
]

-- The epochs of a sequence of handshakes that are accepted.
unfoldable pub accepted_epochs : List ℕ → Epochs → List ℕ
unfolding accept_epoch
accepted_epochs [] e = []
accepted_epochs (n ∷ ns) e =
    let rest = accepted_epochs ns (accept_epoch n e).0 in
    if (accept_epoch n e).1 then n ∷ rest else rest

-- What a session of the loop came to: whether it was established, and whether the daemon still runs.
pub record SessionEnd : Type 0 where
  pub established : Bool
  pub running : Bool

-- The delays of the loop in `start`, from a number of attempts on.
unfoldable delays : ℕ → List SessionEnd → List ℕ
unfolding backoff_delay
delays attempt [] = []
delays attempt (s ∷ ss) =
    let attempt' = if s.established then 0 else attempt in
    let rest = delays (suc attempt') ss in
    if s.running then backoff_delay attempt' 500 10000 ∷ rest else []

-- Each epoch is above the last one accepted, and the list increases.
abbrev pub Above : Option ℕ → List ℕ → Type 0
Above last [] = Unit
Above none (n ∷ ns) = Above (some n) ns
Above (some last) (n ∷ ns) = (last < n) × Above (some n) ns

-- Whatever epochs the relay hands out, the ones that the daemon goes on with increase strictly, and
-- all lie above the last one accepted before.
pub accepted_epochs-Above : (ns : List ℕ) (e : Epochs) → Above e.last_epoch (accepted_epochs ns e)
unfolding accepted_epochs accept_epoch
accepted_epochs-Above ns e = above ns e.last_epoch
  where
    above :
        (ns : List ℕ) (last : Option ℕ)
        → Above last (accepted_epochs ns (record { last_epoch = last }))
    above [] none = tt
    above [] (some last) = tt
    above (n ∷ ns) none = above ns (some n)
    above (n ∷ ns) (some last) = elim (Bool-cases (leb n last)) [
      | inl old ↦
          let same : accepted_epochs ns (record { last_epoch = some last })
              ≡ accepted_epochs (n ∷ ns) (record { last_epoch = some last }) =
            ground arith in
          subst (Above (some last)) same (above ns (some last))
      | inr new ↦
          let same : n ∷ accepted_epochs ns (record { last_epoch = some n })
              ≡ accepted_epochs (n ∷ ns) (record { last_epoch = some last }) =
            ground arith in
          subst (Above (some last)) same (ground arith, above ns (some n))
    ]

-- Sessions that failed while the daemon ran on.
abbrev AllFailed : List SessionEnd → Type 0
AllFailed [] = Unit
AllFailed (s ∷ ss) = (s.established ≡ false) × (s.running ≡ true) × AllFailed ss

delays-failed :
    (ss : List SessionEnd) (attempt n : ℕ)
    → AllFailed ss
    → n < length ss
    → get_elem? (delays attempt ss) n ≡ some (min 10000 (500 * 2 ^ (attempt + n)))
unfolding delays backoff_delay
delays-failed [] attempt n all h = absurd (omega arith)
delays-failed (s ∷ ss) attempt zero all h =
    let exponent : attempt ≡ attempt + 0 = omega arith in
    ground (arith, all, ap (λ k. some (min 10000 (500 * 2 ^ k))) exponent)
delays-failed (s ∷ ss) attempt (suc n) all h =
    let exponent : suc attempt + n ≡ attempt + suc n = omega arith in
    ground (
      arith,
      all,
      delays-failed ss (suc attempt) n all.2 (omega arith),
      ap (λ k. some (min 10000 (500 * 2 ^ k))) exponent,
    )

-- After an established session the next delay is half a second, and while sessions fail each delay is
-- the double of the one before, up to ten seconds.
delays_double :
    (s : SessionEnd) (ss : List SessionEnd) (attempt n : ℕ)
    → s.established ≡ true
    → s.running ≡ true
    → AllFailed ss
    → n < length ss
    → (get_elem? (delays attempt (s ∷ ss)) 0 ≡ some 500)
      × (get_elem? (delays attempt (s ∷ ss)) (suc n) ≡ some (min 10000 (500 * 2 ^ suc n)))
unfolding delays backoff_delay
delays_double s ss attempt n est running all h =
    let exponent : 1 + n ≡ suc n = omega arith in
    (
      ground (arith, est, running),
      ground (
        arith,
        est,
        running,
        delays-failed ss 1 n all h,
        ap (λ k. some (min 10000 (500 * 2 ^ k))) exponent,
      ),
    )
