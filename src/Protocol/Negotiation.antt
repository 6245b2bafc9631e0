-- ===== src/Protocol/Negotiation.antt =====
-- What `negotiateVersion` of protocol/v1/index.ts agrees on.
use hugin_agent.Prelude.{
  ℕ, ◌≡◌, ◌⊎◌, refl, Bool, true, false, not, ◌&&◌, some, List, [], ◌∷◌, ◌++◌, filter, ◌==◌,
  if◌then◌else◌, Bool-cases, inl, inr, arith,
}
use hugin_agent.Store.Rows.{find, find-test}
use hugin_agent.Protocol.Version.{
  codes_eq, codes_eq_iff, is_sem_ver, major_of, pre_of, has_pre, until_char, ok, negotiate_version,
}

-- The agreed version is supported by the server.
abbrev pub Elem : List ℕ → List (List ℕ) → Type 0
Elem v [] = ⊥
Elem v (w ∷ ws) = (v ≡ w) ⊎ Elem v ws

find-Elem :
    (p : List ℕ → Bool) (ws : List (List ℕ)) (v : List ℕ)
    → find p (filter is_sem_ver ws) ≡ some v
    → Elem v ws × (is_sem_ver v ≡ true)
unfolding find
find-Elem p [] v h = ground arith
find-Elem p (w ∷ ws) v h = ground (arith, find-Elem p ws v)

pre_of-dashes :
    (core rest : List ℕ)
    → until_char b'-' core ≡ core
    → pre_of (core ++ (b'-' ∷ b'-' ∷ rest)) ≡ some []
unfolding pre_of until_char
pre_of-dashes [] rest h = refl
pre_of-dashes (c ∷ cs) rest h = ground (arith, pre_of-dashes cs rest)

-- A text with a dash whose first dash is followed by a character that is no dash. Of a well-formed version, it
-- says that it has a prerelease part, and that the part does not begin with a dash.
unfoldable pub marked_prerelease : List ℕ → Bool
marked_prerelease [] = false
marked_prerelease (c ∷ []) = false
marked_prerelease (c ∷ d ∷ ds) = if c == b'-' then not (d == b'-') else marked_prerelease (d ∷ ds)

has_pre-marked : (v : List ℕ) → has_pre v ≡ marked_prerelease v
unfolding pre_of until_char marked_prerelease
has_pre-marked [] = refl
has_pre-marked (c ∷ []) = ground arith
has_pre-marked (c ∷ d ∷ ds) = ground (arith, has_pre-marked (d ∷ ds))

-- A negotiated version is one that the server offered and is well formed. If the agent's version has a
-- prerelease part that does not begin with a dash, the negotiated version is the agent's own. Else it has
-- the agent's major and no such part: it is stable, or its prerelease part begins with a dash.
pub negotiate_version_sound :
    (agent : List ℕ) (supported : List (List ℕ)) (v : List ℕ)
    → negotiate_version agent supported ≡ ok v
    → Elem v supported
      × (is_sem_ver agent ≡ true)
      × (is_sem_ver v ≡ true)
      × (if marked_prerelease agent
          then v ≡ agent
          else (marked_prerelease v ≡ false) × (major_of v ≡ major_of agent))
unfolding negotiate_version
negotiate_version_sound agent supported v h = elim (Bool-cases (is_sem_ver agent)) [
  | inr bad ↦ absurd (ground arith)
  | inl good ↦ elim (Bool-cases (has_pre agent)) [
    | inl pre ↦
        let found : find (λ v. codes_eq v agent) (filter is_sem_ver supported) ≡ some v =
          ground (arith, h, pre, good) in
        let parts = find-Elem (λ v. codes_eq v agent) supported v found in
        (
          parts.0,
          good,
          parts.1,
          rw (← has_pre-marked agent, pre)
              ((codes_eq_iff v agent).0
                (find-test (λ v. codes_eq v agent) (filter is_sem_ver supported) found)),
        )
    | inr stable ↦
        let same = λ (v : List ℕ). not (has_pre v) && codes_eq (major_of v) (major_of agent) in
        let found : find same (filter is_sem_ver supported) ≡ some v =
          ground (arith, h, stable, good) in
        let parts = find-Elem same supported v found in
        (
          parts.0,
          good,
          parts.1,
          rw (← has_pre-marked agent, ← has_pre-marked v, stable)
              (ground (
                arith,
                find-test same (filter is_sem_ver supported) found,
                codes_eq_iff (major_of v) (major_of agent),
              )),
        )
  ]
]

-- A version whose prerelease part begins with a dash is taken for a stable one: the pattern admits it,
-- `preOf` reads an empty text, and any stable version of the major is agreed on, though a prerelease is
-- to require an exact match.
pub dash_prerelease_is_stable :
    (core rest v : List ℕ)
    → let agent = core ++ (b'-' ∷ b'-' ∷ rest) in
      until_char b'-' core ≡ core
      → is_sem_ver agent ≡ true
      → is_sem_ver v ≡ true
      → has_pre v ≡ false
      → major_of v ≡ major_of agent
      → negotiate_version agent (v ∷ []) ≡ ok v
unfolding negotiate_version find
dash_prerelease_is_stable core rest v plain good good' stable same = ground (
  arith,
  pre_of-dashes core rest plain,
  codes_eq_iff (major_of v) (major_of (core ++ (b'-' ∷ b'-' ∷ rest))),
)
