-- ===== src/Engine/Lines.antt =====
-- The loop `while ((nl = buf.indexOf("\n")) >= 0)` that src/engine/permission.ts, src/engine/claude.ts and
-- src/sessions/resume.ts share: each complete line is taken off the buffer and handled. A text is
-- the list of its UTF-16 units.
use hugin_agent.Prelude.{
  ℕ, zero, suc, ◌<◌, ◌≡◌, refl, ◌⊎◌, inl, inr, Bool, true, false, Option, none, some, List, [], ◌∷◌,
  ◌++◌, ◌==◌, if◌then◌else◌, length, Bool-cases, Option-cases, arith,
}

abbrev pub newline : ℕ
newline = 10

abbrev in_front : ℕ → Option (List ℕ × List ℕ) → Option (List ℕ × List ℕ)
in_front c none = none
in_front c (some (line, rest)) = some (c ∷ line, rest)

-- `buf.indexOf("\n")`, and the text before and after that place.
unfoldable pub cut_line : List ℕ → Option (List ℕ × List ℕ)
cut_line [] = none
cut_line (c ∷ cs) =
    let found = cut_line cs in if c == newline then some ([], cs) else in_front c found

-- The lines that are complete, and what is left behind the last of them: what the loop comes to.
abbrev push : ℕ → List (List ℕ) → List (List ℕ)
push c [] = []
push c (l ∷ ls) = (c ∷ l) ∷ ls

unfoldable pub complete : List ℕ → List (List ℕ)
complete [] = []
complete (c ∷ cs) = let more = complete cs in if c == newline then [] ∷ more else push c more

abbrev or_whole : ℕ → List ℕ → List (List ℕ) → List ℕ → List ℕ
or_whole c cs [] rest = c ∷ cs
or_whole c cs (l ∷ ls) rest = rest

unfoldable pub tail : List ℕ → List ℕ
unfolding complete
tail [] = []
tail (c ∷ cs) =
    let rest = tail cs in if c == newline then rest else or_whole c cs (complete cs) rest

module _ {ℓ} {S : Type ℓ} where
  abbrev pub fold : (List ℕ → S → S) → List (List ℕ) → S → S
  fold body [] s = s
  fold body (l ∷ ls) s = fold body ls (body l s)

  -- `stop` is tested before each line, and one round for every unit of the buffer is enough.
  unfoldable pub each_line : (S → Bool) → (List ℕ → S → S) → ℕ → S → List ℕ → S × List ℕ
  each_line stop body zero s buf = (s, buf)
  each_line stop body (suc fuel) s buf = elim (stop s) [
    | true ↦ (s, buf)
    | false ↦ elim (cut_line buf) [
      | none ↦ (s, buf)
      | some (line, rest) ↦ each_line stop body fuel (body line s) rest
    ]
  ]

pub cut_line-some :
    (buf line rest : List ℕ)
    → cut_line buf ≡ some (line, rest)
    → (complete buf ≡ line ∷ complete rest) × (tail buf ≡ tail rest) × (length rest < length buf)
unfolding cut_line complete tail
cut_line-some [] line rest h = absurd (ground arith)
cut_line-some (c ∷ cs) line rest h = elim (Option-cases (cut_line cs)) [
  | inl e ↦ ground arith
  | inr ((l, r), e) ↦ ground (arith, cut_line-some cs l r e)
]

pub cut_line-none : (buf : List ℕ) → cut_line buf ≡ none → (complete buf ≡ []) × (tail buf ≡ buf)
unfolding cut_line complete tail
cut_line-none [] h = (refl, refl)
cut_line-none (c ∷ cs) h = ground (arith, cut_line-none cs, Option-cases (cut_line cs))

pub complete-append :
    (a b : List ℕ)
    → (complete (a ++ b) ≡ complete a ++ complete (tail a ++ b))
      × (tail (a ++ b) ≡ tail (tail a ++ b))
unfolding complete tail
complete-append [] b = (refl, refl)
complete-append (c ∷ cs) b = ground (arith, complete-append cs b)

pub complete-tail : (s : List ℕ) → (complete (tail s) ≡ []) × (tail (tail s) ≡ tail s)
unfolding complete tail
complete-tail [] = (refl, refl)
complete-tail (c ∷ cs) = ground (arith, complete-tail cs)

module _ {ℓ} {S : Type ℓ} (body : List ℕ → S → S) where
  -- One round: it stops, or a line is handled.
  round_cases :
      (stop : S → Bool) (fuel : ℕ) (s : S) (buf : List ℕ)
      → ((stop s ≡ true) ⊎ (cut_line buf ≡ none))
          × (each_line stop body (suc fuel) s buf ≡ (s, buf))
        ⊎ (line : List ℕ) × (rest : List ℕ) × (cut_line buf ≡ some (line, rest))
          × (each_line stop body (suc fuel) s buf ≡ each_line stop body fuel (body line s) rest)
  unfolding each_line
  round_cases stop fuel s buf = elim (Bool-cases (stop s)) [
    | inl e ↦ inl (inl e, ground arith)
    | inr e ↦ elim (Option-cases (cut_line buf)) [
      | inl last ↦ inl (inr last, ground arith)
      | inr ((line, rest), cut) ↦ inr (line, rest, cut, ground arith)
    ]
  ]

  -- The rule for an invariant of the state and the buffer.
  pub each_line_inv {κ} :
      (P : S → List ℕ → Type κ)
      → ((s : S) (buf line rest : List ℕ)
          → cut_line buf ≡ some (line, rest)
          → P s buf
          → P (body line s) rest)
      → (stop : S → Bool) (fuel : ℕ) (s : S) (buf : List ℕ) → P s buf
      → P (each_line stop body fuel s buf).0 (each_line stop body fuel s buf).1
  each_line_inv P keep stop zero s buf h = unfold each_line in h
  each_line_inv P keep stop (suc fuel) s buf h = elim (round_cases stop fuel s buf) [
    | inl (why, e) ↦ rw e h
    | inr (line, rest, cut, e) ↦
        rw e (each_line_inv P keep stop fuel (body line s) rest (keep s buf line rest cut h))
  ]

  -- The loop ends because it was stopped or because no complete line is left.
  pub each_line_ends :
      (stop : S → Bool) (fuel : ℕ) (s : S) (buf : List ℕ)
      → length buf < fuel
      → (stop (each_line stop body fuel s buf).0 ≡ true)
        ⊎ (cut_line (each_line stop body fuel s buf).1 ≡ none)
  each_line_ends stop zero s buf h = elim h [ ]
  each_line_ends stop (suc fuel) s buf h = elim (round_cases stop fuel s buf) [
    | inl (why, e) ↦ rw e why
    | inr (line, rest, cut, e) ↦
        let shorter : length rest < fuel = omega (arith, cut_line-some buf line rest cut) in
        rw e (each_line_ends stop fuel (body line s) rest shorter)
  ]

  -- A loop that is never stopped handles the complete lines, in order, and leaves the tail.
  pub each_line-fold :
      (fuel : ℕ) (s : S) (buf : List ℕ)
      → length buf < fuel
      → each_line (λ _. false) body fuel s buf ≡ (fold body (complete buf) s, tail buf)
  unfolding each_line
  each_line-fold zero s buf h = elim h [ ]
  each_line-fold (suc fuel) s buf h = elim (Option-cases (cut_line buf)) [
    | inl e ↦ ground (arith, cut_line-none buf e)
    | inr ((line, rest), e) ↦
        ground (arith, cut_line-some buf line rest e, each_line-fold fuel (body line s) rest)
  ]

  pub fold-append :
      (ls ms : List (List ℕ)) (s : S) → fold body (ls ++ ms) s ≡ fold body ms (fold body ls s)
  fold-append [] ms s = refl
  fold-append (l ∷ ls) ms s = fold-append ls ms (body l s)

pub each_line-nil {ℓ} :
    {S : Type ℓ} (stop : S → Bool) (body : List ℕ → S → S) (fuel : ℕ) (s : S)
    → each_line stop body fuel s [] ≡ (s, [])
unfolding each_line cut_line
each_line-nil stop body zero s = refl
each_line-nil stop body (suc fuel) s = ground arith
