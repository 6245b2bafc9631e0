-- ===== src/Sessions/History/Traversal/Slices.antt =====
-- Parts of a list between two boundaries, as `slice` of src/sessions/history.ts takes them.
use hugin_agent.Prelude.{
  ℕ, zero, suc, ◌≤◌, ◌<◌, ◌≡◌, refl, sym, ap, ◌∙◌, some, List, [], ◌∷◌, ◌++◌, length, take, drop,
  get_elem?, arith, take-append-drop, length-take, get_elem?-lt,
}
use hugin_agent.Sessions.History.Page.{slice}

module _ {ℓ} {A : Type ℓ} where
  pub take-suc :
      (xs : List A) (i : ℕ) (x : A)
      → get_elem? xs i ≡ some x
      → take (suc i) xs ≡ take i xs ++ x ∷ []
  take-suc [] i x h = ground arith
  take-suc (y ∷ ys) zero x h = ground arith
  take-suc (y ∷ ys) (suc i) x h = ap (◌∷◌ y) (take-suc ys i x h)

  pub drop-append : (s : ℕ) (xs ys : List A) → s ≤ length xs → drop s (xs ++ ys) ≡ drop s xs ++ ys
  drop-append zero xs ys h = refl
  drop-append (suc s) [] ys h = absurd (omega arith)
  drop-append (suc s) (x ∷ xs) ys h = drop-append s xs ys (omega arith)

  pub take-take : (s b : ℕ) (xs : List A) → s ≤ b → take s (take b xs) ≡ take s xs
  take-take zero b xs h = refl
  take-take (suc s) zero xs h = absurd (omega arith)
  take-take (suc s) (suc b) [] h = refl
  take-take (suc s) (suc b) (x ∷ xs) h = ap (◌∷◌ x) (take-take s b xs (omega arith))

  pub take_all : (n : ℕ) (xs : List A) → length xs ≤ n → take n xs ≡ xs
  take_all zero [] h = refl
  take_all zero (x ∷ xs) h = absurd (omega arith)
  take_all (suc n) [] h = refl
  take_all (suc n) (x ∷ xs) h = ap (◌∷◌ x) (take_all n xs (omega arith))

  pub get_elem?-some : (xs : List A) (i : ℕ) → i < length xs → (x : A) × (get_elem? xs i ≡ some x)
  get_elem?-some [] i h = absurd (omega arith)
  get_elem?-some (x ∷ xs) zero h = (x, refl)
  get_elem?-some (x ∷ xs) (suc i) h = get_elem?-some xs i (omega arith)

  -- The entries below a page and the page make up the entries below its boundary.
  pub slice-suffix : (xs : List A) (s b : ℕ) → s ≤ b → take s xs ++ slice xs s b ≡ take b xs
  unfolding slice
  slice-suffix xs s b h =
      ap (λ front. front ++ drop s (take b xs)) (sym (take-take s b xs h))
      ∙ take-append-drop s (take b xs)

  pub slice_self : (xs : List A) (n : ℕ) → slice xs n n ≡ []
  unfolding slice
  slice_self xs zero = refl
  slice_self [] (suc n) = refl
  slice_self (x ∷ xs) (suc n) = slice_self xs n

  pub slice-suc :
      (xs : List A) (s i : ℕ) (x : A)
      → s ≤ i
      → get_elem? xs i ≡ some x
      → slice xs s (suc i) ≡ slice xs s i ++ x ∷ []
  unfolding slice
  slice-suc xs s i x h at =
      ap (drop s) (take-suc xs i x at)
      ∙ drop-append s (take i xs) (x ∷ []) (omega (arith, length-take i xs, get_elem?-lt xs i at))
