-- ===== src/Sessions/History/Traversal/Start.antt =====
-- The loop of `paginateHistory` in src/sessions/history.ts: how far down a page reaches.
use hugin_agent.Prelude.{
  ℕ, zero, suc, ◌+◌, ◌≤◌, ◌<◌, ◌≡◌, ◌⊎◌, inl, inr, refl, ap, ◌∙◌, not, ◌&&◌, ◌||◌, List, [], ◌∷◌,
  ◌++◌, ltb, length, take, get_elem?, max, Option-cases, Bool-cases, arith, length-append,
  length-take,
}
use hugin_agent.Sessions.History.Page.{page_start, slice, sum_of}
use hugin_agent.Sessions.History.Traversal.Slices.{
  get_elem?-some, slice-suffix, slice_self, slice-suc,
}

module _ {ℓ} {A : Type ℓ} (bytes_of : A → ℕ) (budget : ℕ) where
  pub sum_of-append :
      (xs ys : List A) → sum_of bytes_of (xs ++ ys) ≡ sum_of bytes_of xs + sum_of bytes_of ys
  unfolding sum_of
  sum_of-append [] ys = omega arith
  sum_of-append (x ∷ xs) ys = omega (arith, sum_of-append xs ys)

  pub page_start_le :
      (entries : List A) (limit count bytes i : ℕ)
      → page_start bytes_of budget entries limit count bytes i ≤ i
  unfolding page_start
  page_start_le entries limit count bytes zero = omega arith
  page_start_le entries limit count bytes (suc i) = elim (Option-cases (get_elem? entries i)) [
    | inl out ↦ ground arith
    | inr (entry, at) ↦
        ground (arith, page_start_le entries limit (suc count) (bytes + bytes_of entry) i)
  ]

  -- At most `limit` entries in all, of which `count` are taken.
  pub page_start_within :
      (entries : List A) (limit count bytes i : ℕ)
      → count ≤ limit
      → i ≤ length entries
      → count + i ≤ limit + page_start bytes_of budget entries limit count bytes i
  unfolding page_start
  page_start_within entries limit count bytes zero h k = omega arith
  page_start_within entries limit count bytes (suc i) h k =
      let (entry, at) = get_elem?-some entries i k in
      elim (Bool-cases (ltb count limit)) [
        | inl room ↦ ground (
          arith,
          at,
          page_start_within entries limit (suc count) (bytes + bytes_of entry) i (ground arith)
              (omega arith),
        )
        | inr full ↦ ground (arith, at)
      ]

  -- The first entry is taken whatever it measures.
  pub page_start_lt :
      (entries : List A) (limit i : ℕ)
      → 0 < limit
      → i < length entries
      → page_start bytes_of budget entries limit 0 0 (suc i) ≤ i
  unfolding page_start
  page_start_lt entries limit i pos h =
      let (entry, at) = get_elem?-some entries i h in
      ground (arith, at, page_start_le entries limit 1 (bytes_of entry) i)

  -- After a first entry nothing is added beyond the budget.
  pub page_start_bytes :
      (entries : List A) (limit count bytes i : ℕ)
      → 0 < count
      → i ≤ length entries
      → bytes
          + sum_of bytes_of
              (slice entries (page_start bytes_of budget entries limit count bytes i) i)
        ≤ max budget bytes
  unfolding page_start sum_of
  page_start_bytes entries limit count bytes zero pos h = unfold slice sum_of in omega arith
  page_start_bytes entries limit count bytes (suc i) pos h =
      let (entry, at) = get_elem?-some entries i h in
      let start = page_start bytes_of budget entries limit (suc count) (bytes + bytes_of entry) i in
      let rest =
        page_start_bytes entries limit (suc count) (bytes + bytes_of entry) i (omega arith)
          (omega arith) in
      let whole =
        ap (sum_of bytes_of) (
          slice-suc entries start i entry
            (page_start_le entries limit (suc count) (bytes + bytes_of entry) i) at)
        ∙ sum_of-append (slice entries start i) (entry ∷ []) in
      elim (Bool-cases
        (not (ltb count limit) || (ltb 0 count && ltb budget (bytes + bytes_of entry)))) [
          | inl stops ↦ ground (arith, at, ap (sum_of bytes_of) (slice_self entries (suc i)))
          | inr goes_on ↦ ground (arith, at, rest, whole)
        ]

  -- Beyond the budget the loop stops at once.
  pub page_start_over :
      (entries : List A) (limit count bytes i : ℕ)
      → 0 < count
      → budget < bytes
      → page_start bytes_of budget entries limit count bytes i ≡ i
  unfolding page_start
  page_start_over entries limit count bytes zero pos over = refl
  page_start_over entries limit count bytes (suc i) pos over = ground arith

  pub length-slice : (xs : List A) (s b : ℕ) → s ≤ b → b ≤ length xs → s + length (slice xs s b) ≡ b
  length-slice xs s b h k =
      let parts = ap length (slice-suffix xs s b h) in
      omega
        (arith, parts, length-append (take s xs) (slice xs s b), length-take s xs, length-take b xs)

  pub page_bytes :
      (entries : List A) (limit boundary : ℕ)
      → 0 < limit
      → boundary ≤ length entries
      → let start = page_start bytes_of budget entries limit 0 0 boundary in
        (sum_of bytes_of (slice entries start boundary) ≤ budget) ⊎ (boundary ≤ suc start)
  page_bytes entries limit zero pos h = inr (omega arith)
  page_bytes entries limit (suc i) pos h =
      let (entry, at) = get_elem?-some entries i h in
      let start = page_start bytes_of budget entries limit 1 (bytes_of entry) i in
      let first : page_start bytes_of budget entries limit 0 0 (suc i) ≡ start =
        unfold page_start in ground (arith, at) in
      elim (Bool-cases (ltb budget (bytes_of entry))) [
        | inl over ↦ inr (
            omega (
              arith,
              first,
              page_start_over entries limit 1 (bytes_of entry) i (omega arith) (ground arith),
            ))
        | inr fits ↦
            let rest =
              page_start_bytes entries limit 1 (bytes_of entry) i (omega arith) (omega arith) in
            let whole =
              ap (sum_of bytes_of) (
                slice-suc entries start i entry (page_start_le entries limit 1 (bytes_of entry) i)
                  at)
              ∙ sum_of-append (slice entries start i) (entry ∷ []) in
            inl (rw first (unfold sum_of in ground (arith, rest, whole)))
      ]
