-- ===== src/Sessions/History/Truncation.antt =====
-- What the bounding of an entry in src/sessions/history.ts comes to.
use hugin_agent.Prelude.{
  ℕ, zero, suc, ◌+◌, ◌-◌, ◌/◌, ◌≤◌, ◌<◌, ◌≡◌, inl, inr, true, if◌then◌else◌, ltb, length,
  length-take, Bool-cases, arith,
}
use hugin_agent.Sessions.History.Bound.{
  HistoryEntry, cut, fits, search, truncate_entry_content, drop_tool_calls, recorded,
  bound_history_entry_bytes,
}

module _ (bytes_of : HistoryEntry → ℕ) (max : ℕ) where
  -- The search returns what it began with or a prefix that fits.
  search-fits :
      (entry : HistoryEntry) (fuel lo hi best : ℕ)
      → fits bytes_of max (cut entry best) ≡ true
      → fits bytes_of max (cut entry (search bytes_of max entry fuel lo hi best)) ≡ true
  unfolding search
  search-fits entry zero lo hi best h = h
  search-fits entry (suc fuel) lo hi best h =
      let mid = (lo + (hi - 1)) / 2 in
      elim (Bool-cases (fits bytes_of max (cut entry mid))) [
        | inl ok ↦ ground (arith, h, ok, search-fits entry fuel (suc mid) hi mid ok)
        | inr over ↦ ground (arith, h, over, search-fits entry fuel lo mid best h)
      ]

  -- Where shorter prefixes of what fits fit too, nothing longer than the result fits.
  search-longest :
      (entry : HistoryEntry) (fuel lo hi best : ℕ)
      → ((m n : ℕ)
          → m ≤ n
          → fits bytes_of max (cut entry n) ≡ true
          → fits bytes_of max (cut entry m) ≡ true)
      → hi < lo + fuel
      → ((n : ℕ) → n < lo → n ≤ best)
      → (n : ℕ) → n < hi
      → fits bytes_of max (cut entry n) ≡ true
      → n ≤ search bytes_of max entry fuel lo hi best
  unfolding search
  search-longest entry zero lo hi best mono enough below n h ok = omega (arith, below n)
  search-longest entry (suc fuel) lo hi best mono enough below n h ok =
      let mid = (lo + (hi - 1)) / 2 in
      elim (Bool-cases (ltb lo hi)) [
        | inr done ↦ ground (arith, done, below n)
        | inl open_range ↦ elim (Bool-cases (fits bytes_of max (cut entry mid))) [
          | inl fitting ↦ ground (
            arith,
            fitting,
            open_range,
            search-longest entry fuel (suc mid) hi mid mono (ground arith) (λ k less. omega arith) n
                h ok,
          )
          | inr over ↦
              let shorter : n < mid = ground (arith, over, mono mid n) in
              ground (
                arith,
                over,
                open_range,
                search-longest entry fuel lo mid best mono (ground arith) below n shorter ok,
              )
        ]
      ]

-- The bounded entry fits, provided that what is left without text does: the entry that the loop over
-- the tool calls ends with, its text empty and marked as truncated. An entry that fits is left as it is.
pub bound_history_entry_bytes-fits :
    (bytes_of : HistoryEntry → ℕ) (max : ℕ) (entry : HistoryEntry)
    → fits bytes_of max (
        cut
          (recorded bytes_of max (drop_tool_calls bytes_of max entry 0 (length entry.tool_calls)))
          0)
      ≡ true
    → let bounded = bound_history_entry_bytes bytes_of max entry in
      (fits bytes_of max bounded ≡ true)
      × (bounded ≡ (if fits bytes_of max entry then entry else bounded))
unfolding bound_history_entry_bytes truncate_entry_content
bound_history_entry_bytes-fits bytes_of max entry h =
    let bounded =
      recorded bytes_of max (drop_tool_calls bytes_of max entry 0 (length entry.tool_calls)) in
    (
      ground (
        arith,
        h,
        search-fits bytes_of max bounded (length bounded.content + 2) 0 (length bounded.content + 1)
            0 h,
      ),
      ground arith,
    )

-- The truncated text is the longest prefix that fits, if every prefix of a prefix that fits does too:
-- no longer one, up to the whole text, fits.
truncate_entry_content_longest :
    (bytes_of : HistoryEntry → ℕ) (max : ℕ) (entry : HistoryEntry) (n : ℕ)
    → ((m k : ℕ)
        → m ≤ k
        → fits bytes_of max (cut entry k) ≡ true
        → fits bytes_of max (cut entry m) ≡ true)
    → n ≤ length entry.content
    → fits bytes_of max (cut entry n) ≡ true
    → n ≤ length (truncate_entry_content bytes_of max entry).content
unfolding truncate_entry_content
truncate_entry_content_longest bytes_of max entry n mono h ok =
    let found =
      search bytes_of max entry (length entry.content + 2) 0 (length entry.content + 1) 0 in
    let longest =
      search-longest bytes_of max entry (length entry.content + 2) 0 (length entry.content + 1) 0
        mono (omega arith) (λ k less. omega arith) n (omega arith) ok in
    omega (arith, length-take found entry.content, longest)
