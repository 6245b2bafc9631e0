-- ===== src/Sessions/History/Page.antt =====
-- One page of a history: `paginateHistory` of src/sessions/history.ts.
use hugin_agent.Prelude.{
  ℕ, zero, suc, ◌+◌, Bool, not, ◌&&◌, ◌||◌, Option, none, some, List, [], ◌∷◌, ltb, if◌then◌else◌,
  length, take, drop, get_elem?, min, max,
}
use hugin_agent.Sessions.History.Cursor.{JsonText, encode_history_cursor, decode_history_cursor}

abbrev history_page_default : ℕ
history_page_default = 50

abbrev pub history_page_max : ℕ
history_page_max = 256

-- The requested limit: absent or not finite, a whole number, or a negative one.
pub data Limit : Type 0 where
  unlimited : Limit
  at_most : ℕ → Limit
  negative : ℕ → Limit

unfoldable pub clamp_limit : Limit → ℕ
clamp_limit unlimited = history_page_default
clamp_limit (at_most n) = max 1 (min n history_page_max)
clamp_limit (negative n) = 1

-- `entries.slice(start, boundary)`
unfoldable pub slice {ℓ} : {A : Type ℓ} → List A → ℕ → ℕ → List A
slice entries start boundary = drop start (take boundary entries)

unfoldable pub sum_of {ℓ} : {A : Type ℓ} → (A → ℕ) → List A → ℕ
sum_of bytes_of [] = 0
sum_of bytes_of (x ∷ xs) = bytes_of x + sum_of bytes_of xs

pub record HistoryPage {ℓ} (A : Type ℓ) : Type ℓ where
  pub entries : List A
  pub next_cursor : Option (List ℕ)
  pub truncated : Bool

-- `budget` is HISTORY_FRAME_BUDGET, and `bytes_of` the length of an entry's JSON text.
module _ {ℓ} {A : Type ℓ} (bytes_of : A → ℕ) (budget : ℕ) where
  -- The loop: `start` is the boundary so far, above the entry that is tried next.
  unfoldable pub page_start : List A → ℕ → ℕ → ℕ → ℕ → ℕ
  page_start entries limit count bytes zero = 0
  page_start entries limit count bytes (suc i) = elim (get_elem? entries i) [
    | none ↦ suc i
    | some entry ↦
        let more = page_start entries limit (suc count) (bytes + bytes_of entry) i in
        if not (ltb count limit) || (ltb 0 count && ltb budget (bytes + bytes_of entry))
        then suc i
        else more
  ]

  -- The page below a boundary, with `sig` the signature of the cursor's scope.
  unfoldable pub page_below : JsonText → List A → ℕ → Limit → ℕ → HistoryPage A
  unfolding clamp_limit page_start slice
  page_below codec entries sig limit boundary =
      let start = page_start entries (clamp_limit limit) 0 0 boundary in
      record {
        entries = slice entries start boundary;
        next_cursor = if ltb 0 start then some (encode_history_cursor codec start sig) else none;
        truncated = ltb 0 start;
      }

  -- `none` is a HistoryCursorError.
  unfoldable pub paginate_history :
      JsonText → List A → ℕ → Option (List ℕ) → Limit → Option (HistoryPage A)
  unfolding page_below
  paginate_history codec entries sig none limit =
      some (page_below codec entries sig limit (length entries))
  paginate_history codec entries sig (some cursor) limit =
      elim (decode_history_cursor codec cursor (length entries) sig) [
        | none ↦ none
        | some boundary ↦ some (page_below codec entries sig limit boundary)
      ]
