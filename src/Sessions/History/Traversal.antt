-- ===== src/Sessions/History/Traversal.antt =====
-- What the pages of src/sessions/history.ts hold, and that following their cursors reads every entry.
pub mod Slices
pub mod Start
use hugin_agent.Prelude.{
  ℕ, zero, suc, ◌+◌, ◌≤◌, ◌<◌, ◌≡◌, ◌⊎◌, inl, inr, refl, sym, ap, ◌∙◌, false, not, ◌&&◌, ◌||◌,
  Option, none, some, List, [], ◌∷◌, ◌++◌, ltb, length, take, drop, get_elem?, max, Option-cases,
  Bool-cases, arith, ltb→lt, take-append-drop, length-append, length-take, get_elem?-lt,
}
use hugin_agent.Sessions.History.Cursor.{
  JsonText, Faithful, encode_history_cursor, decode-encode_history_cursor,
}
use hugin_agent.Sessions.History.Page.{
  Limit, clamp_limit, history_page_max, page_start, slice, sum_of, page_below, paginate_history,
}
use Slices.{
  take-suc, drop-append, take-take, take_all, get_elem?-some, slice-suffix, slice_self, slice-suc,
}
use Start.{
  sum_of-append, page_start_le, page_start_within, page_start_lt, page_start_bytes, page_start_over,
  length-slice, page_bytes,
}

clamp_limit_range :
    (limit : Limit) → (0 < clamp_limit limit) × (clamp_limit limit ≤ history_page_max)
unfolding clamp_limit
clamp_limit_range (Limit.unlimited) = (omega arith, omega arith)
clamp_limit_range (Limit.at_most n) = (omega arith, omega arith)
clamp_limit_range (Limit.negative n) = (omega arith, omega arith)

page_progress {ℓ} :
    {A : Type ℓ} (bytes_of : A → ℕ) (budget : ℕ) (entries : List A) (limit : Limit) (b : ℕ)
    → 0 < b
    → b ≤ length entries
    → page_start bytes_of budget entries (clamp_limit limit) 0 0 b < b
page_progress bytes_of budget entries limit zero pos k = absurd (omega arith)
page_progress bytes_of budget entries limit (suc i) pos k = omega (
  arith,
  page_start_lt bytes_of budget entries (clamp_limit limit) i (clamp_limit_range limit).0 k,
)

-- A page below a boundary that is in range has at most as many entries as the clamped limit allows, so
-- at most 256; it has one at least unless the boundary is 0; and it keeps within the byte budget, or is
-- a single entry.
pub page_below_bounds {ℓ} :
    {A : Type ℓ} (bytes_of : A → ℕ) (budget : ℕ) (codec : JsonText) (entries : List A) (sig : ℕ)
    (limit : Limit) (boundary : ℕ)
    → boundary ≤ length entries
    → let page = page_below bytes_of budget codec entries sig limit boundary in
      (length page.entries ≤ clamp_limit limit)
      × (length page.entries ≤ history_page_max)
      × (0 < boundary → 0 < length page.entries)
      × ((sum_of bytes_of page.entries ≤ budget) ⊎ (length page.entries ≤ 1))
unfolding page_below
page_below_bounds bytes_of budget codec entries sig limit boundary h =
    let start = page_start bytes_of budget entries (clamp_limit limit) 0 0 boundary in
    let range = clamp_limit_range limit in
    let size =
      length-slice bytes_of budget entries start boundary
        (page_start_le bytes_of budget entries (clamp_limit limit) 0 0 boundary) h in
    let within =
      page_start_within bytes_of budget entries (clamp_limit limit) 0 0 boundary (omega arith) h in
    (
      omega (arith, size, within),
      omega (arith, size, within, range),
      λ pos. omega (arith, size, page_progress bytes_of budget entries limit boundary pos h),
      elim (page_bytes bytes_of budget entries (clamp_limit limit) boundary range.0 h) [
        | inl fits ↦ inl fits
        | inr single ↦ inr (omega (arith, size, single))
      ],
    )

-- Follows the cursors from the newest page on, the older pages in front: `none` is an exception, or
-- that the fuel is spent.
unfoldable pub read_back {ℓ} :
    {A : Type ℓ}
    → (A → ℕ)
    → ℕ
    → JsonText
    → List A
    → ℕ
    → Limit
    → ℕ
    → Option (List ℕ)
    → Option (List A)
read_back bytes_of budget codec entries sig limit zero cursor = none
read_back bytes_of budget codec entries sig limit (suc fuel) cursor =
    elim (paginate_history bytes_of budget codec entries sig cursor limit) [
      | none ↦ none
      | some page ↦ elim page.next_cursor [
        | none ↦ some page.entries
        | some next ↦ elim (read_back bytes_of budget codec entries sig limit fuel (some next)) [
          | none ↦ none
          | some older ↦ some (older ++ page.entries)
        ]
      ]
    ]

read_below {ℓ} :
    {A : Type ℓ} (bytes_of : A → ℕ) (budget : ℕ) (codec : JsonText) (entries : List A) (sig : ℕ)
    (limit : Limit) (fuel : ℕ) (cursor : Option (List ℕ)) (b : ℕ)
    → Faithful codec
    → b ≤ length entries
    → b < fuel
    → paginate_history bytes_of budget codec entries sig cursor limit
      ≡ some (page_below bytes_of budget codec entries sig limit b)
    → read_back bytes_of budget codec entries sig limit fuel cursor ≡ some (take b entries)
unfolding read_back page_below
read_below bytes_of budget codec entries sig limit zero cursor b faithful h k e =
    absurd (omega arith)
read_below bytes_of budget codec entries sig limit (suc fuel) cursor b faithful h k e =
    let start = page_start bytes_of budget entries (clamp_limit limit) 0 0 b in
    let below = page_start_le bytes_of budget entries (clamp_limit limit) 0 0 b in
    elim (Bool-cases (ltb 0 start)) [
      | inr last ↦ ground (
        arith,
        e,
        slice-suffix entries start b below,
        ap (λ n. take n entries) (ltb_zero start last),
      )
      | inl more ↦
          let progress =
            page_progress bytes_of budget entries limit b
              (omega (arith, below, ltb→lt 0 start more)) h in
          let next = some (encode_history_cursor codec start sig) in
          let older =
            read_below bytes_of budget codec entries sig limit fuel next start faithful
              (omega arith) (omega arith)
              (unfold paginate_history in
                ground (
                  arith,
                  (decode-encode_history_cursor codec start sig (length entries) sig faithful
                      (omega arith)).0,
                )) in
          ground (arith, e, older, slice-suffix entries start b below)
    ]
  where
    ltb_zero : (n : ℕ) → ltb 0 n ≡ false → n ≡ 0
    ltb_zero n h = ground arith

-- Following `next_cursor` until it is null reads the whole history: the pages, older ones in front, put
-- together are the entries, each once and in order, whatever the limit is; it takes at most one page
-- more than there are entries, which is the fuel given.
pub read_back_complete {ℓ} :
    {A : Type ℓ} (bytes_of : A → ℕ) (budget : ℕ) (codec : JsonText) (entries : List A) (sig : ℕ)
    (limit : Limit)
    → Faithful codec
    → read_back bytes_of budget codec entries sig limit (suc (length entries)) none ≡ some entries
unfolding paginate_history
read_back_complete bytes_of budget codec entries sig limit faithful =
    read_below bytes_of budget codec entries sig limit (suc (length entries)) none (length entries)
      faithful (omega arith) (omega arith) refl
    ∙ ap some (take_all (length entries) entries (omega arith))
