-- ===== src/Sessions/History/Bound.antt =====
-- Entries that are too large for a frame: `boundHistoryEntryBytes` and
-- `truncateEntryContentToByteLimit` of src/sessions/history.ts. A text is the list of its UTF-16 units.
use hugin_agent.Prelude.{
  ℕ, zero, suc, ◌+◌, ◌-◌, ◌/◌, String, Bool, true, false, Option, List, [], ◌∷◌, ltb, leb,
  if◌then◌else◌, length, take,
}

pub data OmittedKind : Type 0 where
  image document thinking fallback other : OmittedKind

pub record Omitted : Type 0 where
  pub kind : OmittedKind
  pub count : ℕ

pub data HistoryRole : Type 0 where
  user assistant : HistoryRole

pub data ToolStatus : Type 0 where
  ok error : ToolStatus

pub record SessionToolCall : Type 0 where
  pub id : String
  pub name : String
  pub input : Option (List ℕ)
  pub input_truncated : Bool
  pub output : Option (List ℕ)
  pub output_truncated : Bool
  pub status : Option ToolStatus

-- No tool call and no omission stand for an absent field.
pub record HistoryEntry : Type 0 where
  pub entry_id : String
  pub role : HistoryRole
  pub content : List ℕ
  pub content_truncated : Bool
  pub tool_calls : List SessionToolCall
  pub omitted : List Omitted
  pub created_at : Option String

-- The place of a kind in OMITTED_ORDER.
abbrev pub order : OmittedKind → ℕ
order image = 0
order document = 1
order thinking = 2
order fallback = 3
order other = 4

unfoldable pub insert_omitted : Omitted → List Omitted → List Omitted
insert_omitted o [] = o ∷ []
insert_omitted o (x ∷ xs) =
    if leb (order o.kind) (order x.kind) then o ∷ x ∷ xs else x ∷ insert_omitted o xs

unfoldable pub sort_omitted : List Omitted → List Omitted
unfolding insert_omitted
sort_omitted [] = []
sort_omitted (o ∷ os) = insert_omitted o (sort_omitted os)

abbrev is_other : OmittedKind → Bool
is_other other = true
is_other image = false
is_other document = false
is_other thinking = false
is_other fallback = false

-- The first item of the kind `other` counts more, or a new one is added.
unfoldable pub add_other : ℕ → List Omitted → List Omitted
add_other n [] = record { kind = other; count = n } ∷ []
add_other n (o ∷ os) =
    let rest = add_other n os in
    if is_other o.kind then record o { count = o.count + n } ∷ os else o ∷ rest

unfoldable pub increment_omitted_other : HistoryEntry → ℕ → HistoryEntry
unfolding sort_omitted add_other
increment_omitted_other entry zero = entry
increment_omitted_other entry (suc n) = record entry {
  omitted = sort_omitted (add_other (suc n) entry.omitted);
}

-- `slice(0, -1)`
unfoldable pub drop_last : List SessionToolCall → List SessionToolCall
drop_last [] = []
drop_last (x ∷ []) = []
drop_last (x ∷ y ∷ ys) = x ∷ drop_last (y ∷ ys)

abbrev pub cut : HistoryEntry → ℕ → HistoryEntry
cut entry n = record entry { content = take n entry.content; content_truncated = true }

-- `bytes_of` is the length of an entry's JSON text, and `max` is HISTORY_ENTRY_BYTE_MAX.
module _ (bytes_of : HistoryEntry → ℕ) (max : ℕ) where
  unfoldable pub fits : HistoryEntry → Bool
  fits entry = leb (bytes_of entry) max

  -- The loop of the binary search, with `hi` one above the program's: the longest prefix found so far.
  unfoldable pub search : HistoryEntry → ℕ → ℕ → ℕ → ℕ → ℕ
  unfolding fits
  search entry zero lo hi best = best
  search entry (suc fuel) lo hi best =
      let mid = (lo + (hi - 1)) / 2 in
      let up = search entry fuel (suc mid) hi mid in
      let down = search entry fuel lo mid best in
      if ltb lo hi then (if fits (cut entry mid) then up else down) else best

  -- Each round at least halves the range, so one round for every length is enough.
  unfoldable pub truncate_entry_content : HistoryEntry → HistoryEntry
  unfolding search
  truncate_entry_content entry =
      cut entry (search entry (length entry.content + 2) 0 (length entry.content + 1) 0)

  pub data Dropped : Type 0 where
    dropped : HistoryEntry → ℕ → Bool → Dropped

  -- The loop that drops tool calls from the end; as many rounds as there are calls.
  unfoldable pub drop_tool_calls : HistoryEntry → ℕ → ℕ → Dropped
  unfolding fits increment_omitted_other drop_last
  drop_tool_calls entry n zero = dropped entry n false
  drop_tool_calls entry n (suc fuel) =
      let candidate = increment_omitted_other entry n in
      let more =
        drop_tool_calls (record entry { tool_calls = drop_last entry.tool_calls }) (suc n) fuel in
      if fits candidate then dropped candidate n (ltb 0 n) else more

  -- The omission is recorded once.
  abbrev pub recorded : Dropped → HistoryEntry
  recorded (dropped entry n true) = entry
  recorded (dropped entry n false) = increment_omitted_other entry n

  unfoldable pub bound_history_entry_bytes : HistoryEntry → HistoryEntry
  unfolding fits drop_tool_calls truncate_entry_content
  bound_history_entry_bytes entry =
      let bounded = recorded (drop_tool_calls entry 0 (length entry.tool_calls)) in
      if fits entry then entry else if fits bounded then bounded else truncate_entry_content bounded
