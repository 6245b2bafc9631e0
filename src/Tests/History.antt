-- ===== src/Tests/History.antt =====
-- Runs of src/sessions/history.ts.
use hugin_agent.Prelude.{
  ℕ, true, false, ◌+◌, ◌*◌, if◌then◌else◌, length-take, zero, suc, ap, ◌∙◌, ◌≡◌, ◌≢◌, ◌≤◌, ◌<◌, ◌⊎◌,
  refl, none, some, List, [], ◌∷◌, length, arith,
}
use hugin_agent.Protocol.Base64.{Bytes}
use hugin_agent.Json.{Json, obj, num, whole, field, end}
use hugin_agent.Sessions.History.Cursor.{
  JsonText, cursor_fields, Faithful, encode_history_cursor, decode_history_cursor,
  decode-encode_history_cursor,
}
use hugin_agent.Sessions.History.Page.{Limit, clamp_limit, history_page_max, sum_of, page_below}
use hugin_agent.Sessions.History.Bound.{
  HistoryEntry, SessionToolCall, assistant, cut, fits, bound_history_entry_bytes, drop_tool_calls,
  increment_omitted_other, add_other, sort_omitted, insert_omitted, drop_last,
}
use hugin_agent.Sessions.History.Truncation.{bound_history_entry_bytes-fits}
use hugin_agent.Sessions.History.Traversal.{page_below_bounds, read_back, read_back_complete}

abbrev ones : ℕ → List ℕ → List ℕ
ones zero rest = rest
ones (suc n) rest = 1 ∷ ones n rest

-- The number of ones before the first zero, and of what comes after it.
abbrev leading : List ℕ → ℕ
leading [] = 0
leading (zero ∷ xs) = 0
leading (suc n ∷ xs) = suc (leading xs)

abbrev trailing : List ℕ → ℕ
trailing [] = 0
trailing (zero ∷ xs) = length xs
trailing (suc n ∷ xs) = trailing xs

-- A cursor's object as two numbers in unary, parted by a zero.
abbrev unary : JsonText
unary = record {
  stringify = print;
  parse = λ xs. some (obj (cursor_fields (leading xs) (trailing xs)));
}
  where
    print : Json → List ℕ
    print (obj (field j (num (whole b)) (field k (num (whole sig)) end))) = ones b (0 ∷ ones sig [])
    print _ = []

length-ones : (n : ℕ) → length (ones n []) ≡ n
length-ones zero = refl
length-ones (suc n) = ap suc (length-ones n)

unary-Faithful : Faithful unary
unary-Faithful = record {
  printed = λ b sig. bytes b (0 ∷ ones sig []) (omega arith, bytes sig [] tt);
  not_empty = not_nil;
  parsed = λ b sig. ap some (
      ap obj (
        ap (λ n. cursor_fields n (trailing (ones b (0 ∷ ones sig [])))) (front b (ones sig []))
        ∙ ap (cursor_fields b) (back b (ones sig []) ∙ length-ones sig)));
}
  where
    bytes : (n : ℕ) (rest : List ℕ) → Bytes rest → Bytes (ones n rest)
    bytes zero rest b = b
    bytes (suc n) rest b = (omega arith, bytes n rest b)

    not_nil : (b sig : ℕ) → ones b (0 ∷ ones sig []) ≢ []
    not_nil zero sig e = ground arith
    not_nil (suc b) sig e = ground arith

    front : (b : ℕ) (rest : List ℕ) → leading (ones b (0 ∷ rest)) ≡ b
    front zero rest = refl
    front (suc b) rest = ap suc (front b rest)

    back : (b : ℕ) (rest : List ℕ) → trailing (ones b (0 ∷ rest)) ≡ length rest
    back zero rest = refl
    back (suc b) rest = back b rest

-- Five entries, measured by their own value.
abbrev entries : List ℕ
entries = 10 ∷ 20 ∷ 300 ∷ 40 ∷ 50 ∷ []

decode-encode_history_cursor_example :
    (decode_history_cursor unary (encode_history_cursor unary 3 77) 5 77 ≡ some 3)
    × (suc 77 ≢ 77 → decode_history_cursor unary (encode_history_cursor unary 3 77) 5 78 ≡ none)
decode-encode_history_cursor_example =
    decode-encode_history_cursor unary 3 77 5 78 unary-Faithful (omega arith)

page_below_bounds_example :
    let page = page_below (λ n. n) 100 unary entries 77 (Limit.at_most 4) 5 in
    (length page.entries ≤ clamp_limit (Limit.at_most 4))
    × (length page.entries ≤ history_page_max)
    × (0 < 5 → 0 < length page.entries)
    × ((sum_of (λ n. n) page.entries ≤ 100) ⊎ (length page.entries ≤ 1))
page_below_bounds_example =
    page_below_bounds (λ n. n) 100 unary entries 77 (Limit.at_most 4) 5 (omega arith)

read_back_complete_example :
    read_back (λ n. n) 100 unary entries 77 (Limit.at_most 4) 6 none ≡ some entries
read_back_complete_example =
    read_back_complete (λ n. n) 100 unary entries 77 (Limit.at_most 4) unary-Faithful

-- A text of six units and two tool calls, each call measured as 100.
abbrev large : HistoryEntry
large = record {
  entry_id = "e_1";
  role = assistant;
  content = 65 ∷ 66 ∷ 67 ∷ 68 ∷ 69 ∷ 70 ∷ [];
  content_truncated = false;
  tool_calls = call ∷ call ∷ [];
  omitted = [];
  created_at = none;
}
  where
    call : SessionToolCall
    call = record {
      id = "c";
      name = "Bash";
      input = none;
      input_truncated = false;
      output = none;
      output_truncated = false;
      status = none;
    }

abbrev measure : HistoryEntry → ℕ
measure e = length e.content + 100 * length e.tool_calls + 10

bound_history_entry_bytes-fits_example :
    let bounded = bound_history_entry_bytes measure 14 large in
    (fits measure 14 bounded ≡ true)
    × (bounded ≡ (if fits measure 14 large then large else bounded))
unfolding fits drop_tool_calls increment_omitted_other add_other sort_omitted insert_omitted
    drop_last
bound_history_entry_bytes-fits_example = bound_history_entry_bytes-fits measure 14 large refl

shorter_fits :
    (m k : ℕ)
    → m ≤ k
    → fits measure 214 (cut large k) ≡ true
    → fits measure 214 (cut large m) ≡ true
unfolding fits
shorter_fits m k h ok = ground (arith, length-take m large.content, length-take k large.content)
