-- ===== src/Sessions/History/Texts.antt =====
-- Texts, statuses and omitted blocks of a transcript: the helpers of src/sessions/history.ts. Texts that
-- are measured are lists of UTF-16 units.
use hugin_agent.Prelude.{
  ℕ, zero, suc, String, Bool, true, false, not, ◌||◌, Option, none, some, List, [], ◌∷◌, ◌++◌, ltb,
  ◌==◌, str_eq, if◌then◌else◌, length, take, trim,
}
use hugin_agent.Json.{
  whole, minus, Json, null, bool, num, str, arr, obj, Items, nil, cons, Fields, get_field,
}
use hugin_agent.Jobs.Types.{EngineName}
use hugin_agent.Sessions.History.Bound.{
  OmittedKind, image, document, thinking, fallback, other, Omitted, ToolStatus, ok, error,
}

-- The units of a text and of a printed value (`JSON.stringify`, `String`), lower case, the time of a
-- timestamp in ISO form (`none` if it is no date), and the digests that make ids.
pub record Runtime : Type 0 where
  pub units : String → List ℕ
  pub print : Json → List ℕ
  pub to_lower_case : String → String
  pub iso_time : String → Option String
  pub entry_id : EngineName → String → ℕ → String
  pub call_id : String → ℕ → String

abbrev pub content_cap : ℕ
content_cap = 16384

abbrev pub tool_io_cap : ℕ
tool_io_cap = 8192

abbrev pub page_max : ℕ
page_max = 256

-- `capString`: the text, and whether it was cut.
unfoldable pub cap_string : List ℕ → ℕ → List ℕ × Bool
cap_string value cap = if ltb cap (length value) then (take cap value, true) else (value, false)

abbrev pub string_field : Fields → String → Option String
unfolding get_field
string_field fs key = elim (get_field fs key) [ some (str s) ↦ some s | _ ↦ none ]

abbrev pub object_field : Fields → String → Option Fields
unfolding get_field
object_field fs key = elim (get_field fs key) [ some (obj gs) ↦ some gs | _ ↦ none ]

-- `arrayBlocks`: the objects of an array.
unfoldable blocks_of : Items → List Fields
blocks_of nil = []
blocks_of (cons (obj fs) vs) = fs ∷ blocks_of vs
blocks_of (cons v vs) = blocks_of vs

unfoldable pub array_blocks : Option Json → List Fields
unfolding blocks_of
array_blocks (some (arr vs)) = blocks_of vs
array_blocks _ = []

-- `blockText`
unfoldable pub block_text : Fields → Option String
unfolding get_field
block_text fs = elim (get_field fs "text") [
  | some (str s) ↦ some s
  | _ ↦ elim (get_field fs "content") [ some (str s) ↦ some s | _ ↦ none ]
]

abbrev line_end : ℕ
line_end = 10

-- `parts.join("\n")`
unfoldable pub join_lines : List (List ℕ) → List ℕ
join_lines [] = []
join_lines (p ∷ []) = p
join_lines (p ∷ q ∷ ps) = p ++ line_end ∷ join_lines (q ∷ ps)

-- `pushTextPart`, at the end of the parts.
unfoldable push_text_part : Runtime → Option String → List (List ℕ) → List (List ℕ)
unfolding trim
push_text_part rt none parts = parts
push_text_part rt (some s) parts = elim (trim (rt.units s)) [
  | [] ↦ parts
  | c ∷ cs ↦ parts ++ (c ∷ cs) ∷ []
]

pub record OmittedCounts : Type 0 where
  pub images : ℕ
  pub documents : ℕ
  pub thoughts : ℕ
  pub fallbacks : ℕ
  pub others : ℕ

abbrev pub no_omitted : OmittedCounts
no_omitted = record { images = 0; documents = 0; thoughts = 0; fallbacks = 0; others = 0 }

unfoldable count_omitted : OmittedKind → OmittedCounts → OmittedCounts
count_omitted image c = record c { images = suc c.images }
count_omitted document c = record c { documents = suc c.documents }
count_omitted thinking c = record c { thoughts = suc c.thoughts }
count_omitted fallback c = record c { fallbacks = suc c.fallbacks }
count_omitted other c = record c { others = suc c.others }

abbrev if_any : OmittedKind → ℕ → List Omitted → List Omitted
if_any kind zero rest = rest
if_any kind (suc n) rest = record { kind = kind; count = suc n } ∷ rest

-- The kinds that occur, in the order of OMITTED_ORDER.
unfoldable omitted_list : OmittedCounts → List Omitted
omitted_list c = if_any image c.images (
    if_any document c.documents
      (if_any thinking c.thoughts (if_any fallback c.fallbacks (if_any other c.others []))))

abbrev pub any_of : Option String → List String → Bool
any_of none ts = false
any_of (some s) [] = false
any_of (some s) (t ∷ ts) = str_eq s t || any_of (some s) ts

unfoldable omitted_kind : Option String → OmittedKind
omitted_kind type =
    if any_of type ("image" ∷ "input_image" ∷ "image_url" ∷ [])
    then image
    else if any_of type ("document" ∷ "input_file" ∷ "file" ∷ [])
    then document
    else if any_of type ("thinking" ∷ "reasoning" ∷ [])
    then thinking
    else if any_of type ("fallback" ∷ [])
    then fallback
    else other

pub record TextExtraction : Type 0 where
  pub content : List ℕ
  pub content_truncated : Bool
  pub omitted : List Omitted

-- `capContent`
unfoldable pub cap_content : List ℕ → List Omitted → TextExtraction
unfolding cap_string
cap_content value omitted =
    let capped = cap_string value content_cap in
    record { content = capped.0; content_truncated = capped.1; omitted = omitted }

-- The loop over the blocks: those whose type is in `text_types` are parts, those in `skipped` are passed
-- over, and the others are counted.
unfoldable pub gather :
    Runtime
    → List String
    → List String
    → List Fields
    → List (List ℕ)
    → OmittedCounts
    → TextExtraction
unfolding push_text_part count_omitted cap_content join_lines omitted_list block_text omitted_kind
gather rt text_types skipped [] parts counts = cap_content (join_lines parts) (omitted_list counts)
gather rt text_types skipped (b ∷ bs) parts counts =
    let type = string_field b "type" in
    let is_text_part = any_of type text_types in
    gather rt text_types skipped bs
      (if is_text_part then push_text_part rt (block_text b) parts else parts)
      (if is_text_part || any_of type skipped
        then counts
        else count_omitted (omitted_kind type) counts)

unfoldable pub extract_claude_text : Runtime → Option Json → TextExtraction
unfolding gather cap_content trim array_blocks
extract_claude_text rt (some (str s)) = cap_content (trim (rt.units s)) []
extract_claude_text rt content =
    gather rt ("text" ∷ []) ("tool_use" ∷ "tool_result" ∷ []) (array_blocks content) [] no_omitted

unfoldable pub extract_codex_message_text : Runtime → Option Json → TextExtraction
unfolding gather cap_content trim array_blocks
extract_codex_message_text rt (some (str s)) = cap_content (trim (rt.units s)) []
extract_codex_message_text rt content =
    gather rt ("input_text" ∷ "output_text" ∷ "text" ∷ []) [] (array_blocks content) [] no_omitted

-- The text of one item of an array in `toolValueToString`: a text, or a block of text.
unfoldable item_text : Runtime → Json → Option (List ℕ)
unfolding block_text
item_text rt (str s) = some (rt.units s)
item_text rt (obj fs) =
    if any_of (string_field fs "type") ("text" ∷ "input_text" ∷ "output_text" ∷ [])
    then elim (block_text fs) [ some s ↦ some (rt.units s) | none ↦ none ]
    else none
item_text rt _ = none

unfoldable item_texts : Runtime → Items → List (List ℕ)
unfolding item_text
item_texts rt nil = []
item_texts rt (cons v vs) =
    let rest = item_texts rt vs in elim (item_text rt v) [ none ↦ rest | some t ↦ t ∷ rest ]

abbrev texts_or : List ℕ → List (List ℕ) → List ℕ
texts_or printed [] = printed
texts_or printed (t ∷ ts) = join_lines (t ∷ ts)

unfoldable pub tool_value_to_string : Runtime → Option Json → List ℕ
unfolding item_texts join_lines
tool_value_to_string rt none = []
tool_value_to_string rt (some null) = []
tool_value_to_string rt (some (str s)) = rt.units s
tool_value_to_string rt (some (arr vs)) = texts_or (rt.print (arr vs)) (item_texts rt vs)
tool_value_to_string rt (some v) = rt.print v

abbrev lower : Runtime → Option String → Option String
lower rt none = none
lower rt (some s) = some (rt.to_lower_case s)

abbrev is_failure : Option Json → Bool
is_failure (some (num (whole n))) = not (n == 0)
is_failure (some (num (minus n))) = true
is_failure _ = false

abbrev is_bool : Option Json → Bool → Bool
is_bool (some (bool true)) b = b
is_bool (some (bool false)) b = not b
is_bool _ b = false

unfoldable pub status_from_payload : Runtime → Fields → ToolStatus
unfolding get_field
status_from_payload rt fs =
    if is_bool (get_field fs "is_error") true || is_bool (get_field fs "success") false
    then error
    else if any_of (lower rt (string_field fs "status")) ("error" ∷ "failed" ∷ "failure" ∷ [])
    then error
    else if is_failure (get_field fs "exit_code")
    then error
    else ok

-- `isoFromUnknown`
unfoldable pub iso_from_unknown : Runtime → Option Json → Option String
iso_from_unknown rt (some (str s)) = rt.iso_time s
iso_from_unknown rt _ = none
