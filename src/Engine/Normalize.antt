-- ===== src/Engine/Normalize.antt =====
-- The events that an engine's output becomes: src/engine/normalize.ts, and the kinds of events of
-- protocol/v1/messages.ts. A result `none` is a TypeError that is thrown.
pub mod Kinds
pub mod Throws
use hugin_agent.Prelude.{
  ℕ, String, Bool, true, false, not, ◌&&◌, ◌||◌, Option, none, some, List, [], ◌∷◌, ◌++◌, ltb, leb,
  ◌==◌, str_eq, if◌then◌else◌, ◌<>◌, or_else, is_some, codes,
}
use Prim.Native.Char.{code}
use hugin_agent.Json.{
  Json, null, bool, num, str, arr, obj, whole, Items, nil, cons, Fields, end, field, get_field,
  as_object, as_string, item_list,
}
use hugin_agent.Engine.EventKind.{in_grammar}
use hugin_agent.Conn.Outbound.{EngineEvent}
use hugin_agent.Jobs.Types.{EngineName, claude, codex}

-- `toLowerCase`, and the text that a template literal prints for a value: none where it throws, as on an
-- object whose `toString` is no function.
pub record Runtime : Type 0 where
  pub to_lower_case : String → String
  pub text_of : Json → Option String

-- `replace(/[^a-z0-9_.]/g, "_")`: a code point beyond the basic plane is two units.
unfoldable pub sanitize : String → String
unfolding in_grammar
sanitize String.[] = ""
sanitize (String.◌∷◌ c s) =
    let rest = sanitize s in
    if in_grammar (code c)
    then String.◌∷◌ c rest
    else if ltb (code c) 65536
    then "_" <> rest
    else "__" <> rest

abbrev pub or_unknown : String → String
or_unknown s = if str_eq s "" then "unknown" else s

abbrev pub vendor_prefix : EngineName → String
vendor_prefix claude = "vendor.claude."
vendor_prefix codex = "vendor.codex."

unfoldable pub vendor_kind : Runtime → EngineName → String → String
unfolding sanitize
vendor_kind rt engine suffix =
    vendor_prefix engine <> sanitize (rt.to_lower_case (or_unknown suffix))

-- `value?.[key]`; the keys in use are those of no text, number or array.
abbrev pub member : Json → String → Option Json
member (obj fs) key = get_field fs key
member _ key = none

abbrev pub member? : Option Json → String → Option Json
member? none key = none
member? (some v) key = member v key

-- `a ?? b`
abbrev pub coalesce : Option Json → Option Json → Option Json
coalesce none b = b
coalesce (some null) b = b
coalesce (some v) b = some v

abbrev pub is_text : Option Json → String → Bool
is_text (some (str s)) t = str_eq s t
is_text _ t = false

abbrev pub is_string : Option Json → Bool
is_string (some (str s)) = true
is_string _ = false

abbrev pub truthy : Option Json → Bool
truthy none = false
truthy (some null) = false
truthy (some (bool b)) = b
truthy (some (num (whole n))) = not (n == 0)
truthy (some (num n)) = true
truthy (some (str s)) = not (str_eq s "")
truthy (some (arr vs)) = true
truthy (some (obj fs)) = true

-- A field whose value may be `undefined`.
abbrev pub opt_field : String → Option Json → Fields → Fields
opt_field key none rest = rest
opt_field key (some v) rest = field key v rest

abbrev event : String → Fields → EngineEvent
event kind fields = record { kind = kind; fields = fields }

abbrev pub text_event : String → EngineEvent
text_event text = event "assistant_text" (field "text" (str text) end)

abbrev false_json : Option Json
false_json = some (bool false)

-- What the template `${name}_${b.type ?? "block"}` prints of the block.
unfoldable pub block_type : Runtime → Json → Option String
block_type rt b = rt.text_of (or_else (coalesce (member b "type") none) (str "block"))

unfoldable pub vendor_block : Runtime → String → Json → Option String → Option EngineEvent
unfolding vendor_kind
vendor_block rt prefix b none = none
vendor_block rt prefix b (some text) =
    some (event (vendor_kind rt claude (prefix <> text)) (field "block" b end))

abbrev pub is_text_block : Json → Bool
is_text_block b = is_text (member b "type") "text" && is_string (member b "text")

unfoldable pub assistant_event : Runtime → Json → Option EngineEvent
unfolding vendor_block block_type get_field
assistant_event rt b =
    if is_text_block b
    then some (event "assistant_text" (opt_field "text" (member b "text") end))
    else if is_text (member b "type") "tool_use"
    then some (
        event "tool_use" (
          opt_field "tool_name" (member b "name")
            (opt_field "tool_use_id" (member b "id") (opt_field "input" (member b "input") end))))
    else vendor_block rt "assistant_" b (block_type rt b)

-- `b.type` throws on null.
unfoldable pub assistant_block : Runtime → Json → Option EngineEvent
unfolding assistant_event
assistant_block rt null = none
assistant_block rt b = assistant_event rt b

unfoldable pub user_event : Runtime → Json → Option EngineEvent
unfolding vendor_block block_type get_field
user_event rt b =
    if is_text (member b "type") "tool_result"
    then some (
        event "tool_result" (
          opt_field "tool_use_id" (member b "tool_use_id") (
            opt_field "is_error" (coalesce (member b "is_error") false_json)
              (opt_field "content" (member b "content") end))))
    else vendor_block rt "user_" b (block_type rt b)

-- `b.type` throws on null.
unfoldable pub user_block : Runtime → Json → Option EngineEvent
unfolding user_event
user_block rt null = none
user_block rt b = user_event rt b

-- `for (const b of content) events.push(...)`
unfoldable pub each_block : (Json → Option EngineEvent) → Items → Option (List EngineEvent)
each_block f nil = some []
each_block f (cons b bs) =
    let rest = each_block f bs in
    elim (f b) [ none ↦ none | some e ↦ elim rest [ none ↦ none | some es ↦ some (e ∷ es) ] ]

unfoldable pub assistant_content : Runtime → Option Json → Option (List EngineEvent)
unfolding each_block assistant_block
assistant_content rt (some (arr vs)) = each_block (assistant_block rt) vs
assistant_content rt (some (str s)) = some (text_event s ∷ [])
assistant_content rt _ = some []

unfoldable pub user_content : Runtime → Option Json → Option (List EngineEvent)
unfolding each_block user_block
user_content rt (some (arr vs)) = each_block (user_block rt) vs
user_content rt _ = some []

-- `if (usage) events.push(...)`
abbrev pub with_usage : Option Json → Option (List EngineEvent) → Option (List EngineEvent)
with_usage usage none = none
with_usage usage (some es) =
    some (if truthy usage then es ++ event "usage" (opt_field "usage" usage end) ∷ [] else es)

-- `(line.type ?? "unknown") || "unknown"` where a text is wanted: another value has no `toLowerCase`.
unfoldable pub type_suffix : Option Json → Option String
type_suffix none = some "unknown"
type_suffix (some null) = some "unknown"
type_suffix (some (str s)) = some s
type_suffix (some v) = if truthy (some v) then none else some "unknown"

abbrev pub other_line : Runtime → Json → Option String → Option (List EngineEvent)
other_line rt line none = none
other_line rt line (some suffix) =
    some (event (vendor_kind rt claude suffix) (field "raw" line end) ∷ [])

-- An object or an array.
unfoldable pub claude_line : Runtime → Json → Option (List EngineEvent)
unfolding get_field assistant_content user_content type_suffix vendor_kind
claude_line rt line =
    let type = member line "type" in
    let message = member line "message" in
    if is_text type "system"
    then some (
        event "system_status"
          (opt_field "subtype" (coalesce (member line "subtype") (some (str "system"))) end)
        ∷ [])
    else if is_text type "assistant"
    then with_usage (member? message "usage") (assistant_content rt (member? message "content"))
    else if is_text type "user"
    then user_content rt (member? message "content")
    else if is_text type "result"
    then some (
        event "usage" (
          opt_field "subtype" (member line "subtype") (
            opt_field "usage" (member line "usage") (
              opt_field "cost_usd" (member line "total_cost_usd") (
                opt_field "duration_ms" (member line "duration_ms")
                  (opt_field "is_error" (coalesce (member line "is_error") false_json) end)))))
        ∷ [])
    else other_line rt line (type_suffix type)

unfoldable pub normalize_claude_line : Runtime → Json → Option (List EngineEvent)
unfolding claude_line
normalize_claude_line rt (obj fs) = claude_line rt (obj fs)
normalize_claude_line rt (arr vs) = claude_line rt (arr vs)
normalize_claude_line rt _ = some []
