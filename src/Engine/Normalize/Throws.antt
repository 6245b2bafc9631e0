-- ===== src/Engine/Normalize/Throws.antt =====
-- The lines on which `normalizeClaudeLine` of src/engine/normalize.ts throws.
use hugin_agent.Prelude.{
  String, Bool, true, false, not, ◌&&◌, ◌||◌, Option, none, some, List, if◌then◌else◌, ◌≡◌, refl,
  ◌∙◌, arith, eq_iff, is_some,
}
use hugin_agent.Json.{Json, null, num, str, arr, obj, minus, Items, nil, cons}
use hugin_agent.Conn.Outbound.{EngineEvent}
use hugin_agent.Engine.Normalize.{
  Runtime, block_type, vendor_block, is_text_block, assistant_event, user_event, assistant_block,
  user_block, each_block, assistant_content, user_content, with_usage, type_suffix, other_line,
  claude_line, normalize_claude_line, member, member?, is_text, is_string, truthy,
}

-- A block whose type is none of those that are known is printed by its type; some values are not printable.
abbrev pub unprintable : Runtime → Json → Bool
unfolding block_type
unprintable rt b = not (is_some (block_type rt b))

abbrev pub bad_assistant : Runtime → Json → Bool
bad_assistant rt null = true
bad_assistant rt b =
    not (is_text_block b || is_text (member b "type") "tool_use") && unprintable rt b

abbrev pub bad_user : Runtime → Json → Bool
bad_user rt null = true
bad_user rt b = not (is_text (member b "type") "tool_result") && unprintable rt b

unfoldable pub any_bad : (Json → Bool) → Items → Bool
any_bad bad nil = false
any_bad bad (cons b bs) = bad b || any_bad bad bs

abbrev pub bad_content : (Json → Bool) → Option Json → Bool
unfolding any_bad
bad_content bad (some (arr vs)) = any_bad bad vs
bad_content bad _ = false

-- A message of the assistant or the user with a block that is null, or of an unknown type that is not
-- printable; or a line of a type that is neither a text nor absent nor false in a test.
abbrev pub malformed : Runtime → Json → Bool
malformed rt line =
    let type = member line "type" in
    let content = member? (member line "message") "content" in
    if is_text type "assistant"
    then bad_content (bad_assistant rt) content
    else if is_text type "user"
    then bad_content (bad_user rt) content
    else truthy type && not (is_string type)

abbrev pub is_line : Json → Bool
is_line (obj fs) = true
is_line (arr vs) = true
is_line _ = false

each_block-throws :
    (f : Json → Option EngineEvent) (bad : Json → Bool)
    → ((b : Json) → is_some (f b) ≡ not (bad b))
    → (vs : Items) → is_some (each_block f vs) ≡ not (any_bad bad vs)
unfolding each_block any_bad
each_block-throws f bad ok nil = refl
each_block-throws f bad ok (cons b bs) = ground (arith, ok b, each_block-throws f bad ok bs)

vendor_block-throws :
    (rt : Runtime) (prefix : String) (b : Json) (o : Option String)
    → is_some (vendor_block rt prefix b o) ≡ is_some o
unfolding vendor_block
vendor_block-throws rt prefix b none = refl
vendor_block-throws rt prefix b (some text) = refl

assistant_block-throws :
    (rt : Runtime) (b : Json) → is_some (assistant_block rt b) ≡ not (bad_assistant rt b)
unfolding assistant_block assistant_event block_type
assistant_block-throws rt null = refl
assistant_block-throws rt b =
    ground (arith, vendor_block-throws rt "assistant_" b (block_type rt b))

user_block-throws : (rt : Runtime) (b : Json) → is_some (user_block rt b) ≡ not (bad_user rt b)
unfolding user_block user_event block_type
user_block-throws rt null = refl
user_block-throws rt b = ground (arith, vendor_block-throws rt "user_" b (block_type rt b))

assistant_content-throws :
    (rt : Runtime) (o : Option Json)
    → is_some (assistant_content rt o) ≡ not (bad_content (bad_assistant rt) o)
unfolding assistant_content bad_content
assistant_content-throws rt (some (arr vs)) =
    each_block-throws (assistant_block rt) (bad_assistant rt) (assistant_block-throws rt) vs
assistant_content-throws rt _ = refl

user_content-throws :
    (rt : Runtime) (o : Option Json)
    → is_some (user_content rt o) ≡ not (bad_content (bad_user rt) o)
unfolding user_content bad_content
user_content-throws rt (some (arr vs)) =
    each_block-throws (user_block rt) (bad_user rt) (user_block-throws rt) vs
user_content-throws rt _ = refl

type_suffix-throws :
    (o : Option Json) → is_some (type_suffix o) ≡ not (truthy o && not (is_string o))
unfolding type_suffix
type_suffix-throws (some (num (minus n))) = refl
type_suffix-throws o = ground arith

with_usage-throws :
    (usage : Option Json) (r : Option (List EngineEvent)) → is_some (with_usage usage r) ≡ is_some r
with_usage-throws usage none = refl
with_usage-throws usage (some es) = refl

other_line-throws :
    (rt : Runtime) (line : Json) (o : Option String) → is_some (other_line rt line o) ≡ is_some o
other_line-throws rt line none = refl
other_line-throws rt line (some s) = refl

-- A choice among five, against a choice among the second, the third and the last.
choose_by :
    {A : Type 0} (P : A → Bool) (x y z w : Bool) (a b c d e : A) (bad bad' other : Bool)
    → (x ≡ true → (y || z) ≡ false)
    → ((x || w) ≡ true → other ≡ false)
    → P a ≡ true
    → P b ≡ not bad
    → P c ≡ not bad'
    → P d ≡ true
    → P e ≡ not other
    → P (if x then a else if y then b else if z then c else if w then d else e)
      ≡ not (if y then bad else if z then bad' else other)
choose_by P true true z w a b c d e bad bad' other apart free ha hb hc hd he =
    absurd (ground (arith, apart refl))
choose_by P true false true w a b c d e bad bad' other apart free ha hb hc hd he =
    absurd (ground (arith, apart refl))
choose_by P true false false w a b c d e bad bad' other apart free ha hb hc hd he =
    rw (free refl) ha
choose_by P false true z w a b c d e bad bad' other apart free ha hb hc hd he = hb
choose_by P false false true w a b c d e bad bad' other apart free ha hb hc hd he = hc
choose_by P false false false true a b c d e bad bad' other apart free ha hb hc hd he =
    rw (free refl) hd
choose_by P false false false false a b c d e bad bad' other apart free ha hb hc hd he = he

system_apart :
    (o : Option Json)
    → is_text o "system" ≡ true
    → (is_text o "assistant" || is_text o "user") ≡ false
system_apart (some (str s)) h = rw ((eq_iff s "system").0 h) refl
system_apart none h = absurd (ground arith)
system_apart (some v) h = ground arith

text_is_string :
    (o : Option Json) (s t : String)
    → (is_text o s || is_text o t) ≡ true
    → (truthy o && not (is_string o)) ≡ false
text_is_string o s t h = ground arith

module _ (rt : Runtime) where
  claude_line-throws : (line : Json) → is_some (claude_line rt line) ≡ not (malformed rt line)
  unfolding claude_line
  claude_line-throws line =
      let content = member? (member line "message") "content" in
      let type = member line "type" in
      choose_by is_some (is_text type "system") (is_text type "assistant") (is_text type "user")
        (is_text type "result") _ _ _ _ _ (bad_content (bad_assistant rt) content)
        (bad_content (bad_user rt) content) (truthy type && not (is_string type))
        (system_apart type) (text_is_string type "system" "result") refl
        (with_usage-throws (member? (member line "message") "usage") (assistant_content rt content)
          ∙ assistant_content-throws rt content)
        (user_content-throws rt content) refl
        (other_line-throws rt line (type_suffix type) ∙ type_suffix-throws type)

  -- A line of Claude's output makes `normalizeClaudeLine` throw exactly when it is malformed in one of three
  -- ways: a null among the blocks of a message; among these, a block of an unknown type that a template
  -- literal cannot print; or a `type` of the line that is true, a number other than 0, an array or an object.
  -- On every other line it returns.
  pub normalize_claude_line-throws_iff :
      (line : Json)
      → is_some (normalize_claude_line rt line) ≡ not (is_line line && malformed rt line)
  unfolding normalize_claude_line
  normalize_claude_line-throws_iff (obj fs) = claude_line-throws (obj fs)
  normalize_claude_line-throws_iff (arr vs) = claude_line-throws (arr vs)
  normalize_claude_line-throws_iff _ = refl
