-- ===== src/Engine/Normalize/Kinds.antt =====
-- The kinds of the events that src/engine/normalize.ts makes.
pub mod Grammar
use hugin_agent.Prelude.{
  ℕ, String, Bool, true, false, ◌||◌, Option, none, some, List, [], ◌∷◌, ◌++◌, str_eq,
  if◌then◌else◌, codes, ◌≡◌, ◌≢◌, refl, ap, ◌∙◌, ltb, ◌<>◌, arith, Bool-cases, inl, inr, length,
}
use Prim.Native.Char.{code}
use Prim.Native.String.append
use mathlib.Core.Path.{subst, sym}
use hugin_agent.Protocol.Version.{all_chars}
use hugin_agent.Json.{Json, null, str, arr, obj, Items, nil, cons, Fields, end, field, get_field}
use hugin_agent.Conn.Outbound.{EngineEvent}
use hugin_agent.Jobs.Types.{EngineName, claude, codex}
use hugin_agent.Engine.EventKind.{in_grammar, after, in_vendor, any_of, core_kinds, is_event_kind}
use hugin_agent.Engine.Codex.{
  codex_event, normalize_codex_line, candidate_of, joined_types, string_value,
}
use hugin_agent.Engine.Normalize.{
  Runtime, sanitize, vendor_prefix, vendor_kind, assistant_block, user_block, each_block,
  assistant_content, user_content, claude_line, normalize_claude_line, or_unknown, block_type,
  vendor_block, assistant_event, user_event, with_usage, text_event, truthy, member, member?,
  other_line, type_suffix,
}
use Grammar.{
  codes-append, all_chars-append, sanitize-in_grammar, after-append, NotEmpty, sanitize-NotEmpty,
  in_vendor-some, or_unknown-NotEmpty, vendor_kind-in_vendor, or_middle, or_last,
  vendor_kind-is_event_kind,
}

-- Every event has a kind that the protocol admits.
abbrev pub AllKinds : List EngineEvent → Type 0
AllKinds [] = Unit
AllKinds (e ∷ es) = (is_event_kind e.kind ≡ true) × AllKinds es

AllKinds-append : (xs ys : List EngineEvent) → AllKinds xs → AllKinds ys → AllKinds (xs ++ ys)
AllKinds-append [] ys h k = k
AllKinds-append (x ∷ xs) ys h k = (h.0, AllKinds-append xs ys h.1 k)

core : (k : String) → any_of k core_kinds ≡ true → is_event_kind k ≡ true
unfolding is_event_kind
core k h = rw h refl

HasKind : EngineEvent → Type 0
HasKind e = is_event_kind e.kind ≡ true

SomeKind : Option EngineEvent → Type 0
SomeKind none = Unit
SomeKind (some e) = HasKind e

some_kind :
    (kind : String) (fields : Fields)
    → is_event_kind kind ≡ true
    → SomeKind (some (record { kind = kind; fields = fields }))
unfolding SomeKind HasKind
some_kind kind fields h = h

SomeKinds : Option (List EngineEvent) → Type 0
SomeKinds none = Unit
SomeKinds (some es) = AllKinds es

one : (e : EngineEvent) → HasKind e → SomeKinds (some (e ∷ []))
unfolding SomeKinds HasKind
one e h = (h, tt)

kind_of :
    (kind : String) (fields : Fields)
    → is_event_kind kind ≡ true
    → HasKind (record { kind = kind; fields = fields })
unfolding HasKind
kind_of kind fields h = h

if_intro {ℓ} :
    {A : Type 0} (P : A → Type ℓ) (b : Bool) (x y : A) → P x → P y → P (if b then x else y)
if_intro P true x y h k = h
if_intro P false x y h k = k

with_usage-kinds :
    (usage : Option Json) (r : Option (List EngineEvent))
    → SomeKinds r
    → SomeKinds (with_usage usage r)
unfolding SomeKinds
with_usage-kinds usage none h = tt
with_usage-kinds usage (some es) h =
    if_intro AllKinds (truthy usage) _ es (AllKinds-append es _ h (core "usage" refl, tt)) h

each_block-kinds :
    (f : Json → Option EngineEvent)
    → ((b : Json) → SomeKind (f b))
    → (vs : Items) → SomeKinds (each_block f vs)
unfolding each_block SomeKinds SomeKind HasKind
each_block-kinds f ok nil = tt
each_block-kinds f ok (cons b bs) = join (f b) (each_block f bs) (ok b) (each_block-kinds f ok bs)
  where
    join :
        (o : Option EngineEvent) (r : Option (List EngineEvent))
        → SomeKind o
        → SomeKinds r
        → SomeKinds
            (elim o [ none ↦ none | some e ↦ elim r [ none ↦ none | some es ↦ some (e ∷ es) ] ])
    join none r h k = tt
    join (some e) none h k = tt
    join (some e) (some es) h k = (h, k)

module _ (rt : Runtime) (keeps : (s : String) → NotEmpty s → NotEmpty (rt.to_lower_case s)) where
  vendor :
      (engine : EngineName) (suffix : String) → is_event_kind (vendor_kind rt engine suffix) ≡ true
  vendor engine suffix = vendor_kind-is_event_kind rt engine suffix keeps

  vendor_block-kind :
      (prefix : String) (b : Json) (o : Option String) → SomeKind (vendor_block rt prefix b o)
  unfolding vendor_block
  vendor_block-kind prefix b none = unfold SomeKind in tt
  vendor_block-kind prefix b (some text) =
      some_kind _ (field "block" b end) (vendor claude (prefix <> text))

  assistant_event-kind : (b : Json) → SomeKind (assistant_event rt b)
  unfolding assistant_event
  assistant_event-kind b = if_intro SomeKind _ _ _ (some_kind _ _ (core "assistant_text" refl)) (
      if_intro SomeKind _ _ _ (some_kind _ _ (core "tool_use" refl))
        (vendor_block-kind "assistant_" b (block_type rt b)))

  user_event-kind : (b : Json) → SomeKind (user_event rt b)
  unfolding user_event
  user_event-kind b =
      if_intro SomeKind _ _ _ (some_kind _ _ (core "tool_result" refl))
        (vendor_block-kind "user_" b (block_type rt b))

  assistant_block-kind : (b : Json) → SomeKind (assistant_block rt b)
  unfolding assistant_block
  assistant_block-kind null = unfold SomeKind in tt
  assistant_block-kind b = assistant_event-kind b

  user_block-kind : (b : Json) → SomeKind (user_block rt b)
  unfolding user_block
  user_block-kind null = unfold SomeKind in tt
  user_block-kind b = user_event-kind b

  assistant_content-kinds : (o : Option Json) → SomeKinds (assistant_content rt o)
  unfolding assistant_content SomeKinds
  assistant_content-kinds (some (arr vs)) =
      each_block-kinds (assistant_block rt) assistant_block-kind vs
  assistant_content-kinds (some (str s)) =
      one (text_event s) (kind_of _ (field "text" (str s) end) (core "assistant_text" refl))
  assistant_content-kinds _ = tt

  user_content-kinds : (o : Option Json) → SomeKinds (user_content rt o)
  unfolding user_content SomeKinds
  user_content-kinds (some (arr vs)) = each_block-kinds (user_block rt) user_block-kind vs
  user_content-kinds _ = tt

  other_line-kinds : (line : Json) (o : Option String) → SomeKinds (other_line rt line o)
  unfolding SomeKinds
  other_line-kinds line none = tt
  other_line-kinds line (some suffix) =
      one _ (kind_of _ (field "raw" line end) (vendor claude suffix))

  claude_line-kinds : (line : Json) → SomeKinds (claude_line rt line)
  unfolding claude_line
  claude_line-kinds line =
      if_intro SomeKinds _ _ _ (one _ (kind_of _ _ (core "system_status" refl))) (
        if_intro SomeKinds _ _ _
          (with_usage-kinds (member? (member line "message") "usage") _
            (assistant_content-kinds (member? (member line "message") "content")))
          (if_intro SomeKinds _ _ _ (user_content-kinds (member? (member line "message") "content"))
            (if_intro SomeKinds _ _ _ (one _ (kind_of _ _ (core "usage" refl)))
              (other_line-kinds line (type_suffix (member line "type"))))))

  claude-kinds : (line : Json) → SomeKinds (normalize_claude_line rt line)
  unfolding normalize_claude_line SomeKinds
  claude-kinds (obj fs) = claude_line-kinds (obj fs)
  claude-kinds (arr vs) = claude_line-kinds (arr vs)
  claude-kinds _ = tt

  codex_event-kind : (line item : Fields) → HasKind (codex_event rt line item)
  unfolding codex_event
  codex_event-kind line item =
      let types =
        joined_types (string_value (get_field line "type"))
          (string_value (get_field item "type")) in
      if_intro HasKind _ _ _ (kind_of _ _ (core "assistant_text" refl)) (
        if_intro HasKind _ _ _ (kind_of _ _ (core "tool_use" refl)) (
          if_intro HasKind _ _ _ (kind_of _ _ (core "tool_result" refl)) (
            if_intro HasKind _ _ _ (kind_of _ _ (core "usage" refl))
              (kind_of _ (field "raw" (obj line) end) (vendor codex types)))))

  codex-kinds : (line : Json) → AllKinds (normalize_codex_line rt line)
  unfolding normalize_codex_line HasKind
  codex-kinds (obj fs) = (codex_event-kind fs (candidate_of fs), tt)
  codex-kinds _ = tt

  -- Whatever an engine prints, every event that its line becomes has a kind that the protocol admits, so no
  -- `stream.event` is refused for its kind. Lower case makes no text empty.
  pub normalized_kinds :
      (line : Json)
      → ((es : List EngineEvent) → normalize_claude_line rt line ≡ some es → AllKinds es)
        × AllKinds (normalize_codex_line rt line)
  unfolding SomeKinds
  normalized_kinds line = (λ es h. subst SomeKinds h (claude-kinds line), codex-kinds line)
