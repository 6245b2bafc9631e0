-- ===== src/Engine/EventKind.antt =====
-- The kinds of events that the protocol admits: `EventKind` of protocol/v1/messages.ts.
use hugin_agent.Prelude.{
  ℕ, String, Bool, false, ◌&&◌, ◌||◌, Option, none, some, List, [], ◌∷◌, leb, ◌==◌, str_eq,
  if◌then◌else◌, codes,
}
use hugin_agent.Protocol.Version.{all_chars}

-- `[a-z0-9_.]`
unfoldable pub in_grammar : ℕ → Bool
in_grammar c = (leb b'a' c && leb c b'z') || (leb b'0' c && leb c b'9') || c == b'_' || c == b'.'

-- What follows a prefix.
unfoldable pub after : List ℕ → List ℕ → Option (List ℕ)
after [] s = some s
after (p ∷ ps) [] = none
after (p ∷ ps) (c ∷ cs) = let rest = after ps cs in if p == c then rest else none

unfoldable pub in_vendor : Option (List ℕ) → Bool
unfolding in_grammar all_chars
in_vendor none = false
in_vendor (some []) = false
in_vendor (some (c ∷ cs)) = all_chars in_grammar (c ∷ cs)

abbrev pub core_kinds : List String
core_kinds =
    "assistant_text" ∷ "tool_use" ∷ "tool_result" ∷ "usage" ∷ "stdout_chunk" ∷ "stderr_chunk"
    ∷ "system_status" ∷ "engine_error" ∷ []

abbrev pub any_of : String → List String → Bool
any_of s [] = false
any_of s (t ∷ ts) = str_eq s t || any_of s ts

unfoldable pub is_event_kind : String → Bool
unfolding after in_vendor
is_event_kind kind =
    any_of kind core_kinds
    || in_vendor (after (codes "vendor.claude.") (codes kind))
    || in_vendor (after (codes "vendor.codex.") (codes kind))
