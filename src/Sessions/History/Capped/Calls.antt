-- ===== src/Sessions/History/Capped/Calls.antt =====
-- The caps on the texts and the calls of an entry of src/sessions/history.ts.
use hugin_agent.Prelude.{
  ℕ, zero, suc, ◌≤◌, ◌≡◌, refl, String, true, Option, none, some, List, [], ◌∷◌, ◌++◌, ltb, length,
  take, length-take, Bool-cases, inl, inr, arith,
}
use hugin_agent.Json.{Json, str, Fields}
use hugin_agent.Sessions.History.Bound.{HistoryEntry, SessionToolCall}
use hugin_agent.Sessions.History.Texts.{
  Runtime, content_cap, tool_io_cap, page_max, cap_string, cap_content, TextExtraction,
  OmittedCounts, gather, extract_claude_text, extract_codex_message_text, array_blocks, no_omitted,
  tool_value_to_string,
}
use hugin_agent.Sessions.History.ToolCalls.{
  ToolResult, ToolEnrichment, optional_text, with_result, build_tool_call, combined_tool_result,
  synthetic_codex_tool_call,
}

abbrev pub AllOf {ℓ} : {A : Type ℓ} → (A → Type 0) → List A → Type 0
AllOf P [] = Unit
AllOf P (x ∷ xs) = P x × AllOf P xs

pub AllOf-append {ℓ} :
    {A : Type ℓ} (P : A → Type 0) (xs ys : List A) → AllOf P xs → AllOf P ys → AllOf P (xs ++ ys)
AllOf-append P [] ys h k = k
AllOf-append P (x ∷ xs) ys h k = (h.0, AllOf-append P xs ys h.1 k)

pub AllOf-take {ℓ} :
    {A : Type ℓ} (P : A → Type 0) (n : ℕ) (xs : List A) → AllOf P xs → AllOf P (take n xs)
AllOf-take P zero xs h = tt
AllOf-take P (suc n) [] h = tt
AllOf-take P (suc n) (x ∷ xs) h = (h.0, AllOf-take P n xs h.1)

abbrev size_of : Option (List ℕ) → ℕ
size_of none = 0
size_of (some t) = length t

-- Its input and output are at most 8192 units long, and one that is marked as truncated just that long.
pub record CappedCall (c : SessionToolCall) : Type 0 where
  pub input_short : size_of c.input ≤ tool_io_cap
  pub input_cut : c.input_truncated ≡ true → size_of c.input ≡ tool_io_cap
  pub output_short : size_of c.output ≤ tool_io_cap
  pub output_cut : c.output_truncated ≡ true → size_of c.output ≡ tool_io_cap

-- Its text is at most 16384 units long, and one that is marked as truncated just that long; it has at most
-- 256 calls, which are capped too.
pub record Capped (e : HistoryEntry) : Type 0 where
  pub content_short : length e.content ≤ content_cap
  pub content_cut : e.content_truncated ≡ true → length e.content ≡ content_cap
  pub few_calls : length e.tool_calls ≤ page_max
  pub calls : AllOf CappedCall e.tool_calls

cap_string-short :
    (value : List ℕ) (cap : ℕ)
    → (length (cap_string value cap).0 ≤ cap)
      × ((cap_string value cap).1 ≡ true → length (cap_string value cap).0 ≡ cap)
unfolding cap_string
cap_string-short value cap = elim (Bool-cases (ltb cap (length value))) [
  | inl e ↦ rw e (ground (arith, length-take cap value), λ h. ground (arith, length-take cap value))
  | inr e ↦ rw e (ground arith, λ h. absurd (ground arith))
]

size_of-optional_text : (t : List ℕ) → size_of (optional_text t) ≡ length t
size_of-optional_text [] = refl
size_of-optional_text (c ∷ cs) = refl

with_result-CappedCall :
    (c : SessionToolCall) (r : Option ToolResult) → CappedCall c → CappedCall (with_result c r)
with_result-CappedCall c none h = h
with_result-CappedCall c (some r) h =
    let short = cap_string-short r.output tool_io_cap in
    let size = size_of-optional_text (cap_string r.output tool_io_cap).0 in
    record {
      input_short = h.input_short;
      input_cut = h.input_cut;
      output_short = rw size short.0;
      output_cut = λ t. rw size (short.1 t);
    }

pub build_tool_call-CappedCall :
    (rt : Runtime) (id name : String) (v : Option Json) (r : Option ToolResult)
    (es : List ToolEnrichment)
    → CappedCall (build_tool_call rt id name v r es)
unfolding build_tool_call
build_tool_call-CappedCall rt id name v r es =
    let value = tool_value_to_string rt v in
    let short = cap_string-short value tool_io_cap in
    let size = size_of-optional_text (cap_string value tool_io_cap).0 in
    with_result-CappedCall _ (combined_tool_result r es) (record {
      input_short = rw size short.0;
      input_cut = λ t. rw size (short.1 t);
      output_short = omega arith;
      output_cut = λ t. absurd (ground arith);
    })

pub synthetic-CappedCall :
    (rt : Runtime) (e : ToolEnrichment) → CappedCall (synthetic_codex_tool_call rt e)
unfolding synthetic_codex_tool_call
synthetic-CappedCall rt e =
    let short = cap_string-short e.output tool_io_cap in
    let size = size_of-optional_text (cap_string e.output tool_io_cap).0 in
    record {
      input_short = omega arith;
      input_cut = λ t. absurd (ground arith);
      output_short = rw size short.0;
      output_cut = λ t. rw size (short.1 t);
    }

-- The caps on the text.
abbrev CappedText : TextExtraction → Type 0
CappedText t =
    (length t.content ≤ content_cap) × (t.content_truncated ≡ true → length t.content ≡ content_cap)

gather-CappedText :
    (rt : Runtime) (types skipped : List String) (bs : List Fields) (parts : List (List ℕ))
    (counts : OmittedCounts)
    → CappedText (gather rt types skipped bs parts counts)
unfolding gather cap_content
gather-CappedText rt types skipped [] parts counts = cap_string-short _ content_cap
gather-CappedText rt types skipped (b ∷ bs) parts counts = gather-CappedText rt types skipped bs _ _

pub extract_claude_text-CappedText :
    (rt : Runtime) (o : Option Json) → CappedText (extract_claude_text rt o)
unfolding extract_claude_text cap_content
extract_claude_text-CappedText rt (some (str s)) = cap_string-short _ content_cap
extract_claude_text-CappedText rt o =
    gather-CappedText rt ("text" ∷ []) ("tool_use" ∷ "tool_result" ∷ []) (array_blocks o) []
      no_omitted

pub extract_codex-CappedText :
    (rt : Runtime) (o : Option Json) → CappedText (extract_codex_message_text rt o)
unfolding extract_codex_message_text cap_content
extract_codex-CappedText rt (some (str s)) = cap_string-short _ content_cap
extract_codex-CappedText rt o =
    gather-CappedText rt ("input_text" ∷ "output_text" ∷ "text" ∷ []) [] (array_blocks o) []
      no_omitted
