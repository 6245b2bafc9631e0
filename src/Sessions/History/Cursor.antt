-- ===== src/Sessions/History/Cursor.antt =====
-- The cursors of src/sessions/history.ts. JSON.parse and JSON.stringify on bytes are a parameter.
use hugin_agent.Prelude.{
  ℕ, ◌≤◌, ◌<◌, ◌≡◌, ◌≢◌, refl, true, not, ◌&&◌, Option, none, some, List, [], ◌∷◌, ltb, ◌==◌,
  if◌then◌else◌, length, arith,
}
use hugin_agent.Json.{Json, whole, num, obj, Fields, end, field, get_field}
use hugin_agent.Protocol.Version.{all_chars}
use hugin_agent.Protocol.Base64.{
  in_alphabet, encode, decode, Bytes, decode-encode, encode-in_alphabet,
}

-- `stringify` prints a value as the bytes of its text; `parse` fails with an exception, `none`.
pub record JsonText : Type 0 where
  pub stringify : Json → List ℕ
  pub parse : List ℕ → Option Json

-- `{ b: boundary, sig }`
abbrev pub cursor_fields : ℕ → ℕ → Fields
cursor_fields boundary sig = field "b" (num (whole boundary)) (field "sig" (num (whole sig)) end)

-- What the standard says of the two on such an object: printing gives bytes, at least one, and parsing
-- them gives the object back.
pub record Faithful (codec : JsonText) : Type 0 where
  pub printed : (b sig : ℕ) → Bytes (codec.stringify (obj (cursor_fields b sig)))
  pub not_empty : (b sig : ℕ) → codec.stringify (obj (cursor_fields b sig)) ≢ []
  pub parsed :
      (b sig : ℕ)
      → codec.parse (codec.stringify (obj (cursor_fields b sig))) ≡ some (obj (cursor_fields b sig))

unfoldable pub encode_history_cursor : JsonText → ℕ → ℕ → List ℕ
encode_history_cursor codec boundary sig =
    encode (codec.stringify (obj (cursor_fields boundary sig)))

abbrev natural : Option Json → Option ℕ
natural (some (num (whole n))) = some n
natural _ = none

-- `none` is a HistoryCursorError. A number that is no integer or is negative is refused either way.
unfoldable pub decode_history_cursor : JsonText → List ℕ → ℕ → ℕ → Option ℕ
unfolding get_field all_chars
decode_history_cursor codec cursor entry_count expected_sig =
    if not (ltb 0 (length cursor) && all_chars in_alphabet cursor)
    then none
    else elim (codec.parse (decode cursor)) [
      | some (obj fs) ↦ elim (natural (get_field fs "b")) [
        | none ↦ none
        | some b ↦ elim (natural (get_field fs "sig")) [
          | none ↦ none
          | some sig ↦
              if ltb entry_count b then none else if sig == expected_sig then some b else none
        ]
      ]
      | _ ↦ none
    ]

encode-not_empty : (xs : List ℕ) → xs ≢ [] → 0 < length (encode xs)
unfolding encode
encode-not_empty [] h = absurd (h refl)
encode-not_empty (x ∷ []) h = omega arith
encode-not_empty (x ∷ y ∷ []) h = omega arith
encode-not_empty (x ∷ y ∷ z ∷ rest) h = omega arith

-- A cursor that was handed out is read back as its boundary, for the same history with at least that
-- many entries, and refused for a history with another signature.
pub decode-encode_history_cursor :
    (codec : JsonText) (b sig entry_count other : ℕ)
    → Faithful codec
    → b ≤ entry_count
    → (decode_history_cursor codec (encode_history_cursor codec b sig) entry_count sig ≡ some b)
      × (other ≢ sig
          → decode_history_cursor codec (encode_history_cursor codec b sig) entry_count other
            ≡ none)
unfolding decode_history_cursor encode_history_cursor get_field
decode-encode_history_cursor codec b sig entry_count other faithful h =
    (ground (arith, facts), λ ne. ground (arith, facts))
  where
    text : List ℕ
    text = codec.stringify (obj (cursor_fields b sig))

    facts :
        (all_chars in_alphabet (encode text) ≡ true)
        × (0 < length (encode text))
        × (codec.parse (decode (encode text)) ≡ some (obj (cursor_fields b sig)))
    facts = (
      encode-in_alphabet text (faithful.printed b sig),
      encode-not_empty text (faithful.not_empty b sig),
      rw (decode-encode text (faithful.printed b sig)) (faithful.parsed b sig),
    )
