-- ===== src/Tests/Protocol.antt =====
-- Runs of protocol/v1: version negotiation, the coding of secrets and the signed transcripts.
use hugin_agent.Prelude.{
  ℕ, zero, suc, if◌then◌else◌, ◌≡◌, refl, true, false, some, List, [], ◌∷◌, codes, arith,
}
use hugin_agent.Protocol.Version.{
  codes_eq, is_sem_ver, version_part, pre_part, all_chars, major_of, pre_of, until_char, ok,
  negotiate_version,
}
use hugin_agent.Protocol.Negotiation.{
  marked_prerelease, Elem, negotiate_version_sound, dash_prerelease_is_stable,
}
use hugin_agent.Protocol.Base64.{
  Bytes, decode, encode, validate_b64u32, validate_b64u32_canonical, symbol, sextet,
}
use hugin_agent.Protocol.Transcript.{
  TranscriptFields, PairingTranscriptFields, build_pairing_transcript, pairing_bytes,
}
use hugin_agent.Protocol.Signing.{
  FieldsFit, PairingFieldsFit, build_transcript_injective, build_pairing_transcript_injective,
}
use hugin_agent.Store.Rows.{find}

agreed : negotiate_version (codes "1.2.0") (codes "2.0.0" ∷ codes "1.0.0" ∷ []) ≡ ok (codes "1.0.0")
unfolding negotiate_version is_sem_ver version_part pre_part all_chars major_of pre_of until_char
    codes_eq find
agreed = refl

negotiate_version_sound_example :
    Elem (codes "1.0.0") (codes "2.0.0" ∷ codes "1.0.0" ∷ [])
    × (is_sem_ver (codes "1.2.0") ≡ true)
    × (is_sem_ver (codes "1.0.0") ≡ true)
    × (if marked_prerelease (codes "1.2.0")
        then codes "1.0.0" ≡ codes "1.2.0"
        else (marked_prerelease (codes "1.0.0") ≡ false)
          × (major_of (codes "1.0.0") ≡ major_of (codes "1.2.0")))
negotiate_version_sound_example =
    negotiate_version_sound (codes "1.2.0") (codes "2.0.0" ∷ codes "1.0.0" ∷ []) (codes "1.0.0")
      agreed

dash_prerelease_is_stable_example :
    negotiate_version (codes "1.0.0--rc") (codes "1.9.0" ∷ []) ≡ ok (codes "1.9.0")
unfolding is_sem_ver version_part pre_part all_chars major_of pre_of until_char
dash_prerelease_is_stable_example =
    dash_prerelease_is_stable (codes "1.0.0") (codes "rc") (codes "1.9.0") refl refl refl refl refl

abbrev zeros : ℕ → List ℕ
zeros zero = []
zeros (suc n) = 0 ∷ zeros n

abbrev secret_bytes : List ℕ
secret_bytes = 255 ∷ 128 ∷ zeros 30

zeros-Bytes : (n : ℕ) → Bytes (zeros n)
zeros-Bytes zero = tt
zeros-Bytes (suc n) = (omega arith, zeros-Bytes n)

secret_bytes-Bytes : Bytes secret_bytes
secret_bytes-Bytes = (omega arith, (omega arith, zeros-Bytes 30))

validate_b64u32_canonical_example :
    (validate_b64u32 (encode secret_bytes) ≡ true)
    × (decode (encode secret_bytes) ≡ secret_bytes)
    × (validate_b64u32 (encode secret_bytes) ≡ true
        → validate_b64u32 (encode (zeros 32)) ≡ true
        → decode (encode secret_bytes) ≡ decode (encode (zeros 32))
        → encode secret_bytes ≡ encode (zeros 32))
validate_b64u32_canonical_example =
    validate_b64u32_canonical secret_bytes (encode secret_bytes) (encode (zeros 32))
      secret_bytes-Bytes refl

abbrev fields : TranscriptFields
fields = record {
  challenge_id = codes "challenge-1";
  nonce_raw = zeros 32;
  agent_id = codes "agent-1";
  key_id = codes "key-1";
  protocol_version = codes "2.0.0";
  tenant_id = codes "tenant";
  server_origin = codes "wss://relay.example";
}

fields-FieldsFit : FieldsFit fields
fields-FieldsFit = record {
  challenge_id_fits = omega arith;
  nonce_is_32 = refl;
  agent_id_fits = omega arith;
  key_id_fits = omega arith;
  protocol_version_fits = omega arith;
  tenant_id_fits = omega arith;
  server_origin_fits = omega arith;
}

build_transcript_injective_example : fields ≡ fields
build_transcript_injective_example =
    build_transcript_injective fields fields fields-FieldsFit fields-FieldsFit refl

abbrev pairing : PairingTranscriptFields
pairing = record {
  secret = codes "_4AAAAAAAAAAAAAAAAAAAAAAAAAAAAAAAAAAAAAAAAA";
  public_raw = zeros 32;
  server_origin = codes "wss://relay.example";
  protocol_version = codes "2.0.0";
}

pairing-PairingFieldsFit : PairingFieldsFit pairing
pairing-PairingFieldsFit = record {
  secret_fits = omega arith;
  server_origin_fits = omega arith;
  protocol_version_fits = omega arith;
}

paired : build_pairing_transcript pairing ≡ some (pairing_bytes pairing)
unfolding build_pairing_transcript validate_b64u32 all_chars decode encode symbol sextet codes_eq
paired = refl

build_pairing_transcript_injective_example : pairing ≡ pairing
build_pairing_transcript_injective_example =
    build_pairing_transcript_injective pairing pairing pairing-PairingFieldsFit
      pairing-PairingFieldsFit (pairing_bytes pairing) paired paired
