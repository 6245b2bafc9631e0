-- ===== src/Protocol/Signing.antt =====
-- A signature binds every field: the transcripts of protocol/v1/transcript.ts and
-- protocol/v1/pairing.ts are injective and never equal to each other.
use hugin_agent.Prelude.{
  ℕ, ◌<◌, ◌≡◌, ◌≢◌, some, List, ◌++◌, length, append_split, arith, append_assoc, sym, ◌∙◌,
}
use hugin_agent.Protocol.Transcript.{
  uint32_be, lp, alg, domain_tag, pairing_domain_tag, TranscriptFields, build_transcript,
  PairingTranscriptFields, pairing_bytes, build_pairing_transcript,
}

abbrev Fits : List ℕ → Type 0
Fits x = length x < 4294967296

uint32_be_injective :
    (m n : ℕ)
    → m < 4294967296
    → n < 4294967296
    → (r s : List ℕ) → uint32_be m ++ r ≡ uint32_be n ++ s
    → (m ≡ n) × (r ≡ s)
unfolding uint32_be
uint32_be_injective m n h k r s e = ground arith

lp_injective : (x y r s : List ℕ) → Fits x → Fits y → lp x ++ r ≡ lp y ++ s → (x ≡ y) × (r ≡ s)
unfolding lp
lp_injective x y r s h k e =
    let heads = uint32_be_injective (length x) (length y) h k (x ++ r) (y ++ s) (
      sym (append_assoc (uint32_be (length x)) x r)
      ∙ e
      ∙ append_assoc (uint32_be (length y)) y s) in
    append_split x y r s heads.0 heads.1

pub record FieldsFit (f : TranscriptFields) : Type 0 where
  pub challenge_id_fits : Fits f.challenge_id
  pub nonce_is_32 : length f.nonce_raw ≡ 32
  pub agent_id_fits : Fits f.agent_id
  pub key_id_fits : Fits f.key_id
  pub protocol_version_fits : Fits f.protocol_version
  pub tenant_id_fits : Fits f.tenant_id
  pub server_origin_fits : Fits f.server_origin

tag-Fits : Fits domain_tag
tag-Fits = omega arith

-- One signed transcript stands for one tuple of fields: with a nonce of 32 bytes and texts whose
-- lengths four bytes hold, equal transcripts have all seven fields equal, so no bytes can move from
-- one field to its neighbour.
pub build_transcript_injective :
    (f g : TranscriptFields)
    → FieldsFit f
    → FieldsFit g
    → build_transcript f ≡ build_transcript g
    → f ≡ g
unfolding build_transcript
build_transcript_injective f g h k e =
    let tag = lp_injective domain_tag domain_tag _ _ tag-Fits tag-Fits e in
    let id =
      lp_injective f.challenge_id g.challenge_id _ _ h.challenge_id_fits k.challenge_id_fits
        tag.1 in
    let nonce = append_split f.nonce_raw g.nonce_raw _ _ (h.nonce_is_32 ∙ sym k.nonce_is_32) id.1 in
    let agent = lp_injective f.agent_id g.agent_id _ _ h.agent_id_fits k.agent_id_fits nonce.1 in
    let key = lp_injective f.key_id g.key_id _ _ h.key_id_fits k.key_id_fits agent.1 in
    let version =
      lp_injective f.protocol_version g.protocol_version _ _ h.protocol_version_fits
        k.protocol_version_fits key.1 in
    let algorithm = lp_injective alg alg _ _ (omega arith) (omega arith) version.1 in
    let tenant =
      lp_injective f.tenant_id g.tenant_id _ _ h.tenant_id_fits k.tenant_id_fits algorithm.1 in
    let origin =
      lp_injective f.server_origin g.server_origin _ _ h.server_origin_fits k.server_origin_fits
        tenant.1 in
    cc

pub record PairingFieldsFit (f : PairingTranscriptFields) : Type 0 where
  pub secret_fits : Fits f.secret
  pub server_origin_fits : Fits f.server_origin
  pub protocol_version_fits : Fits f.protocol_version

accepted :
    (f : PairingTranscriptFields) (bytes : List ℕ)
    → build_pairing_transcript f ≡ some bytes
    → (length f.public_raw ≡ 32) × (pairing_bytes f ≡ bytes)
unfolding build_pairing_transcript
accepted f bytes p = ground arith

-- One signed pairing transcript stands for one secret, key, origin and version, among those that
-- `build_pairing_transcript` does not refuse and whose lengths four bytes hold.
pub build_pairing_transcript_injective :
    (f g : PairingTranscriptFields)
    → PairingFieldsFit f
    → PairingFieldsFit g
    → (bytes : List ℕ) → build_pairing_transcript f ≡ some bytes
    → build_pairing_transcript g ≡ some bytes
    → f ≡ g
build_pairing_transcript_injective f g h k bytes p q =
    let accepted_f = accepted f bytes p in
    let accepted_g = accepted g bytes q in
    let tag =
      lp_injective pairing_domain_tag pairing_domain_tag _ _ (omega arith) (omega arith)
        (accepted_f.1 ∙ sym accepted_g.1) in
    let code = lp_injective f.secret g.secret _ _ h.secret_fits k.secret_fits tag.1 in
    let key = append_split f.public_raw g.public_raw _ _ (accepted_f.0 ∙ sym accepted_g.0) code.1 in
    let origin =
      lp_injective f.server_origin g.server_origin _ _ h.server_origin_fits k.server_origin_fits
        key.1 in
    let version =
      lp_injective f.protocol_version g.protocol_version _ _ h.protocol_version_fits
        k.protocol_version_fits origin.1 in
    cc

-- A signature made for the handshake is never one for pairing: no handshake transcript is equal to
-- a pairing transcript, whatever the fields are.
transcripts_disjoint :
    (f : TranscriptFields) (g : PairingTranscriptFields)
    → build_pairing_transcript g ≢ some (build_transcript f)
unfolding build_pairing_transcript build_transcript lp uint32_be
transcripts_disjoint f g e = ground arith
