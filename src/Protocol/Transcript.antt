-- ===== src/Protocol/Transcript.antt =====
-- The signed transcripts: protocol/v1/transcript.ts (handshake) and protocol/v1/pairing.ts (pairing).
-- Texts are given by their UTF-8 bytes.
use hugin_agent.Prelude.{
  ℕ, ◌/◌, ◌%◌, ◌&&◌, Option, none, some, List, [], ◌∷◌, ◌++◌, ◌==◌, if◌then◌else◌, length, codes,
}
use hugin_agent.Protocol.Base64.{validate_b64u32}

abbrev pub domain_tag : List ℕ
domain_tag = codes "hugin-agent/auth/v1"

abbrev pub alg : List ℕ
alg = codes "ed25519"

abbrev pub pairing_domain_tag : List ℕ
pairing_domain_tag = codes "hugin-pair-pop-v1"

-- `writeUInt32BE`, of a length that four bytes hold.
unfoldable pub uint32_be : ℕ → List ℕ
uint32_be n = n / 16777216 % 256 ∷ n / 65536 % 256 ∷ n / 256 % 256 ∷ n % 256 ∷ []

-- Length-prefix.
unfoldable pub lp : List ℕ → List ℕ
unfolding uint32_be
lp x = uint32_be (length x) ++ x

pub record TranscriptFields : Type 0 where
  pub challenge_id : List ℕ
  pub nonce_raw : List ℕ
  pub agent_id : List ℕ
  pub key_id : List ℕ
  pub protocol_version : List ℕ
  pub tenant_id : List ℕ
  pub server_origin : List ℕ

unfoldable pub build_transcript : TranscriptFields → List ℕ
unfolding lp
build_transcript f =
    lp domain_tag
    ++ (lp f.challenge_id
        ++ (f.nonce_raw
            ++ (lp f.agent_id
                ++ (lp f.key_id
                    ++ (lp f.protocol_version
                        ++ (lp alg ++ (lp f.tenant_id ++ (lp f.server_origin ++ []))))))))

pub record PairingTranscriptFields : Type 0 where
  pub secret : List ℕ
  pub public_raw : List ℕ
  pub server_origin : List ℕ
  pub protocol_version : List ℕ

abbrev pub pairing_bytes : PairingTranscriptFields → List ℕ
pairing_bytes f =
    lp pairing_domain_tag
    ++ (lp f.secret ++ (f.public_raw ++ (lp f.server_origin ++ (lp f.protocol_version ++ []))))

-- `none` is an exception: a secret that is not canonical, or a key that is not of 32 bytes.
unfoldable pub build_pairing_transcript : PairingTranscriptFields → Option (List ℕ)
build_pairing_transcript f =
    if validate_b64u32 f.secret && length f.public_raw == 32 then some (pairing_bytes f) else none
