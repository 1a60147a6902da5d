-- ===== src/Protocol.antt =====
-- crypto-protocol/src/lib.rs and nonce.rs: challenges, consent messages, replay tags and nonces.
-- SHA-256 and base64url are parameters; strings are their UTF-8 bytes.
pub mod ConsentTranscript
pub mod Nonce
mod Tests
use provii_crypto.Prelude.{
  ℕ, ◌+◌, ◌^◌, Bool, true, false, not, ◌&&◌, ◌||◌, List, [], ◌∷◌, ◌++◌, Option, some, none,
}
use provii_crypto.Prelude.{Result, ok, err, ◌>>=◌, ◌>>◌, ok_or, ltb, ◌==◌, if◌then◌else◌, length}
use provii_crypto.Prelude.Int.{ℤ, to_bits64}
use provii_crypto.Prelude.Bytes.{to_le_bytes}
use provii_crypto.Commons.{Error, invalid_input, internal, challenge_dst, issuance_consent_dst}
use provii_crypto.Entropy.{has_enough_unique}

module _ (sha256 : List ℕ → List ℕ) where
  -- The base64url encoding without padding is the second parameter.
  pub code_challenge_s256 : (List ℕ → List ℕ) → List ℕ → List ℕ
  code_challenge_s256 encode code_verifier = encode (sha256 code_verifier)

  pub rp_challenge : List ℕ → List ℕ → List ℕ
  rp_challenge origin nonce = sha256 (origin ++ (nonce ++ challenge_dst))

  pub compute_origin_hash : List ℕ → List ℕ
  compute_origin_hash origin = sha256 origin

-- The bytes that the encoder gets; a colon stands between the two parts.
abbrev pub replay_tag_bytes : List ℕ → List ℕ → List ℕ
replay_tag_bytes origin_hash nonce = origin_hash ++ (58 ∷ nonce)

pub compute_replay_tag : (List ℕ → List ℕ) → List ℕ → List ℕ → List ℕ
compute_replay_tag encode origin_hash nonce = encode (replay_tag_bytes origin_hash nonce)

-- `u32::try_from`, of a `usize`.
abbrev pub u32_try_from : ℕ → Option ℕ
u32_try_from n = if ltb n (2 ^ 32) then some n else none

-- The hasher's state is the bytes it has been given.
pub write_length_prefixed : List ℕ → List ℕ → Result Error (List ℕ)
write_length_prefixed h bytes = do
  len ← ok_or (u32_try_from (length bytes)) invalid_input
  ok ((h ++ to_le_bytes 4 len) ++ bytes)

-- The arguments of the consent message.
pub record Consent : Type 0 where
  pub session_id : List ℕ
  pub issuer_id : List ℕ
  pub issuer_kid : List ℕ
  pub wallet_pubkey : List ℕ
  pub consent_time : ℤ
  pub terms_version : ℕ
  pub nonce : Option (List ℕ)

abbrev pub nonce_bytes : Option (List ℕ) → List ℕ
nonce_bytes (some n) = 1 ∷ n
nonce_bytes none = 0 ∷ []

-- What follows the three strings.
abbrev pub consent_tail : Consent → List ℕ
consent_tail a =
    a.wallet_pubkey
    ++ (to_le_bytes 8 (to_bits64 a.consent_time)
        ++ (to_le_bytes 4 a.terms_version ++ nonce_bytes a.nonce))

pub consent_transcript : Consent → Result Error (List ℕ)
consent_transcript a = do
  h ← write_length_prefixed issuance_consent_dst a.session_id
  h ← write_length_prefixed h a.issuer_id
  h ← write_length_prefixed h a.issuer_kid
  ok (h ++ consent_tail a)

pub build_issuance_consent_message : (List ℕ → List ℕ) → Consent → Result Error (List ℕ)
build_issuance_consent_message sha256 a = do
  transcript ← consent_transcript a
  ok (sha256 transcript)

-- The random bytes are the argument; `none` is the failure that the web source can report.
pub generate_nonce : Option (List ℕ) → Result Error (List ℕ)
generate_nonce filled = ok_or filled internal

pub has_sufficient_entropy : List ℕ → Bool
unfolding has_enough_unique
has_sufficient_entropy nonce = has_enough_unique nonce

-- `nonce.iter().any(|&b| b != 0)`
abbrev pub any_nonzero : List ℕ → Bool
any_nonzero [] = false
any_nonzero (b ∷ nonce) = not (b == 0) || any_nonzero nonce

pub validate_nonce : List ℕ → Bool
validate_nonce nonce = any_nonzero nonce && has_sufficient_entropy nonce
