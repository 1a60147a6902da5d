-- ===== src/Attestation.antt =====
-- crypto-commons/src/attestation.rs: attestations of a date of birth, signed by an issuer.
-- BLAKE2s and Ed25519 are parameters; strings are their UTF-8 bytes.
pub mod Transcript
pub mod Freshness
mod Tests
use provii_crypto.Prelude.{
  ℕ, ◌+◌, ◌-◌, ◌^◌, ◌≡◌, min, Bool, true, false, not, ◌||◌, List, [], ◌∷◌, ◌++◌,
}
use provii_crypto.Prelude.{
  Option, some, none, Result, ok, err, ◌>>=◌, ◌>>◌, guard, ok_or, ltb, length, if◌then◌else◌,
}
use provii_crypto.Prelude.Int.{ℤ, to_bits32}
use provii_crypto.Prelude.Bytes.{codes, to_le_bytes, u8_try_from}
use provii_crypto.Commons.{
  Error, field_too_long, invalid_input, expired, invalid_signature,
  attestation_clock_skew_tolerance_seconds,
}

abbrev pub dob_attestation_dst : List ℕ
dob_attestation_dst = codes "provii.attestation.dob.v0"

abbrev pub attestation_max_age_seconds : ℕ
attestation_max_age_seconds = 3600

-- What the crate uses of blake2 and ed25519-dalek: what is signed with a key verifies under the
-- public half, strictly.
pub record Primitives : Type 1 where
  pub SigningKey : Type 0
  pub VerifyingKey : Type 0
  pub verifying_key : SigningKey → VerifyingKey
  pub blake2s256 : List ℕ → List ℕ
  pub sign : SigningKey → List ℕ → List ℕ
  pub verify_strict : VerifyingKey → List ℕ → List ℕ → Bool
  pub sign_verifies :
      (key : SigningKey) (message : List ℕ)
      → verify_strict (verifying_key key) message (sign key message) ≡ true

-- What is attested: `DobAttestation` without its signature.
pub record Claims : Type 0 where
  pub dob_days : ℤ
  pub issuer_id : List ℕ
  pub timestamp : ℕ
  pub nonce : List ℕ
  pub session_id : Option (List ℕ)
  pub client_id : Option (List ℕ)

pub record DobAttestation : Type 0 where
  pub claims : Claims
  pub signature : List ℕ

abbrev pub is_some : Option (List ℕ) → Bool
is_some none = false
is_some (some s) = true

abbrev pub or_empty : Option (List ℕ) → List ℕ
or_empty none = []
or_empty (some s) = s

-- `hasher.update([u8::try_from(len)?]); hasher.update(bytes)`, behind the guard on the length.
abbrev pub push_short : List ℕ → List ℕ → Result Error (List ℕ)
push_short h bytes = do
  guard (not (ltb 255 (length bytes))) field_too_long
  len ← ok_or (u8_try_from (length bytes)) field_too_long
  ok ((h ++ (len ∷ [])) ++ bytes)

-- The two binding fields, if either is present.
pub push_binding : Option (List ℕ) → Option (List ℕ) → List ℕ → Result Error (List ℕ)
push_binding session_id client_id h =
    if is_some session_id || is_some client_id
    then (push_short h (or_empty session_id) >>= λ h'. push_short h' (or_empty client_id))
    else ok h

-- The bytes that the hasher is given. The guard on the issuer comes first in the source too: the
-- hasher has then only been given values of fixed size.
pub transcript : Claims → Result Error (List ℕ)
transcript a = do
  h ← push_short (dob_attestation_dst ++ to_le_bytes 4 (to_bits32 a.dob_days)) a.issuer_id
  let h = (h ++ to_le_bytes 8 a.timestamp) ++ a.nonce
  push_binding a.session_id a.client_id h

-- `u64::saturating_add`
abbrev pub saturating_add : ℕ → ℕ → ℕ
saturating_add a b = min (a + b) (2 ^ 64 - 1)

module _ (P : Primitives) where
  pub compute_message_bytes : Claims → Result Error (List ℕ)
  compute_message_bytes a = do bytes ← transcript a; ok (P.blake2s256 bytes)

  -- What both constructors do with the claims.
  abbrev pub create_signed : Claims → P.SigningKey → Result Error DobAttestation
  create_signed a key = do
    message ← compute_message_bytes a
    ok (record { claims = a; signature = P.sign key message })

  pub create : ℤ → List ℕ → ℕ → List ℕ → P.SigningKey → Result Error DobAttestation
  create dob_days issuer_id timestamp nonce key =
      create_signed
        (record {
          dob_days = dob_days;
          issuer_id = issuer_id;
          timestamp = timestamp;
          nonce = nonce;
          session_id = none;
          client_id = none;
        })
        key

  -- The bytes that the random source fills in are an argument.
  pub create_with_rng : ℤ → List ℕ → ℕ → List ℕ → P.SigningKey → Result Error DobAttestation
  create_with_rng dob_days issuer_id current_time nonce key =
      create dob_days issuer_id current_time nonce key

  pub create_bound :
      ℤ → List ℕ → ℕ → List ℕ → List ℕ → List ℕ → P.SigningKey → Result Error DobAttestation
  create_bound dob_days issuer_id timestamp nonce session_id client_id key =
      create_signed
        (record {
          dob_days = dob_days;
          issuer_id = issuer_id;
          timestamp = timestamp;
          nonce = nonce;
          session_id = some session_id;
          client_id = some client_id;
        })
        key

  pub verify : DobAttestation → P.VerifyingKey → Result Error (Unit {0})
  verify att key = do
    message ← compute_message_bytes att.claims
    guard (P.verify_strict key message att.signature) invalid_signature

  pub verify_with_timestamp : DobAttestation → P.VerifyingKey → ℕ → Result Error (Unit {0})
  verify_with_timestamp att key current_time =
      if ltb (saturating_add current_time attestation_clock_skew_tolerance_seconds)
        att.claims.timestamp
      then err invalid_input
      else (if ltb attestation_max_age_seconds (current_time - att.claims.timestamp)
          then err expired
          else verify att key)
