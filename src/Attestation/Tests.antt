-- ===== src/Attestation/Tests.antt =====
-- Signatures that repeat key and message, and the theorems at concrete attestations.
use provii_crypto.Prelude.{
  ℕ, ◌+◌, ◌<◌, ◌≡◌, ◌↔◌, refl, arith, List, ◌∷◌, some, none, ok, err, replicate,
}
use provii_crypto.Prelude.Int.{pos, negsuc}
use provii_crypto.Prelude.Bytes.{codes, bytes_eq, bytes_eq_refl}
use provii_crypto.Commons.{invalid_input, expired}
use provii_crypto.Attestation.{
  Primitives, Claims, DobAttestation, transcript, push_binding, create, create_bound, verify,
  verify_with_timestamp,
}
use provii_crypto.Attestation.Transcript.{IsTyped, binding, transcript_inj}
use provii_crypto.Attestation.Freshness.{IsFresh, verify_with_timestamp_iff, create-verify}

abbrev repeating : Primitives
repeating = record {
  SigningKey = ℕ;
  VerifyingKey = ℕ;
  verifying_key = λ key. key;
  blake2s256 = λ bytes. bytes;
  sign = λ key message. key ∷ message;
  verify_strict = λ key message signature. bytes_eq (key ∷ message) signature;
  sign_verifies = λ key message. bytes_eq_refl (key ∷ message);
}

abbrev claims : Claims
claims = record {
  dob_days = negsuc 3651;
  issuer_id = codes "dmv.ca.gov";
  timestamp = 1700000000;
  nonce = replicate 32 4;
  session_id = some (codes "session");
  client_id = none;
}

abbrev attestation : DobAttestation
attestation = record { claims = claims; signature = replicate 64 1 }

transcript_run : (out : List ℕ) × (transcript claims ≡ ok out)
unfolding transcript push_binding
transcript_run = (_, refl)

claims-IsTyped : IsTyped claims
claims-IsTyped = omega arith

transcript_inj_example :
    (claims.dob_days ≡ claims.dob_days)
    × (claims.issuer_id ≡ claims.issuer_id)
    × (claims.timestamp ≡ claims.timestamp)
    × (claims.nonce ≡ claims.nonce)
    × (binding claims.session_id claims.client_id ≡ binding claims.session_id claims.client_id)
transcript_inj_example =
    transcript_inj claims claims claims-IsTyped claims-IsTyped transcript_run.0 transcript_run.1
      transcript_run.1

verify_with_timestamp_iff_example :
    ((verify_with_timestamp repeating attestation 9 1700003600 ≡ ok tt)
      ↔ (IsFresh 1700000000 1700003600 × (verify repeating attestation 9 ≡ ok tt)))
    × (1700003600 + 60 < 1700000000
        → verify_with_timestamp repeating attestation 9 1700003600 ≡ err invalid_input)
    × (1700000000 + 3600 < 1700003600
        → verify_with_timestamp repeating attestation 9 1700003600 ≡ err expired)
verify_with_timestamp_iff_example =
    verify_with_timestamp_iff repeating attestation 9 1700003600 (omega arith)

create-verify_example :
    ((att : DobAttestation) × (create repeating (pos 5) (codes "dmv") 9 (replicate 32 4) 3 ≡ ok att)
      × (att.claims ≡ record {
        dob_days = pos 5;
        issuer_id = codes "dmv";
        timestamp = 9;
        nonce = replicate 32 4;
        session_id = none;
        client_id = none;
      })
      × (verify repeating att 3 ≡ ok tt))
    × ((att : DobAttestation) × (create_bound repeating
            (pos 5)
            (codes "dmv")
            9
            (replicate 32 4)
            (codes "s")
            (codes "c")
            3
          ≡ ok att)
        × (att.claims ≡ record {
          dob_days = pos 5;
          issuer_id = codes "dmv";
          timestamp = 9;
          nonce = replicate 32 4;
          session_id = some (codes "s");
          client_id = some (codes "c");
        })
        × (verify repeating att 3 ≡ ok tt))
create-verify_example =
    create-verify repeating (pos 5) (codes "dmv") 9 (replicate 32 4) (codes "s") (codes "c") 3
      (omega arith) (omega arith) (omega arith)
