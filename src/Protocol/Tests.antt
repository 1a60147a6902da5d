-- ===== src/Protocol/Tests.antt =====
-- A consent and a nonce, and the theorems at them.
use provii_crypto.Prelude.{ℕ, ◌≤◌, ◌≡◌, ◌↔◌, refl, arith, true, List, some, ok, replicate}
use provii_crypto.Prelude.Int.{pos}
use provii_crypto.Prelude.Bytes.{codes}
use provii_crypto.Entropy.Count.{unique_bytes}
use provii_crypto.Protocol.{Consent, consent_transcript, write_length_prefixed, validate_nonce}
use provii_crypto.Protocol.ConsentTranscript.{IsTyped, consent_transcript_inj}
use provii_crypto.Protocol.Nonce.{validate_nonce_iff}

abbrev consent : Consent
consent = record {
  session_id = codes "session";
  issuer_id = codes "issuer";
  issuer_kid = codes "kid";
  wallet_pubkey = replicate 32 3;
  consent_time = pos 1700000000;
  terms_version = 2;
  nonce = some (replicate 16 1);
}

consent_run : (out : List ℕ) × (consent_transcript consent ≡ ok out)
unfolding consent_transcript write_length_prefixed
consent_run = (_, refl)

consent-IsTyped : IsTyped consent
consent-IsTyped = omega arith

consent_transcript_inj_example : consent ≡ consent
consent_transcript_inj_example =
    consent_transcript_inj consent consent consent-IsTyped consent-IsTyped consent_run.0
      consent_run.1 consent_run.1

validate_nonce_iff_example :
    (validate_nonce (replicate 32 5) ≡ true) ↔ (8 ≤ unique_bytes (replicate 32 5))
validate_nonce_iff_example = validate_nonce_iff (replicate 32 5) (omega arith)
