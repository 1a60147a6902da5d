-- ===== src/Attestation/Freshness.antt =====
-- When an attestation is accepted: the window of its timestamp, and that what is made is accepted.
use provii_crypto.Prelude.{ℕ, ◌+◌, ◌-◌, ◌^◌, ◌≤◌, ◌<◌, ◌≡◌, ◌↔◌, refl, arith, List}
use provii_crypto.Prelude.{Result, ok, err, some, none, if◌then◌else◌, ltb, length}
use provii_crypto.Prelude.Int.{ℤ}
use provii_crypto.Commons.{Error, invalid_input, expired}
use provii_crypto.Attestation.{
  Primitives, Claims, DobAttestation, compute_message_bytes, create_signed, create, create_bound,
  verify, verify_with_timestamp, saturating_add, transcript,
}
use provii_crypto.Attestation.Transcript.{transcript_total}

-- At most 60 seconds in the future and at most 3600 seconds in the past.
abbrev pub IsFresh : ℕ → ℕ → Type 0
IsFresh timestamp current_time = (timestamp ≤ current_time + 60) × (current_time ≤ timestamp + 3600)

IsFresh-tests :
    (r : Result Error (Unit {0})) (timestamp current_time : ℕ)
    → timestamp < 2 ^ 64
    → let out =
        if ltb (saturating_add current_time 60) timestamp
        then err invalid_input
        else (if ltb 3600 (current_time - timestamp) then err expired else r) in
      ((out ≡ ok tt) ↔ (IsFresh timestamp current_time × (r ≡ ok tt)))
      × (current_time + 60 < timestamp → out ≡ err invalid_input)
      × (timestamp + 3600 < current_time → out ≡ err expired)
IsFresh-tests (ok tt) timestamp current_time h = (ground arith, ground arith, ground arith)
IsFresh-tests (err e) timestamp current_time h = (ground arith, ground arith, ground arith)

module _ (P : Primitives) where
  -- `verify_with_timestamp` accepts exactly a signature that verifies on a timestamp that is at
  -- most 60 seconds ahead and at most 3600 seconds old, whatever the clock's saturation; a later
  -- timestamp is `InvalidInput` and an older one `Expired`, before the signature is looked at.
  pub verify_with_timestamp_iff :
      (att : DobAttestation) (key : P.VerifyingKey) (current_time : ℕ)
      → att.claims.timestamp < 2 ^ 64
      → ((verify_with_timestamp P att key current_time ≡ ok tt)
          ↔ (IsFresh att.claims.timestamp current_time × (verify P att key ≡ ok tt)))
        × (current_time + 60 < att.claims.timestamp
            → verify_with_timestamp P att key current_time ≡ err invalid_input)
        × (att.claims.timestamp + 3600 < current_time
            → verify_with_timestamp P att key current_time ≡ err expired)
  unfolding verify_with_timestamp
  verify_with_timestamp_iff att key current_time h =
      IsFresh-tests (verify P att key) att.claims.timestamp current_time h

  signed_verifies :
      (a : Claims)
      → (transcribed : (bytes : List ℕ) × (transcript a ≡ ok bytes)) → (key : P.SigningKey)
      → (att : DobAttestation) × (create_signed P a key ≡ ok att)
        × (att.claims ≡ a)
        × (verify P att (P.verifying_key key) ≡ ok tt)
  unfolding verify compute_message_bytes
  signed_verifies a (bytes, e) key = (
    record { claims = a; signature = P.sign key (P.blake2s256 bytes) },
    rw e refl,
    refl,
    rw (e, P.sign_verifies key (P.blake2s256 bytes)) refl,
  )

  -- `create` makes an attestation for an issuer of at most 255 bytes, and so does `create_bound`
  -- when the session and the client have at most 255 bytes too. What is made claims exactly the
  -- given date of birth, issuer, timestamp and nonce, with no session and client or with the given
  -- ones, and its signature verifies under the issuer's key.
  pub create-verify :
      (dob_days : ℤ) (issuer_id : List ℕ) (timestamp : ℕ) (nonce session_id client_id : List ℕ)
      (key : P.SigningKey)
      → length issuer_id ≤ 255
      → length session_id ≤ 255
      → length client_id ≤ 255
      → ((att : DobAttestation) × (create P dob_days issuer_id timestamp nonce key ≡ ok att)
          × (att.claims ≡ record {
            dob_days = dob_days;
            issuer_id = issuer_id;
            timestamp = timestamp;
            nonce = nonce;
            session_id = none;
            client_id = none;
          })
          × (verify P att (P.verifying_key key) ≡ ok tt))
        × ((att : DobAttestation) × (create_bound P dob_days issuer_id timestamp nonce session_id
                client_id key
              ≡ ok att)
            × (att.claims ≡ record {
              dob_days = dob_days;
              issuer_id = issuer_id;
              timestamp = timestamp;
              nonce = nonce;
              session_id = some session_id;
              client_id = some client_id;
            })
            × (verify P att (P.verifying_key key) ≡ ok tt))
  unfolding create create_bound
  create-verify dob_days issuer_id timestamp nonce session_id client_id key i s c = (
    signed_verifies _ (transcript_total _ i (omega arith) (omega arith)) key,
    signed_verifies _ (transcript_total _ i s c) key,
  )
