-- ===== src/Protocol/ConsentTranscript.antt =====
-- The consent transcript: it exists for strings below 4 GiB and determines what is consented to.
use provii_crypto.Prelude.{ℕ, ◌^◌, ◌<◌, ◌≡◌, refl, sym, ap, ◌∙◌, arith}
use provii_crypto.Prelude.{List, ◌++◌, Option, some, none, ok, length, append_assoc, append_inj}
use provii_crypto.Prelude.{cons_inj, on_bind, on_ok_or, ok-injective}
use provii_crypto.Prelude.Int.{IsI64, to_bits64, to_bits64-lt, to_bits64_inj}
use provii_crypto.Prelude.Bytes.{to_le_bytes, to_le_bytes_inj, length-to_le_bytes}
use provii_crypto.Commons.{issuance_consent_dst, invalid_input}
use provii_crypto.Protocol.{
  Consent, consent_tail, nonce_bytes, consent_transcript, write_length_prefixed, u32_try_from,
}

-- `[u8; 16]`, or nothing.
abbrev pub IsNonce16 : Option (List ℕ) → Type 0
IsNonce16 none = Unit {0}
IsNonce16 (some n) = length n ≡ 16

-- The values that the argument types hold: 32 bytes, an `i64`, a `u32` and 16 bytes.
abbrev pub IsTyped : Consent → Type 0
IsTyped a =
    (length a.wallet_pubkey ≡ 32)
    × IsI64 a.consent_time
    × (a.terms_version < 2 ^ 32)
    × IsNonce16 a.nonce

abbrev prefixed : List ℕ → List ℕ
prefixed bytes = to_le_bytes 4 (length bytes) ++ bytes

pub write_ok :
    (h bytes out : List ℕ)
    → write_length_prefixed h bytes ≡ ok out
    → (length bytes < 2 ^ 32) × (out ≡ h ++ prefixed bytes)
unfolding write_length_prefixed
write_ok h bytes out e = on_ok_or (u32_try_from (length bytes)) invalid_input _ e λ len hl e1.
    let bound : (length bytes < 2 ^ 32) × (length bytes ≡ len) = try_from (length bytes) len hl in
    (
      bound.0,
      sym (ok-injective e1)
          ∙ append_assoc h (to_le_bytes 4 len) bytes
          ∙ ap (λ n. h ++ (to_le_bytes 4 n ++ bytes)) (sym bound.1),
    )
  where
    try_from : (n len : ℕ) → u32_try_from n ≡ some len → (n < 2 ^ 32) × (n ≡ len)
    try_from n len h = ground arith

abbrev layout : Consent → List ℕ
layout a =
    issuance_consent_dst
    ++ (prefixed a.session_id
        ++ (prefixed a.issuer_id ++ (prefixed a.issuer_kid ++ consent_tail a)))

abbrev Bounded : Consent → Type 0
Bounded a =
    (length a.session_id < 2 ^ 32) × (length a.issuer_id < 2 ^ 32) × (length a.issuer_kid < 2 ^ 32)

transcript-layout :
    (a : Consent) {out : List ℕ} → consent_transcript a ≡ ok out → Bounded a × (out ≡ layout a)
unfolding consent_transcript
transcript-layout a e =
    on_bind (write_length_prefixed issuance_consent_dst a.session_id) _ e λ h1 w1 e1.
      on_bind (write_length_prefixed h1 a.issuer_id) _ e1 λ h2 w2 e2.
        on_bind (write_length_prefixed h2 a.issuer_kid) _ e2 λ h3 w3 e3.
          let (b1, l1) = write_ok _ _ h1 w1 in
          let (b2, l2) = write_ok _ _ h2 w2 in
          let (b3, l3) = write_ok _ _ h3 w3 in
          ((b1, b2, b3), sym (ok-injective e3) ∙ rw (l3, l2, l1) (simp append_assoc))

prefixed_inj :
    (xs ys us vs : List ℕ)
    → length xs < 2 ^ 32
    → length ys < 2 ^ 32
    → prefixed xs ++ us ≡ prefixed ys ++ vs
    → (xs ≡ ys) × (us ≡ vs)
prefixed_inj xs ys us vs hx hy e =
    let (n, e1) =
      append_inj (to_le_bytes 4 (length xs)) (to_le_bytes 4 (length ys)) (xs ++ us) (ys ++ vs)
        (length-to_le_bytes 4 _ ∙ sym (length-to_le_bytes 4 _))
        (sym (append_assoc _ xs us) ∙ e ∙ append_assoc _ ys vs) in
    append_inj xs ys us vs (to_le_bytes_inj 4 _ _ hx hy n) e1

nonce_inj : (a b : Option (List ℕ)) → nonce_bytes a ≡ nonce_bytes b → a ≡ b
nonce_inj none none e = refl
nonce_inj none (some n) e = absurd (omega (arith, (cons_inj e).0))
nonce_inj (some m) none e = absurd (omega (arith, (cons_inj e).0))
nonce_inj (some m) (some n) e = ap some (cons_inj e).1

-- Two consents whose messages are hashes of the same bytes are the same consent: session, issuer,
-- key id, wallet key, time, terms version and nonce.
pub consent_transcript_inj :
    (a b : Consent)
    → IsTyped a
    → IsTyped b
    → (out : List ℕ) → consent_transcript a ≡ ok out
    → consent_transcript b ≡ ok out
    → a ≡ b
consent_transcript_inj a b (wa, ta, va, na) (wb, tb, vb, nb) out ea eb =
    let ((a1, a2, a3), la) = transcript-layout a ea in
    let ((b1, b2, b3), lb) = transcript-layout b eb in
    let (d, e1) = append_inj issuance_consent_dst issuance_consent_dst _ _ refl (sym la ∙ lb) in
    let (s, e2) = prefixed_inj a.session_id b.session_id _ _ a1 b1 e1 in
    let (i, e3) = prefixed_inj a.issuer_id b.issuer_id _ _ a2 b2 e2 in
    let (k, e4) = prefixed_inj a.issuer_kid b.issuer_kid _ _ a3 b3 e3 in
    let (w, e5) = append_inj a.wallet_pubkey b.wallet_pubkey _ _ (wa ∙ sym wb) e4 in
    let len = λ (n v w : ℕ). length-to_le_bytes n v ∙ sym (length-to_le_bytes n w) in
    let (t, e6) =
      append_inj (to_le_bytes 8 (to_bits64 a.consent_time))
        (to_le_bytes 8 (to_bits64 b.consent_time)) _ _ (len 8 _ _) e5 in
    let (v, e7) =
      append_inj (to_le_bytes 4 a.terms_version) (to_le_bytes 4 b.terms_version) _ _ (len 4 _ _)
        e6 in
    let time =
      to_bits64_inj a.consent_time b.consent_time ta tb (
        to_le_bytes_inj 8 _ _ (to_bits64-lt a.consent_time ta) (to_bits64-lt b.consent_time tb)
          t) in
    let terms = to_le_bytes_inj 4 a.terms_version b.terms_version va vb v in
    let n = nonce_inj a.nonce b.nonce e7 in
    λ j. record {
      session_id = s j;
      issuer_id = i j;
      issuer_kid = k j;
      wallet_pubkey = w j;
      consent_time = time j;
      terms_version = terms j;
      nonce = n j;
    }
