-- ===== src/Issuance/Proved.antt =====
-- A credential that the issuer's crates make is one that the circuit accepts.
use provii_crypto.Prelude.{
  ℕ, ◌≡◌, sym, ap, ap₂, ◌∙◌, List, [], ◌++◌, length, ok, on_bind, ok-injective, map_err, map_err-ok,
  some,
}
use mathlib.Core.Path.{subst}
use provii_crypto.Prelude.Int.{IsI32}
use provii_crypto.Commit
use provii_crypto.Commit.{pedersen_commit_dob_validated}
use provii_crypto.Commit.Binding.{commit-opening}
use provii_crypto.Credential
use provii_crypto.Credential.{CredMsgV2, prehash}
use provii_crypto.Credential.Layout.{layout, prehash_ok-layout}
use provii_crypto.PublicInputs.{Multipack, PublicValues, packed, bits_le_from_bytes}
use provii_crypto.PublicInputs.Assembly
use provii_crypto.Signature.Primitives.{Jubjub}
use provii_crypto.Signature
use provii_crypto.Signature.{
  SigningKey, RedJubjubError, cred_hash, signing_key_from_bytes, sign_hash_internal,
  signature_to_bytes, sign_cred_v2, verification_key,
}
use provii_crypto.Signature.Schnorr.{public_bytes, signed-Equation, signing_key-IsNonzero}
use provii_crypto.Signature.Keys.{verification_key-point}
use provii_crypto.Circuit.Backend.{Bellman, IsHonest}
use provii_crypto.Circuit.Bits.Complete.{Returns}
use provii_crypto.Circuit.Age.{AgeWitness}
use provii_crypto.Circuit.Age.Threshold.{Qualifies}
use provii_crypto.Circuit.Curve.{
  Curve, Sapling, Exposing, IsHonestSapling, IsHonestExposing, pedersen_hash,
}
use provii_crypto.Circuit.Synthesis.{synthesize}
use provii_crypto.Circuit.Synthesis.Issued.{Issued, message_of}
use provii_crypto.Circuit.Synthesis.Complete.{synthesize_complete}
use provii_crypto.Circuit.Redjubjub.Sound
use provii_crypto.Commons.{redjubjub_personalization}
use provii_crypto.Issuance.{Subgroup}
use provii_crypto.Issuance.Signed.{Equation-embed}

-- What the issuer and the holder did for a witness: the commitment to the date is made, the message
-- is signed under the key, and its fields have the circuit's sizes; and the public values name the
-- key, the nullifier, and a cutoff for which the date qualifies.
pub record IsIssued (J : Jubjub) (C : Curve) (p : PublicValues) (w : AgeWitness) : Type 0 where
  pub signing_key : List ℕ
  pub key : SigningKey J
  pub message-IsTyped : Credential.IsTyped (message_of w)
  pub dob_days-IsI32 : IsI32 w.dob_days
  pub key_is : signing_key_from_bytes J signing_key ≡ ok key
  pub committed : pedersen_commit_dob_validated (pedersen_hash C) w.dob_days w.r_bits ≡ ok w.c_bytes
  pub signed : sign_cred_v2 J (message_of w) signing_key ≡ ok w.sig_rj_bytes
  pub length-kid : length w.kid ≡ 14
  pub length-schema : length w.schema ≡ 12
  pub length-r_bits : length w.r_bits ≡ 128
  pub witness_vk_is : w.issuer_vk_bytes ≡ public_bytes J key
  pub public_vk_is : p.issuer_vk_bytes ≡ w.issuer_vk_bytes
  pub nullifier_is : p.cred_nullifier ≡ Commit.pedersen_nullifier (pedersen_hash C) w.c_bytes
  pub qualifies : Qualifies p.direction p.cutoff_days w.dob_days

module _ {J : Jubjub} {C : Curve} (U : Subgroup J C) where
  open U use {embed}

  Issued-of :
      (p : PublicValues) (w : AgeWitness) (i : IsIssued J C p w) (sig : Signature.Signature J)
      → sign_hash_internal J (cred_hash J (layout (message_of w))) i.key ≡ ok sig
      → w.sig_rj_bytes ≡ signature_to_bytes J sig
      → Issued C p w
  unfolding signature_to_bytes
  Issued-of p w i sig hs out =
      let vk = verification_key J i.key in
      let (equation, r) = signed-Equation J (cred_hash J (layout (message_of w))) i.key sig hs in
      record {
        issuer_vk = embed vk.point;
        r_point = embed sig.r;
        s_bytes = J.scalar_to_bytes sig.s;
        message-IsTyped = i.message-IsTyped;
        length-kid = i.length-kid;
        length-schema = i.length-schema;
        length-r_bits = i.length-r_bits;
        dob_days-IsI32 = i.dob_days-IsI32;
        issuer_vk_is = i.witness_vk_is ∙ sym (U.embed_bytes vk.point);
        issuer_vk_not_small =
            U.embed_small vk.point
            ∙ ap J.is_identity (verification_key-point J i.key)
            ∙ J.scale_identity i.key.scalar
            ∙ signing_key-IsNonzero J i.signing_key i.key i.key_is;
        r_not_small = U.embed_small sig.r ∙ r;
        s_is_scalar = U.scalar_accepted sig.s;
        length-s_bytes = J.length-scalar_to_bytes sig.s;
        sig_is = out ∙ ap (λ b. b ++ J.scalar_to_bytes sig.s) (sym (U.embed_bytes sig.r));
        c_opens = commit-opening (pedersen_hash C) w.dob_days w.r_bits i.committed;
        public_vk_is = i.public_vk_is;
        cred_nullifier_is = i.nullifier_is;
        qualifies = i.qualifies;
        equation =
            subst
              (λ h.
                Sound.Equation C (embed sig.r) (bits_le_from_bytes (J.scalar_to_bytes sig.s))
                  (embed vk.point) h redjubjub_personalization)
              (U.blake2s_plain (layout (message_of w)))
              (Equation-embed U (cred_hash J (layout (message_of w))) sig vk equation);
      }

  -- The signature is one on the layout of the message.
  pub IsIssued-Issued : (p : PublicValues) (w : AgeWitness) → IsIssued J C p w → Issued C p w
  unfolding sign_cred_v2
  IsIssued-Issued p w i = on_bind (signing_key_from_bytes J i.signing_key) _ i.signed λ key hk h1.
      on_bind (map_err (prehash (message_of w)) RedJubjubError.field_too_long) _ h1 λ bytes hb h2.
        on_bind (sign_hash_internal J (cred_hash J bytes) key) _ h2 λ sig hs h3.
          let same : key ≡ i.key = ok-injective (sym hk ∙ i.key_is) in
          let laid : bytes ≡ layout (message_of w) =
            prehash_ok-layout (message_of w)
              (map_err-ok (prehash (message_of w)) RedJubjubError.field_too_long hb) in
          Issued-of p w i sig
            (ap₂ (λ b k. sign_hash_internal J (cred_hash J b) k) (sym laid) (sym same) ∙ hs)
            (sym (ok-injective h3))

-- From the issuer to a satisfied circuit: where the curves are one, a credential of the circuit's
-- sizes that was committed and signed for a date that qualifies lets an honest prover synthesize
-- the circuit without an error, and every constraint holds, on a system that has exposed nothing and
-- has the packing of the public values as its inputs.
pub issued_credential_synthesizes :
    {B : Bellman} {M : Multipack} {J : Jubjub} {C : Curve} (U : Subgroup J C) (E : Exposing B M)
    (S : Sapling B C) (H : IsHonest B) (K : IsHonestSapling S) (X : IsHonestExposing E)
    (p : PublicValues) (w : AgeWitness) (s : B.System)
    → Assembly.IsTyped p
    → IsIssued J C p w
    → E.public_inputs ≡ packed M p
    → E.exposed s ≡ []
    → Returns B (synthesize E.pack_into_inputs S p (some w) s) s tt
issued_credential_synthesizes U E S H K X p w s t i inputs nothing =
    synthesize_complete E S H K X p w s t (IsIssued-Issued U p w i) inputs nothing
