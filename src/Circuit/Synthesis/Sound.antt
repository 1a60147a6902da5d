-- ===== src/Circuit/Synthesis/Sound.antt =====
-- Soundness of the circuit: what an accepted synthesis proves of the verifier's values.
use provii_crypto.Prelude.{
  ℕ, ◌≤◌, ◌≡◌, sym, ap, ◌∙◌, arith, true, List, [], ◌++◌, Option, ok, All, if◌then◌else◌,
}
use mathlib.Core.Path.{subst}
use provii_crypto.Prelude.Bytes.{IsByte, value}
use provii_crypto.Prelude.Decode.{}
use provii_crypto.Commit
use provii_crypto.Commit.{note_commitment}
use provii_crypto.Credential.Layout.{Fits}
use provii_crypto.PublicInputs.{Multipack, PublicValues, bits_le_from_bytes, packed}
use provii_crypto.PublicInputs.Assembly.{IsTyped}
use provii_crypto.PublicInputs.Bytes.{bits_le_from_bytes_faithful}
use provii_crypto.Circuit.Backend.{Bellman, bits, on_ok}
use provii_crypto.Circuit.Prehash.Parity.{length-bits}
use provii_crypto.Circuit.Age.{AgeWitness, age_check}
use provii_crypto.Circuit.Age.Threshold.{Qualifies, Qualifies-of_le, age_check_order}
use provii_crypto.Circuit.Accepts.{Accepts, Accepts-bind, Accepts-map}
use provii_crypto.Circuit.Curve.{Curve, Sapling, Exposing, pedersen_hash}
use provii_crypto.Circuit.Pedersen.{}
use provii_crypto.Circuit.Pedersen.Parity.{}
use provii_crypto.Circuit.Synthesis.{
  AgePublic, PublicWires, WitnessWires, alloc_public, pack_public, alloc_witness, check_sizes,
  check_issuer, check_nullifier, check_commitment, constrain, synthesize,
}
use provii_crypto.Circuit.Synthesis.Public.{
  IsSupplied, alloc_public_sound, alloc_public_exposed, pack_public_sound, supplied, groups,
}
use provii_crypto.Circuit.Synthesis.Witness.{alloc_witness_sound}
use provii_crypto.Circuit.Synthesis.Checks.{
  check_sizes_sound, check_issuer_sound, check_nullifier_sound, check_commitment_sound,
  check_signature_sound,
}
use provii_crypto.Circuit.Synthesis.Statement.{Statement, spelling, day_of}

module _ {B : Bellman} {C : Curve} (S : Sapling B C) where
  -- What the age comparison establishes.
  abbrev Ordered : PublicWires → WitnessWires S → Type 0
  Ordered p w =
      value (if p.direction_bit.bit then bits w.dob_bits else bits p.cutoff_bits)
      ≤ value (if p.direction_bit.bit then bits p.cutoff_bits else bits w.dob_bits)

  age_check-Accepts :
      (p : PublicWires) (w : WitnessWires S)
      → Accepts B (age_check B p.direction_bit p.cutoff_bits w.dob_bits) (λ _. Ordered p w)
  age_check-Accepts p w = record {
    on_run = λ s h g. age_check_order B p.direction_bit p.cutoff_bits w.dob_bits s h g;
  }

  same_bytes :
      (xs ys : List ℕ)
      → All IsByte xs
      → All IsByte ys
      → bits_le_from_bytes xs ≡ bits_le_from_bytes ys
      → xs ≡ ys
  same_bytes xs ys hx hy e = (bits_le_from_bytes_faithful xs ys hx hy).1 e

  -- Steps 1 to 8 on wires that carry the supplied values.
  constrain_sound :
      (pw : PublicWires) (witness : Option AgeWitness)
      → Accepts B
          (constrain S pw witness)
          (λ _. (p : PublicValues) → IsTyped p → IsSupplied p pw → Statement C p)
  unfolding constrain Commit.pedersen_nullifier
  constrain_sound pw witness =
      Accepts-bind B (alloc_witness S witness) _ _ (alloc_witness_sound S witness) λ w.
        Accepts-bind B (check_sizes S w) _ _ (check_sizes_sound S w) λ _.
          Accepts-bind B (check_issuer S pw w) _ _ (check_issuer_sound S pw w) λ _.
            Accepts-bind B (check_nullifier S pw w) _ _ (check_nullifier_sound S pw w) λ _.
              Accepts-bind B (check_commitment S w) _ _ (check_commitment_sound S w) λ _.
                Accepts-bind B (age_check B pw.direction_bit pw.cutoff_bits w.dob_bits) _ _
                  (age_check-Accepts pw w)
                  λ _.
                    Accepts-map B (check_signature_sound S w)
                      λ _ signature order commitment nullifier issuer _ a p (tc, tr, ti, tn) u.
                        let point =
                          C.pedersen_point note_commitment (bits w.dob_bits ++ bits w.r_bits) in
                        let c = C.point_to_bytes point in
                        let lc = C.length-point_to_bytes point in
                        let ec = commitment (omega (arith, a.dob_length, a.r_length)) in
                        let sp = spelling S w c a (C.point_to_bytes-IsByte point) lc ec in
                        let (dob, dob_ok, dob_is) =
                          day_of (bits w.dob_bits) (length-bits w.dob_bits ∙ a.dob_length) in
                        let fits : Fits sp.message =
                          (omega (arith, sp.length-kid), omega (arith, sp.length-schema)) in
                        let (signed, signed_is, eq) =
                          signature sp.message sp.message-IsTyped fits sp.carries a.vk_encoded
                            a.sig_encoded in
                        let qualifies =
                          Qualifies-of_le pw.direction_bit.bit p.cutoff_days dob tc dob_ok
                            (rw (u.cutoff_is, dob_is) at order) in
                        record {
                          message = sp.message;
                          dob_days = dob;
                          r_bits = bits w.r_bits;
                          issuer_vk = w.issuer_vk.point;
                          r_point = w.sig_rj.r_point;
                          s_bits = bits w.sig_rj.s_bytes_bits;
                          signed = signed;
                          message-IsTyped = sp.message-IsTyped;
                          length-kid = sp.length-kid;
                          length-schema = sp.length-schema;
                          dob_days-IsI32 = dob_ok;
                          length-r_bits = length-bits w.r_bits ∙ a.r_length;
                          c_opens =
                              sp.c_is
                              ∙ ap (λ t. pedersen_hash C note_commitment (t ++ bits w.r_bits))
                                  dob_is;
                          cred_nullifier_is =
                              same_bytes p.cred_nullifier _ tn.1 (C.point_to_bytes-IsByte _)
                                (sym u.cred_nullifier_is ∙ nullifier c ec lc)
                              ∙ ap (Commit.pedersen_nullifier (pedersen_hash C)) (sym sp.c_is);
                          qualifies =
                              subst (λ b. Qualifies b p.cutoff_days dob) u.direction_is qualifies;
                          issuer_vk_is =
                              same_bytes _ p.issuer_vk_bytes
                                (C.point_to_bytes-IsByte w.issuer_vk.point) ti.1
                                (sym a.vk_encoded.0 ∙ issuer ∙ u.issuer_vk_is);
                          issuer_vk_not_small = a.vk_encoded.1;
                          signed_is = signed_is;
                          equation = eq;
                        }

module _ {B : Bellman} {M : Multipack} {C : Curve} (E : Exposing B M) (S : Sapling B C) where
  -- If the circuit is synthesized on a system that has exposed nothing, whatever the prover assigns,
  -- and the system is satisfied against the packing of the typed values that the verifier supplies,
  -- then the statement holds of these values.
  pub synthesize_sound :
      (public : AgePublic) (witness : Option AgeWitness) (p : PublicValues) (s : B.System)
      {t : B.System}
      → IsTyped public
      → IsTyped p
      → E.public_inputs ≡ packed M p
      → E.exposed s ≡ []
      → synthesize E.pack_into_inputs S public witness s ≡ ok (tt, t)
      → B.is_satisfied t ≡ true
      → Statement C p
  unfolding synthesize
  synthesize_sound public witness p s tq tp inputs nothing h g =
      on_ok (alloc_public B public s) _ h λ pw s1 h1 k1.
        on_ok (pack_public E.pack_into_inputs pw s1) _ k1 λ _ s2 h2 k2.
          let (g2, statement) = (constrain_sound S pw witness).on_run s2 k2 g in
          let (g1, exposes) = pack_public_sound E pw s1 h2 g2 in
          let (g0, sized) = (alloc_public_sound B public).on_run s h1 g1 in
          let (rest, agree) = E.agrees s2 g2 in
          let flat =
            ap (λ x. x ++ rest)
              (ap (λ x. x ++ groups E pw) (sym (alloc_public_exposed E public s h1 ∙ nothing))
                ∙ sym exposes)
            ∙ agree
            ∙ inputs in
          statement p tp (supplied E public p pw rest tq tp sized flat)
