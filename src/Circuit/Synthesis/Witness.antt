-- ===== src/Circuit/Synthesis/Witness.antt =====
-- The witness in an accepted run: how many wires step 1 allocates, whatever the prover assigns.
use provii_crypto.Prelude.{ℕ, ◌*◌, ◌≡◌, Bool, List, Option, some, none, length, ◌==◌}
use provii_crypto.Commons.{bias_for_circuit}
use provii_crypto.Circuit.Backend.{Bellman}
use provii_crypto.Circuit.Alloc.{
  alloc_u32_witness, alloc_u8_witness, alloc_u64_witness, alloc_bytes_witness_fixed,
  alloc_bool_vec_witness_fixed,
}
use provii_crypto.Circuit.Alloc.Sound.{
  alloc_u32_witness_sound, alloc_u8_witness_sound, alloc_u64_witness_sound, alloc_bytes_sound,
  alloc_bool_vec_sound,
}
use provii_crypto.Circuit.Age.{AgeWitness, kid_size_bytes, schema_size_bytes}
use provii_crypto.Circuit.Accepts.{Accepts, Accepts-bind, Accepts-return, Accepts-guarded}
use provii_crypto.Circuit.Curve.{Curve, Sapling}
use provii_crypto.Circuit.Redjubjub.{alloc_vk, alloc_sig}
use provii_crypto.Circuit.Redjubjub.Sound.{IsEncoded, alloc_vk_sound, alloc_sig_sound}
use provii_crypto.Circuit.Synthesis.{WitnessWires, alloc_fields, alloc_witness}

module _ {B : Bellman} {C : Curve} (S : Sapling B C) where
  pub record IsAllocated (w : WitnessWires S) : Type 0 where
    pub dob_length : length w.dob_bits ≡ 32
    pub r_length : length w.r_bits ≡ 128
    pub vk_encoded : IsEncoded S w.issuer_vk.point w.issuer_vk.vk_bytes_bits
    pub sig_encoded : IsEncoded S w.sig_rj.r_point w.sig_rj.r_bytes_bits
    pub s_length : length w.sig_rj.s_bytes_bits ≡ 256
    pub v_length : length w.v_bits ≡ 8
    pub kid_length : length w.kid_bits ≡ 8 * 14
    pub c_length : length w.c_bytes_bits ≡ 8 * 32
    pub iat_length : length w.iat_bits ≡ 64
    pub exp_length : length w.exp_bits ≡ 64
    pub schema_length : length w.schema_bits ≡ 8 * 12

  alloc_fields_sound :
      (dob : Option ℕ) (r : Option (List Bool)) (vk sig : Option (List ℕ)) (v : Option ℕ)
      (kid c : Option (List ℕ)) (iat exp : Option ℕ) (schema : Option (List ℕ))
      → Accepts B (alloc_fields S dob r vk sig v kid c iat exp schema) IsAllocated
  unfolding alloc_fields
  alloc_fields_sound dob r vk sig v kid c iat exp schema =
      Accepts-bind B (alloc_u32_witness B dob) _ _ (alloc_u32_witness_sound B dob) λ wd.
        Accepts-bind B (alloc_bool_vec_witness_fixed B r 128) _ _ (alloc_bool_vec_sound B r 128)
          λ wr. Accepts-bind B (alloc_vk S vk) _ _ (alloc_vk_sound S vk) λ wk.
            Accepts-bind B (alloc_sig S sig) _ _ (alloc_sig_sound S sig) λ ws.
              Accepts-bind B (alloc_u8_witness B v) _ _ (alloc_u8_witness_sound B v) λ wv.
                Accepts-bind B (alloc_bytes_witness_fixed B kid kid_size_bytes) _ _
                  (alloc_bytes_sound B kid kid_size_bytes)
                  λ wkid.
                    Accepts-bind B (alloc_bytes_witness_fixed B c 32) _ _ (alloc_bytes_sound B c 32)
                      λ wc.
                        Accepts-bind B (alloc_u64_witness B iat) _ _ (alloc_u64_witness_sound B iat)
                          λ wi.
                            Accepts-bind B (alloc_u64_witness B exp) _ _
                              (alloc_u64_witness_sound B exp)
                              λ we.
                                Accepts-bind B
                                  (alloc_bytes_witness_fixed B schema schema_size_bytes) _ _
                                  (alloc_bytes_sound B schema schema_size_bytes)
                                  λ wsch.
                                    Accepts-return B
                                      (record {
                                        dob_bits = wd;
                                        r_bits = wr;
                                        issuer_vk = wk;
                                        sig_rj = ws;
                                        v_bits = wv;
                                        kid_bits = wkid;
                                        c_bytes_bits = wc;
                                        iat_bits = wi;
                                        exp_bits = we;
                                        schema_bits = wsch;
                                      })
                                      λ lsch le li lc lkid lv sig_ok vk_ok lr ld. record {
                                        dob_length = ld;
                                        r_length = lr;
                                        vk_encoded = vk_ok;
                                        sig_encoded = sig_ok.0;
                                        s_length = sig_ok.1;
                                        v_length = lv;
                                        kid_length = lkid;
                                        c_length = lc;
                                        iat_length = li;
                                        exp_length = le;
                                        schema_length = lsch;
                                      }

  pub alloc_witness_sound :
      (witness : Option AgeWitness) → Accepts B (alloc_witness S witness) IsAllocated
  unfolding alloc_witness
  alloc_witness_sound none = alloc_fields_sound none none none none none none none none none none
  alloc_witness_sound (some w) = Accepts-guarded B (length w.kid == kid_size_bytes) _ λ _.
      Accepts-guarded B (length w.schema == schema_size_bytes) _ λ _.
        Accepts-guarded B (length w.sig_rj_bytes == 64) _ λ _.
          Accepts-guarded B (length w.r_bits == 128) _ λ _.
            alloc_fields_sound (some (bias_for_circuit w.dob_days)) (some w.r_bits)
              (some w.issuer_vk_bytes) (some w.sig_rj_bytes) (some w.v) (some w.kid)
              (some w.c_bytes) (some w.iat) (some w.exp) (some w.schema)
