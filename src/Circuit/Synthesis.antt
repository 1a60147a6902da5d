-- ===== src/Circuit/Synthesis.antt =====
-- crypto-circuit-age/src/lib.rs: the synthesis of the age circuit, step by step, on top of the
-- gadgets.
pub mod Words
pub mod Public
pub mod Witness
pub mod Checks
pub mod Statement
pub mod Sound
pub mod Honest
pub mod Issued
pub mod Wired
pub mod Complete
pub mod TwoPoints
pub mod Example
pub mod HonestExample
pub mod Tests
use provii_crypto.Prelude.{ℕ, ◌*◌, Bool, List, Option, some, none, ◌==◌, length, get_elem?}
use provii_crypto.Prelude.{if◌then◌else◌}
use provii_crypto.Commons.{bias_for_circuit}
use provii_crypto.PublicInputs.{PublicValues}
use provii_crypto.Circuit.Backend.{Bellman, Boolean, Synth, return, ◌>>=◌, ◌>>◌}
use provii_crypto.Circuit.Bits.{require, enforce_bits_equal}
use provii_crypto.Circuit.Alloc.{
  alloc_u32_input, alloc_u32_witness, alloc_u8_witness, alloc_u64_witness, alloc_bytes_input,
  alloc_bytes_witness_fixed, alloc_bool_vec_witness_fixed,
}
use provii_crypto.Circuit.Age.{AgeWitness, age_check, kid_size_bytes, schema_size_bytes}
use provii_crypto.Circuit.Prehash.{build_prehash_bits}
use provii_crypto.Circuit.Curve.{Curve, Sapling}
use provii_crypto.Circuit.Pedersen.{pedersen_nullifier, commit, enforce_bytes_equal, blake2s_256}
use provii_crypto.Circuit.Redjubjub.{
  RjVerificationKey, RjSignature, get_vk_bytes_bits, alloc_vk, alloc_sig, verify,
}
use provii_crypto.Circuit.Accepts.{or_unsatisfiable, lift}

-- `AgePublic` has the fields of the assembly's values; the direction `Over` is `true`.
abbrev pub AgePublic : Type 0
AgePublic = PublicValues

pub record PublicWires : Type 0 where
  pub direction_bit : Boolean
  pub dir_bits : List Boolean
  pub cutoff_bits : List Boolean
  pub rp_hash_bits : List Boolean
  pub issuer_vk_bits_public : List Boolean
  pub cred_nullifier_bits : List Boolean

module _ (B : Bellman) where
  -- Step 0, the wires.
  pub alloc_public : AgePublic → Synth B.System PublicWires
  alloc_public p = do
    dir_bits ← alloc_u32_input B (if p.direction then 1 else 0)
    direction_bit ← or_unsatisfiable (get_elem? dir_bits 0)
    cutoff_bits ← alloc_u32_input B (bias_for_circuit p.cutoff_days)
    rp_hash_bits ← alloc_bytes_input B p.rp_hash
    issuer_vk_bits_public ← alloc_bytes_input B p.issuer_vk_bytes
    cred_nullifier_bits ← alloc_bytes_input B p.cred_nullifier
    return (record {
      direction_bit = direction_bit;
      dir_bits = dir_bits;
      cutoff_bits = cutoff_bits;
      rp_hash_bits = rp_hash_bits;
      issuer_vk_bits_public = issuer_vk_bits_public;
      cred_nullifier_bits = cred_nullifier_bits;
    })

module _ {System : Type 0} (pack_into_inputs : List Boolean → Synth System (Unit {0})) where
  -- Step 0, the five groups of public inputs, in the verifier's order.
  pub pack_public : PublicWires → Synth System (Unit {0})
  pack_public w = do
    pack_into_inputs w.dir_bits
    pack_into_inputs w.cutoff_bits
    pack_into_inputs w.rp_hash_bits
    pack_into_inputs w.issuer_vk_bits_public
    pack_into_inputs w.cred_nullifier_bits

module _ {B : Bellman} {C : Curve} (S : Sapling B C) where
  pub record WitnessWires : Type 0 where
    pub dob_bits : List Boolean
    pub r_bits : List Boolean
    pub issuer_vk : RjVerificationKey S
    pub sig_rj : RjSignature S
    pub v_bits : List Boolean
    pub kid_bits : List Boolean
    pub c_bytes_bits : List Boolean
    pub iat_bits : List Boolean
    pub exp_bits : List Boolean
    pub schema_bits : List Boolean

  -- The ten allocations of step 1, in the order of the source; both branches make them.
  pub alloc_fields :
      Option ℕ
      → Option (List Bool)
      → Option (List ℕ)
      → Option (List ℕ)
      → Option ℕ
      → Option (List ℕ)
      → Option (List ℕ)
      → Option ℕ
      → Option ℕ
      → Option (List ℕ)
      → Synth B.System WitnessWires
  alloc_fields dob r vk sig v kid c iat exp schema = do
    dob_bits ← alloc_u32_witness B dob
    r_bits ← alloc_bool_vec_witness_fixed B r 128
    issuer_vk ← alloc_vk S vk
    sig_rj ← alloc_sig S sig
    v_bits ← alloc_u8_witness B v
    kid_bits ← alloc_bytes_witness_fixed B kid kid_size_bytes
    c_bytes_bits ← alloc_bytes_witness_fixed B c 32
    iat_bits ← alloc_u64_witness B iat
    exp_bits ← alloc_u64_witness B exp
    schema_bits ← alloc_bytes_witness_fixed B schema schema_size_bytes
    return (record {
      dob_bits = dob_bits;
      r_bits = r_bits;
      issuer_vk = issuer_vk;
      sig_rj = sig_rj;
      v_bits = v_bits;
      kid_bits = kid_bits;
      c_bytes_bits = c_bytes_bits;
      iat_bits = iat_bits;
      exp_bits = exp_bits;
      schema_bits = schema_bits;
    })

  pub alloc_witness : Option AgeWitness → Synth B.System WitnessWires
  alloc_witness (some w) = do
    require (length w.kid == kid_size_bytes)
    require (length w.schema == schema_size_bytes)
    require (length w.sig_rj_bytes == 64)
    require (length w.r_bits == 128)
    alloc_fields (some (bias_for_circuit w.dob_days)) (some w.r_bits) (some w.issuer_vk_bytes)
        (some w.sig_rj_bytes) (some w.v) (some w.kid) (some w.c_bytes) (some w.iat) (some w.exp)
        (some w.schema)
  alloc_witness none = alloc_fields none none none none none none none none none none

  pub check_sizes : WitnessWires → Synth B.System (Unit {0})
  check_sizes w = do
    require (length w.kid_bits == kid_size_bytes * 8)
    require (length w.schema_bits == schema_size_bytes * 8)
    require (length w.c_bytes_bits == 256)

  -- Step 2.
  pub check_issuer : PublicWires → WitnessWires → Synth B.System (Unit {0})
  check_issuer p w = do
    issuer_vk_bytes_bits ← get_vk_bytes_bits S w.issuer_vk
    enforce_bits_equal B issuer_vk_bytes_bits p.issuer_vk_bits_public

  -- Step 3.
  pub check_nullifier : PublicWires → WitnessWires → Synth B.System (Unit {0})
  check_nullifier p w = do
    computed_nullifier_bits ← pedersen_nullifier S w.c_bytes_bits
    enforce_bits_equal B computed_nullifier_bits p.cred_nullifier_bits

  -- Step 4.
  pub check_commitment : WitnessWires → Synth B.System (Unit {0})
  check_commitment w = do
    c_prime_bits ← commit S w.dob_bits w.r_bits
    enforce_bytes_equal S c_prime_bits w.c_bytes_bits

  -- Steps 6 to 8.
  pub check_signature : WitnessWires → Synth B.System (Unit {0})
  check_signature w = do
    message_bits ←
        lift (
          build_prehash_bits w.v_bits w.kid_bits w.c_bytes_bits w.iat_bits w.exp_bits w.schema_bits)
    prehash_bits256 ← blake2s_256 S message_bits
    require (length prehash_bits256 == 256)
    verify S w.issuer_vk w.sig_rj prehash_bits256

  -- Steps 1 to 8, behind the public inputs.
  pub constrain : PublicWires → Option AgeWitness → Synth B.System (Unit {0})
  constrain p witness = do
    w ← alloc_witness witness
    check_sizes w
    check_issuer p w
    check_nullifier p w
    check_commitment w
    age_check B p.direction_bit p.cutoff_bits w.dob_bits
    check_signature w

module _ {B : Bellman} {C : Curve} (pack_into_inputs : List Boolean → Synth B.System (Unit {0}))
    (S : Sapling B C) where
  pub synthesize : AgePublic → Option AgeWitness → Synth B.System (Unit {0})
  synthesize public witness = do
    p ← alloc_public B public
    pack_public pack_into_inputs p
    constrain S p witness
