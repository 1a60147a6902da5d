-- ===== src/Circuit/Synthesis/Tests.antt =====
-- A synthesis on the two-point curve for a birth in 1960 under a cutoff in 2008, and the theorems at
-- it and at its parts.
use provii_crypto.Prelude.{◌≡◌, refl, arith, Bool, true, false, List, [], ◌++◌, some, ok, replicate}
use provii_crypto.Prelude.Int.{pos, negsuc}
use provii_crypto.Prelude.Bytes.{bits_from, to_le_bytes}
use provii_crypto.Commons.{bias_for_circuit}
use provii_crypto.PublicInputs.{PublicValues, packed, bits_le_from_bytes}
use provii_crypto.PublicInputs.Assembly.{IsTyped}
use provii_crypto.PublicInputs.Tests.{packing}
use provii_crypto.Signature.Primitives.{spending_key_gen_bytes}
use provii_crypto.Circuit.Age.{AgeWitness, age_check}
use provii_crypto.Circuit.Synthesis.{
  alloc_public, pack_public, alloc_fields, alloc_witness, check_sizes, check_issuer,
  check_nullifier, check_commitment, check_signature, constrain, synthesize,
}
use provii_crypto.Circuit.Bits.{
  swap_bit, swap_bits, conditional_swap, equal_bits, enforce_bits_equal, boolean_or, last_borrow,
  step_borrow, ge_rounds, enforce_ge,
}
use provii_crypto.Circuit.Alloc.{
  alloc_all, alloc_u32_input, alloc_u32_witness, alloc_u8_bits, alloc_u8_witness, alloc_be_bytes,
  alloc_u64_witness, alloc_bytes_input, alloc_bytes_witness_fixed, alloc_bool_vec_witness_fixed,
}
use provii_crypto.Circuit.Redjubjub.{
  get_vk_bytes_bits, alloc_vk, alloc_sig, get_generator_point, enforce_points_equal,
  verify_with_personalization, verify,
}
use provii_crypto.Circuit.Pedersen.{pedersen_nullifier, commit, enforce_bytes_equal, blake2s_256}
use provii_crypto.Circuit.Prehash.{build_prehash_bits}
use mathlib.Core.List.{flat_map}
use provii_crypto.Circuit.Synthesis.Statement.{Statement}
use provii_crypto.Commit
use provii_crypto.Circuit.Bits.Complete.{Returns}
use provii_crypto.Circuit.Synthesis.Issued.{Issued}
use provii_crypto.Circuit.Synthesis.Complete.{synthesize_complete}
use provii_crypto.Circuit.Synthesis.HonestExample.{
  exposing_system-IsHonest, gadgets-IsHonestSapling, exposing-IsHonestExposing,
}
use provii_crypto.Circuit.Synthesis.Sound.{synthesize_sound}
use provii_crypto.Circuit.Synthesis.TwoPoints.{two_points, encode, digest}
use provii_crypto.Circuit.Synthesis.Example.{Exposed, exposing_system, exposing, expose, gadgets}

abbrev pub public : PublicValues
public = record {
  direction = true;
  cutoff_days = pos 13880;
  rp_hash = digest;
  issuer_vk_bytes = spending_key_gen_bytes;
  cred_nullifier = encode false;
}

abbrev pub witness : AgeWitness
witness = record {
  dob_days = negsuc 3651;
  r_bits = replicate 128 true;
  issuer_vk_bytes = spending_key_gen_bytes;
  sig_rj_bytes = spending_key_gen_bytes ++ replicate 32 0;
  v = 2;
  kid = replicate 14 107;
  c_bytes = encode true;
  iat = 258;
  exp = 100000;
  schema = replicate 12 115;
}

abbrev pub inputs : List (List Bool)
inputs = packed packing public

abbrev pub start : Exposed
start = record { scalars = []; satisfied = true }

abbrev pub finish : Exposed
finish = record { scalars = inputs; satisfied = true }

pub run : synthesize (expose inputs) (gadgets inputs) public (some witness) start ≡ ok (tt, finish)
unfolding alloc_public pack_public alloc_fields alloc_witness check_sizes check_issuer
    check_nullifier check_commitment check_signature constrain synthesize age_check alloc_all
    alloc_be_bytes alloc_bool_vec_witness_fixed alloc_bytes_input alloc_bytes_witness_fixed
    alloc_sig alloc_u32_input alloc_u32_witness alloc_u64_witness alloc_u8_bits alloc_u8_witness
    alloc_vk blake2s_256 boolean_or build_prehash_bits commit conditional_swap enforce_bits_equal
    enforce_bytes_equal enforce_ge enforce_points_equal equal_bits ge_rounds get_generator_point
    get_vk_bytes_bits last_borrow pedersen_nullifier step_borrow swap_bit swap_bits verify
    verify_with_personalization flat_map bits_from bits_le_from_bytes to_le_bytes bias_for_circuit
run = refl

pub public-IsTyped : IsTyped public
public-IsTyped = omega arith

synthesize_sound_example : Statement two_points public
unfolding bits_le_from_bytes to_le_bytes bits_from bias_for_circuit
synthesize_sound_example =
    synthesize_sound (exposing inputs) (gadgets inputs) public (some witness) public start
      {t = finish} public-IsTyped public-IsTyped refl refl run refl

issued : Issued two_points public witness
unfolding Commit.pedersen_nullifier bits_le_from_bytes bits_from bias_for_circuit
issued = record {
  issuer_vk = true;
  r_point = true;
  s_bytes = replicate 32 0;
  message-IsTyped = omega arith;
  length-kid = refl;
  length-schema = refl;
  length-r_bits = refl;
  dob_days-IsI32 = omega arith;
  issuer_vk_is = refl;
  issuer_vk_not_small = refl;
  r_not_small = refl;
  s_is_scalar = refl;
  length-s_bytes = refl;
  sig_is = refl;
  c_opens = refl;
  public_vk_is = refl;
  cred_nullifier_is = refl;
  qualifies = omega arith;
  equation = refl;
}

synthesize_complete_example :
    Returns
      (exposing_system inputs)
      (synthesize (expose inputs) (gadgets inputs) public (some witness) start)
      start
      tt
synthesize_complete_example =
    synthesize_complete (exposing inputs) (gadgets inputs) (exposing_system-IsHonest inputs)
      (gadgets-IsHonestSapling inputs) (exposing-IsHonestExposing inputs) public witness start
      public-IsTyped issued refl refl
