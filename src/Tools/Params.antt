-- ===== src/Tools/Params.antt =====
-- crypto-circuit-age/examples/gen_params.rs and check_key.rs: the ids and fingerprints of keys, the
-- comparison of a proving key with a verifying key, and the witness of the parameter generation.
-- Reading and writing of files, Groth16's own key generation and the terminal are left out.
pub mod Keys
pub mod SetupWitness
mod Tests
use provii_crypto.Prelude.{
  ℕ, zero, suc, ◌+◌, ◌-◌, ◌*◌, ◌/◌, ◌%◌, ◌≡◌, ◌&&◌, Bool, true, false, List, [], ◌∷◌, ◌++◌, Result,
  ok, err, map_err, ◌>>=◌, take, length, ◌==◌, bit_and, ◌^◌, if◌then◌else◌,
}
use provii_crypto.Prelude.Int.{ℤ, pos, of_bits32, ◌-ℤ◌}
use provii_crypto.Prelude.Bytes.{codes, bytes_eq, byte_bits}
use provii_crypto.Commit
use provii_crypto.Commit.{pedersen_commit_dob_validated}
use provii_crypto.Credential.{CredMsgV2}
use provii_crypto.PublicInputs.{PublicValues}
use provii_crypto.Signature.Primitives.{Jubjub}
use provii_crypto.Signature.{generate_keypair_with_rng, sign_cred_v2}
use provii_crypto.Circuit.Age.{AgeWitness}
use provii_crypto.Circuit.Curve.{Curve, pedersen_hash}

-- `u32::from_le_bytes` and, of eight bytes, `u64::from_le_bytes`.
abbrev pub from_le_bytes : List ℕ → ℕ
from_le_bytes [] = 0
from_le_bytes (b ∷ bytes) = b + 256 * from_le_bytes bytes

-- What analysing a key file finds: the file's size, the verifying key's number of public inputs, its
-- fingerprint and its id. Fingerprints are the hash's bytes; the tool compares their hex digits.
pub record KeyInfo : Type 0 where
  pub file_size : ℕ
  pub num_public_inputs : ℕ
  pub vk_fingerprint : List ℕ
  pub vk_fingerprint_full : List ℕ
  pub vk_id : ℕ

module _ (blake2s256 : List ℕ → List ℕ) where
  abbrev pub compute_fingerprint : List ℕ → List ℕ
  compute_fingerprint vk_bytes = blake2s256 vk_bytes

  unfoldable pub compute_vk_id : List ℕ → ℕ
  compute_vk_id vk_bytes = from_le_bytes (take 4 (blake2s256 (codes "provii.vk.id.v0" ++ vk_bytes)))

  -- From the serialized verifying key and the length of its `ic`.
  unfoldable pub analyze : ℕ → List ℕ → ℕ → KeyInfo
  analyze file_size vk_bytes ic_len = record {
    file_size = file_size;
    num_public_inputs = ic_len - 1;
    vk_fingerprint = take 8 (compute_fingerprint vk_bytes);
    vk_fingerprint_full = compute_fingerprint vk_bytes;
    vk_id = compute_vk_id vk_bytes;
  }

-- `compatible`: the id is compared too, but a difference only warns.
unfoldable pub compatible : KeyInfo → KeyInfo → Bool
compatible pk vk =
    pk.num_public_inputs == vk.num_public_inputs && bytes_eq pk.vk_fingerprint vk.vk_fingerprint

-- The bit of each index: `((idx / 8) >> (idx % 8)) & 1 == 1`.
abbrev pub setup_bits : ℕ → ℕ → List Bool
setup_bits zero idx = []
setup_bits (suc left) idx = (bit_and ((idx / 8) / 2 ^ (idx % 8)) 1 == 1) ∷ setup_bits left (suc idx)

-- `(secs / 86400) as i32`.
abbrev pub epoch_days : ℕ → ℤ
epoch_days secs = of_bits32 (secs / 86_400 % 2 ^ 32)

-- The places where the tool unwraps.
pub data Panic : Type 0 where
  commitment_failed signature_failed : Panic

-- The cutoff of the tool: eighteen years of 365 days back.
abbrev pub setup_cutoff : ℕ → ℤ
setup_cutoff now = epoch_days now -ℤ pos 6570

-- The message that the tool signs.
abbrev pub setup_msg : List ℕ → CredMsgV2
setup_msg c_bytes = record {
  v = 2;
  kid = codes "provii:2026-05";
  c = c_bytes;
  iat = 1735000000;
  exp = 1766536000;
  schema = codes "provii.age/0";
}

module _ (C : Curve) where
  unfoldable pub public_from_witness : AgeWitness → ℤ → List ℕ → Bool → PublicValues
  public_from_witness w cutoff_days rp_hash direction = record {
    direction = direction;
    cutoff_days = cutoff_days;
    rp_hash = rp_hash;
    issuer_vk_bytes = w.issuer_vk_bytes;
    cred_nullifier = Commit.pedersen_nullifier (pedersen_hash C) w.c_bytes;
  }

module _ (J : Jubjub) (C : Curve) where
  -- At a time in seconds, with the scalar that the seeded generator draws.
  unfoldable pub generate_valid_test_witness : ℕ → J.Scalar → Result Panic AgeWitness
  generate_valid_test_witness now drawn = do
    let dob_days = epoch_days now -ℤ pos 9855
    let r_bits = setup_bits 128 0
    c_bytes ←
        map_err (pedersen_commit_dob_validated (pedersen_hash C) dob_days r_bits) commitment_failed
    let keys = generate_keypair_with_rng J drawn
    sig_bytes ← map_err (sign_cred_v2 J (setup_msg c_bytes) keys.0) signature_failed
    ok (record {
      dob_days = dob_days;
      r_bits = r_bits;
      issuer_vk_bytes = keys.1;
      sig_rj_bytes = sig_bytes;
      v = 2;
      kid = codes "provii:2026-05";
      c_bytes = c_bytes;
      iat = 1735000000;
      exp = 1766536000;
      schema = codes "provii.age/0";
    })
