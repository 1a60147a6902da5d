-- ===== src/Circuit/Prehash/Tests.antt =====
-- The wires of a concrete message, and the theorem at them.
use provii_crypto.Prelude.{ℕ, ◌≡◌, arith, List, map, ok}
use provii_crypto.Prelude.Bytes.{byte_bits, to_be_bytes}
use provii_crypto.Credential.{prehash}
use provii_crypto.Credential.Tests.{sample, sample-IsTyped}
use provii_crypto.PublicInputs.{bits_le_from_bytes}
use provii_crypto.Circuit.Backend.{Boolean, known, bits}
use provii_crypto.Circuit.Prehash.{build_prehash_bits}
use provii_crypto.Circuit.Prehash.Parity.{Carries, build_prehash_bits-prehash, bits-map-constant}

abbrev wires_of : List ℕ → List Boolean
wires_of bytes = map known (bits_le_from_bytes bytes)

sample_wires :
    Carries sample
      (map known (byte_bits sample.v))
      (wires_of sample.kid)
      (wires_of sample.c)
      (wires_of (to_be_bytes 8 sample.iat))
      (wires_of (to_be_bytes 8 sample.exp))
      (wires_of sample.schema)
sample_wires = record {
  v_bits = bits-map-constant _;
  kid_bits = bits-map-constant _;
  c_bits = bits-map-constant _;
  iat_bits = bits-map-constant _;
  exp_bits = bits-map-constant _;
  schema_bits = bits-map-constant _;
}

build_prehash_bits-prehash_example :
    (out : List Boolean) × (bytes : List ℕ) × (build_prehash_bits
        (map known (byte_bits sample.v))
        (wires_of sample.kid)
        (wires_of sample.c)
        (wires_of (to_be_bytes 8 sample.iat))
        (wires_of (to_be_bytes 8 sample.exp))
        (wires_of sample.schema)
      ≡ ok out)
    × (prehash sample ≡ ok bytes)
    × (bits out ≡ bits_le_from_bytes bytes)
build_prehash_bits-prehash_example =
    build_prehash_bits-prehash sample sample_wires sample-IsTyped (omega arith)
