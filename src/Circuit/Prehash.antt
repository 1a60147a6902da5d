-- ===== src/Circuit/Prehash.antt =====
-- crypto-circuit-age/src/gadgets/prehash.rs: the bits of the credential preimage in the circuit.
pub mod Parity
pub mod Honest
mod Tests
use provii_crypto.Prelude.{ℕ, ◌*◌, ◌/◌, ◌%◌, List, [], ◌++◌, Bool, not, ◌==◌, leb, length, map}
use provii_crypto.Prelude.{Result, ok, err, ◌||◌, if◌then◌else◌}
use provii_crypto.Prelude.Bytes.{byte_bits}
use provii_crypto.Prelude
use provii_crypto.Commons.{cred_dst}
use provii_crypto.Circuit.Backend.{Boolean, constant, SynthesisError, unsatisfiable}
use mathlib.Core.List.{flat_map}

-- The eight constant wires of a byte.
abbrev pub constant_byte : ℕ → List Boolean
constant_byte b = map constant (byte_bits b)

unfoldable pub build_prehash_bits :
    List Boolean
    → List Boolean
    → List Boolean
    → List Boolean
    → List Boolean
    → List Boolean
    → Result SynthesisError (List Boolean)
build_prehash_bits v_bits kid_bits c_bytes_bits iat_bits_be exp_bits_be schema_bits =
    if not (length v_bits == 8)
    then err unsatisfiable
    else if not (length c_bytes_bits == 32 * 8)
    then err unsatisfiable
    else if not (length iat_bits_be == 64)
    then err unsatisfiable
    else if not (length exp_bits_be == 64)
    then err unsatisfiable
    else if not (length kid_bits % 8 == 0)
    then err unsatisfiable
    else if not (length schema_bits % 8 == 0)
    then err unsatisfiable
    else if leb 256 (length kid_bits / 8)
    then err unsatisfiable
    else if leb 256 (length schema_bits / 8)
    then err unsatisfiable
    else ok (
        (flat_map constant_byte cred_dst
          ++ (v_bits
              ++ (constant_byte (length kid_bits / 8)
                  ++ (kid_bits ++ (c_bytes_bits ++ (iat_bits_be ++ exp_bits_be))))))
        ++ (constant_byte (length schema_bits / 8) ++ schema_bits))
