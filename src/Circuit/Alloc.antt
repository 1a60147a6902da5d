-- ===== src/Circuit/Alloc.antt =====
-- crypto-circuit-age/src/gadgets/bits.rs: the functions that allocate a value's bits, lowest bit
-- of a byte first. `collect` stops at the first allocation that fails.
pub mod Wires
pub mod Sound
pub mod Honest
mod Tests
use provii_crypto.Prelude.{
  ℕ, zero, suc, ◌+◌, ◌-◌, ◌*◌, ◌/◌, ◌%◌, ◌^◌, bit_and, Bool, true, false, not, Option, some, none,
}
use provii_crypto.Prelude.{List, [], ◌∷◌, ◌++◌, ◌==◌, if◌then◌else◌, length, map, replicate}
use mathlib.Core.Option
use provii_crypto.Circuit.Backend.{
  Bellman, Boolean, Synth, return, fail, unsatisfiable, ◌>>=◌, ◌>>◌,
}
use provii_crypto.Circuit.Bits.{require}
use provii_crypto.Prelude.Bytes.{bits_from, byte_bits}
use provii_crypto.PublicInputs.{bits_le_from_bytes}

-- The values of `n` wires: those of a number, or unknown.
abbrev pub wire_values : ℕ → Option ℕ → List (Option Bool)
wire_values n none = replicate n none
wire_values n (some v) = map some (bits_from n 0 v)

-- `v.map(|v| ((v >> (8 * (7 - i))) & 0xff) as u8)`
abbrev pub be_byte : ℕ → ℕ → ℕ
be_byte i v = bit_and (v / 2 ^ (8 * (7 - i))) 0xff

module _ (B : Bellman) where
  open B use {System, alloc}

  unfoldable pub alloc_all : List (Option Bool) → Synth System (List Boolean)
  alloc_all [] = return []
  alloc_all (v ∷ values) = do wire ← alloc v; wires ← alloc_all values; return (wire ∷ wires)

  unfoldable pub alloc_u32_input : ℕ → Synth System (List Boolean)
  alloc_u32_input v = alloc_all (map some (bits_from 32 0 v))

  unfoldable pub alloc_u32_witness : Option ℕ → Synth System (List Boolean)
  alloc_u32_witness v = alloc_all (wire_values 32 v)

  unfoldable pub alloc_u8_bits : Option ℕ → Synth System (List Boolean)
  alloc_u8_bits v = alloc_all (wire_values 8 v)

  unfoldable pub alloc_u8_witness : Option ℕ → Synth System (List Boolean)
  alloc_u8_witness v = alloc_u8_bits v

  -- The loop for `i` in `i..i + left`.
  unfoldable pub alloc_be_bytes : ℕ → ℕ → Option ℕ → Synth System (List Boolean)
  alloc_be_bytes zero i v = return []
  alloc_be_bytes (suc left) i v = do
    byte ← alloc_u8_bits (Option.map (be_byte i) v)
    rest ← alloc_be_bytes left (suc i) v
    return (byte ++ rest)

  unfoldable pub alloc_u64_witness : Option ℕ → Synth System (List Boolean)
  alloc_u64_witness v = alloc_be_bytes 8 0 v

  unfoldable pub alloc_bytes_input : List ℕ → Synth System (List Boolean)
  alloc_bytes_input bytes = alloc_all (map some (bits_le_from_bytes bytes))

  unfoldable pub alloc_bytes_witness_fixed : Option (List ℕ) → ℕ → Synth System (List Boolean)
  alloc_bytes_witness_fixed none expected_bytes = alloc_all (replicate (expected_bytes * 8) none)
  alloc_bytes_witness_fixed (some bytes) expected_bytes = do
    require (length bytes == expected_bytes)
    alloc_all (map some (bits_le_from_bytes bytes))

  unfoldable pub alloc_bool_vec_witness_fixed : Option (List Bool) → ℕ → Synth System (List Boolean)
  alloc_bool_vec_witness_fixed none expected_len = alloc_all (replicate expected_len none)
  alloc_bool_vec_witness_fixed (some b) expected_len = do
    require (length b == expected_len)
    alloc_all (map some b)
