-- ===== src/Circuit/Prehash/Honest.antt =====
-- The preimage of an honest prover: its wires are those of the host's bytes.
use provii_crypto.Prelude.{ℕ, ◌≡◌, ap, ◌∙◌, List, append_assoc, ok, map, length}
use provii_crypto.Prelude.Bytes.{byte_bits, to_be_bytes}
use provii_crypto.Credential.{CredMsgV2, IsTyped, prehash}
use provii_crypto.Credential.Layout.{Fits, layout, prehash-Fits}
use provii_crypto.PublicInputs.{bits_le_from_bytes}
use provii_crypto.PublicInputs.Bytes.{bits_le_from_bytes-append}
use provii_crypto.Circuit.Backend.{Boolean, known}
use provii_crypto.Circuit.Alloc.Honest.{map-append}
use provii_crypto.Circuit.Prehash.{build_prehash_bits}
use provii_crypto.Circuit.Prehash.Parity.{
  Carries, wires, build_succeeds, bits-map-constant, bits_le-cons, bits_le-nil,
}
use provii_crypto.Circuit.Pedersen.Honest.{constant_wires}

abbrev known_bytes : List ℕ → List Boolean
known_bytes bytes = map known (bits_le_from_bytes bytes)

module _ (m : CredMsgV2) where
  carried :
      Carries m
        (map known (byte_bits m.v))
        (known_bytes m.kid)
        (known_bytes m.c)
        (known_bytes (to_be_bytes 8 m.iat))
        (known_bytes (to_be_bytes 8 m.exp))
        (known_bytes m.schema)
  carried = record {
    v_bits = bits-map-constant (byte_bits m.v);
    kid_bits = bits-map-constant (bits_le_from_bytes m.kid);
    c_bits = bits-map-constant (bits_le_from_bytes m.c);
    iat_bits = bits-map-constant (bits_le_from_bytes (to_be_bytes 8 m.iat));
    exp_bits = bits-map-constant (bits_le_from_bytes (to_be_bytes 8 m.exp));
    schema_bits = bits-map-constant (bits_le_from_bytes m.schema);
  }

  known_bytes-layout :
      wires
        (map known (byte_bits m.v))
        (known_bytes m.kid)
        (known_bytes m.c)
        (known_bytes (to_be_bytes 8 m.iat))
        (known_bytes (to_be_bytes 8 m.exp))
        (known_bytes m.schema)
        (length m.kid)
        (length m.schema)
      ≡ known_bytes (layout m)
  known_bytes-layout = simp (
    constant_wires, bits_le_from_bytes-append, bits_le-cons, bits_le-nil, map-append, append_assoc,
  )

  pub build_prehash_bits-known :
      IsTyped m
      → Fits m
      → (prehash m ≡ ok (layout m))
        × (build_prehash_bits
              (map known (byte_bits m.v))
              (known_bytes m.kid)
              (known_bytes m.c)
              (known_bytes (to_be_bytes 8 m.iat))
              (known_bytes (to_be_bytes 8 m.exp))
              (known_bytes m.schema)
            ≡ ok (known_bytes (layout m)))
  build_prehash_bits-known t f =
      (prehash-Fits m f, build_succeeds m carried t f ∙ ap ok known_bytes-layout)
