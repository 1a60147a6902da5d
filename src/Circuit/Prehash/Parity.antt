-- ===== src/Circuit/Prehash/Parity.antt =====
-- The circuit's preimage is the host's: on wires that carry the bits of a message's fields,
-- `build_prehash_bits` returns the bits of the bytes that `cred_v2_prehash_bytes` returns.
use provii_crypto.Prelude.{ℕ, suc, ◌/◌, ◌≡◌, refl, ap, ap₂, sym, ◌∙◌, arith}
use provii_crypto.Prelude.{List, [], ◌∷◌, ◌++◌, length, append_assoc, ok, map, Bool}
use provii_crypto.Prelude.Bytes.{byte_bits, length-bits_from, to_be_bytes, length-to_be_bytes}
use provii_crypto.Commons.{cred_dst}
use provii_crypto.Credential.{CredMsgV2, IsTyped, prehash}
use provii_crypto.Credential.Layout.{Fits, layout, prehash-Fits}
use provii_crypto.PublicInputs.{bits_le_from_bytes}
use provii_crypto.PublicInputs.Bytes.{bits_le_from_bytes-append, length-bits_le_from_bytes}
use provii_crypto.Circuit.Backend.{Boolean, constant, bits}
use provii_crypto.Circuit.Prehash.{constant_byte, build_prehash_bits}
use mathlib.Core.List.{flat_map}

pub bits-append : (xs ys : List Boolean) → bits (xs ++ ys) ≡ bits xs ++ bits ys
bits-append [] ys = refl
bits-append (x ∷ xs) ys = ap (λ t. x.bit ∷ t) (bits-append xs ys)

pub length-bits : (xs : List Boolean) → length (bits xs) ≡ length xs
length-bits [] = refl
length-bits (x ∷ xs) = ap suc (length-bits xs)

pub bits_le-cons :
    (x : ℕ) (xs : List ℕ) → bits_le_from_bytes (x ∷ xs) ≡ byte_bits x ++ bits_le_from_bytes xs
unfolding bits_le_from_bytes
bits_le-cons x xs = refl

pub bits_le-nil : bits_le_from_bytes [] ≡ []
unfolding bits_le_from_bytes
bits_le-nil = refl

pub bits-map-constant : (bs : List Bool) → bits (map constant bs) ≡ bs
bits-map-constant [] = refl
bits-map-constant (b ∷ bs) = ap (λ t. b ∷ t) (bits-map-constant bs)

pub bits-constant_bytes : (xs : List ℕ) → bits (flat_map constant_byte xs) ≡ bits_le_from_bytes xs
unfolding flat_map bits_le_from_bytes
bits-constant_bytes [] = refl
bits-constant_bytes (x ∷ xs) =
    bits-append (constant_byte x) (flat_map constant_byte xs)
    ∙ ap₂ ◌++◌ (bits-map-constant (byte_bits x)) (bits-constant_bytes xs)

-- The wires of the gadget carry the fields of a message, numbers highest byte first.
pub record Carries (m : CredMsgV2) (v kid c iat exp schema : List Boolean) : Type 0 where
  pub v_bits : bits v ≡ byte_bits m.v
  pub kid_bits : bits kid ≡ bits_le_from_bytes m.kid
  pub c_bits : bits c ≡ bits_le_from_bytes m.c
  pub iat_bits : bits iat ≡ bits_le_from_bytes (to_be_bytes 8 m.iat)
  pub exp_bits : bits exp ≡ bits_le_from_bytes (to_be_bytes 8 m.exp)
  pub schema_bits : bits schema ≡ bits_le_from_bytes m.schema

-- The wires that the gadget returns.
abbrev pub wires :
    List Boolean
    → List Boolean
    → List Boolean
    → List Boolean
    → List Boolean
    → List Boolean
    → ℕ
    → ℕ
    → List Boolean
wires v kid c iat exp schema kid_len schema_len =
    (flat_map constant_byte cred_dst
      ++ (v ++ (constant_byte kid_len ++ (kid ++ (c ++ (iat ++ exp))))))
    ++ (constant_byte schema_len ++ schema)

module _ (m : CredMsgV2) {v kid c iat exp schema : List Boolean}
    (w : Carries m v kid c iat exp schema) where
  bits-wires :
      bits (wires v kid c iat exp schema (length m.kid) (length m.schema))
      ≡ bits_le_from_bytes (layout m)
  bits-wires = simp (
    bits-append, bits-constant_bytes, bits-map-constant, w.v_bits, w.kid_bits, w.c_bits, w.iat_bits,
    w.exp_bits, w.schema_bits, bits_le_from_bytes-append, bits_le-cons, bits_le-nil, append_assoc,
  )

  pub build_succeeds :
      IsTyped m
      → Fits m
      → build_prehash_bits v kid c iat exp schema
        ≡ ok (wires v kid c iat exp schema (length m.kid) (length m.schema))
  unfolding build_prehash_bits
  build_succeeds t f =
      let lv : length v ≡ 8 = sym (length-bits v) ∙ ap length w.v_bits ∙ length-bits_from 8 0 m.v in
      let lk = sym (length-bits kid) ∙ ap length w.kid_bits ∙ length-bits_le_from_bytes m.kid in
      let lc = sym (length-bits c) ∙ ap length w.c_bits ∙ length-bits_le_from_bytes m.c in
      let li =
        sym (length-bits iat)
        ∙ ap length w.iat_bits
        ∙ length-bits_le_from_bytes (to_be_bytes 8 m.iat) in
      let le =
        sym (length-bits exp)
        ∙ ap length w.exp_bits
        ∙ length-bits_le_from_bytes (to_be_bytes 8 m.exp) in
      let ls =
        sym (length-bits schema) ∙ ap length w.schema_bits ∙ length-bits_le_from_bytes m.schema in
      let n8 = length-to_be_bytes 8 m.iat in
      let e8 = length-to_be_bytes 8 m.exp in
      let k : length kid / 8 ≡ length m.kid = omega arith in
      let s : length schema / 8 ≡ length m.schema = omega arith in rw (k, s) (ground arith)

  -- On wires that carry a typed message which fits, the gadget succeeds and its output carries the
  -- bits of exactly the bytes that the host prehash of that message returns.
  pub build_prehash_bits-prehash :
      IsTyped m
      → Fits m
      → (out : List Boolean) × (bytes : List ℕ) × (build_prehash_bits v kid c iat exp schema
          ≡ ok out)
        × (prehash m ≡ ok bytes)
        × (bits out ≡ bits_le_from_bytes bytes)
  build_prehash_bits-prehash t f = (
    wires v kid c iat exp schema (length m.kid) (length m.schema),
    layout m,
    build_succeeds t f,
    prehash-Fits m f,
    bits-wires,
  )
