-- ===== src/Circuit/Redjubjub/Honest.antt =====
-- Keys, signatures and their verification by an honest prover.
use provii_crypto.Prelude.{
  ℕ, ◌+◌, ◌*◌, ◌≡◌, ◌∙◌, arith, true, false, List, ◌++◌, some, length, map, take, drop, ◌==◌,
  ==_refl, ==_iff,
}
use provii_crypto.Prelude.Bytes.{value}
use provii_crypto.PublicInputs.{bits_le_from_bytes}
use provii_crypto.PublicInputs.Bytes.{bits_le_from_bytes-append, length-bits_le_from_bytes}
use provii_crypto.Circuit.Backend.{
  Bellman, Boolean, IsHonest, holds, known, zero_lc, add_one, add_num, sub_num, return, ◌>>◌,
}
use provii_crypto.Circuit.Bits.{enforce_that, enforce_bits_equal}
use provii_crypto.Circuit.Bits.Complete.{length-known}
use provii_crypto.Circuit.Runs.{
  Runs, Runs-bind, Runs-then, Runs-return, Runs-guarded, Runs-or_unsatisfiable, Runs-enforce,
  enforce_bits_equal-known,
}
use provii_crypto.Circuit.Accepts.{or_unsatisfiable}
use provii_crypto.Circuit.Alloc.{alloc_bytes_witness_fixed}
use provii_crypto.Circuit.Alloc.Honest.{alloc_bytes_witness-Runs, map-append}
use provii_crypto.Circuit.Curve.{Curve, Sapling, IsHonestSapling}
use provii_crypto.Circuit.Redjubjub.{
  RjVerificationKey, RjSignature, witness_point, vk_parts, alloc_vk, sig_parts, alloc_sig,
  get_generator_point, enforce_points_equal, verify_with_personalization,
}
use provii_crypto.Circuit.Redjubjub.Sound.{Equation, challenge}

module _ {B : Bellman} {C : Curve} (S : Sapling B C) (H : IsHonest B) (K : IsHonestSapling S) where
  -- The wires of a byte string.
  abbrev pub byte_wires : List ℕ → List Boolean
  byte_wires bytes = map known (bits_le_from_bytes bytes)

  witness_point-Runs : (p : C.Point) → C.is_small_order p ≡ false → Runs B (witness_point S p) p
  witness_point-Runs p large =
      Runs-bind B (S.witness (some p)) _ _ _ (record { on_run = K.witness_known p })
        (Runs-then B (S.assert_not_small_order p) (return p) p
          (record { on_run = λ s. K.not_small_order_known p s large }) (Runs-return B p))

  repr-Runs : (p : C.Point) → Runs B (S.repr p) (byte_wires (C.point_to_bytes p))
  repr-Runs p = record { on_run = K.repr_known p }

  -- The key that is allocated for an encoded point.
  abbrev pub key_wires : C.Point → RjVerificationKey S
  key_wires p = record { point = p; vk_bytes_bits = byte_wires (C.point_to_bytes p) }

  pub alloc_vk-Runs :
      (p : C.Point)
      → C.is_small_order p ≡ false
      → Runs B (alloc_vk S (some (C.point_to_bytes p))) (key_wires p)
  unfolding alloc_vk
  alloc_vk-Runs p large =
      let bytes = C.point_to_bytes p in
      let parts : Runs B (vk_parts S (some bytes)) (p, byte_wires bytes) =
        Runs-bind B (or_unsatisfiable (C.point_from_bytes bytes)) _ _ _
          (Runs-or_unsatisfiable B (C.point_from_bytes bytes) p (C.point_decodes p))
          (Runs-bind B (witness_point S p) _ _ _ (witness_point-Runs p large) (
            Runs-bind B (alloc_bytes_witness_fixed B (some bytes) 32) _ _ _
              (alloc_bytes_witness-Runs B H bytes 32 (C.length-point_to_bytes p))
              (Runs-return B (p, byte_wires bytes)))) in
      Runs-bind B (vk_parts S (some bytes)) _ _ _ parts (
        Runs-bind B (S.repr p) _ _ _ (repr-Runs p) (
          Runs-then B (enforce_bits_equal B (byte_wires bytes) (byte_wires bytes))
            (return (key_wires p)) (key_wires p)
            (enforce_bits_equal-known B (bits_le_from_bytes bytes)) (Runs-return B (key_wires p))))

  -- The signature that is allocated for an encoded R and the bytes of s.
  abbrev pub signature_wires : C.Point → List ℕ → RjSignature S
  signature_wires r s_bytes = record {
    r_point = r;
    s_bytes_bits = byte_wires s_bytes;
    r_bytes_bits = byte_wires (C.point_to_bytes r);
  }

  pub alloc_sig-Runs :
      (r : C.Point) (s_bytes sig : List ℕ)
      → C.is_small_order r ≡ false
      → C.is_scalar s_bytes ≡ true
      → length s_bytes ≡ 32
      → take 32 sig ≡ C.point_to_bytes r
      → take 32 (drop 32 sig) ≡ s_bytes
      → Runs B (alloc_sig S (some sig)) (signature_wires r s_bytes)
  unfolding alloc_sig
  alloc_sig-Runs r s_bytes sig large scalar ls er es =
      let bytes = C.point_to_bytes r in
      let parts : Runs B (sig_parts S (some sig)) (r, byte_wires s_bytes, byte_wires bytes) =
        rw (er, es)
          (Runs-bind B (or_unsatisfiable (C.point_from_bytes bytes)) _ _ _
            (Runs-or_unsatisfiable B (C.point_from_bytes bytes) r (C.point_decodes r))
            (Runs-guarded B (C.is_scalar s_bytes) _ _ scalar (
              Runs-bind B (witness_point S r) _ _ _ (witness_point-Runs r large) (
                Runs-bind B (alloc_bytes_witness_fixed B (some bytes) 32) _ _ _
                  (alloc_bytes_witness-Runs B H bytes 32 (C.length-point_to_bytes r))
                  (Runs-bind B (alloc_bytes_witness_fixed B (some s_bytes) 32) _ _ _
                    (alloc_bytes_witness-Runs B H s_bytes 32 ls)
                    (Runs-return B (r, byte_wires s_bytes, byte_wires bytes))))))) in
      Runs-bind B (sig_parts S (some sig)) _ _ _ parts (
        Runs-bind B (S.repr r) _ _ _ (repr-Runs r) (
          Runs-then B (enforce_bits_equal B (byte_wires bytes) (byte_wires bytes))
            (return (signature_wires r s_bytes)) (signature_wires r s_bytes)
            (enforce_bits_equal-known B (bits_le_from_bytes bytes))
            (Runs-return B (signature_wires r s_bytes))))

  pinned_known :
      (x : ℕ) → holds B.modulus (add_num zero_lc x) (add_one zero_lc) (add_num zero_lc x) ≡ true
  pinned_known x = rw (both x) (==_refl _)
    where
      both : (x : ℕ) → (0 + x) * (0 + 1) + 0 * 0 + 0 ≡ (0 + x) * 0 + 0 * (0 + 1) + (0 + x)
      both x = omega arith

  same_known :
      (x : ℕ) → holds B.modulus (sub_num (add_num zero_lc x) x) (add_one zero_lc) zero_lc ≡ true
  same_known x = rw (both x) (==_refl _)
    where
      both : (x : ℕ) → (0 + x) * (0 + 1) + (0 + x) * 0 + 0 ≡ (0 + x) * 0 + (0 + x) * (0 + 1) + 0
      both x = omega arith

  get_generator_point-Runs : Runs B (get_generator_point S) C.generator
  unfolding get_generator_point
  get_generator_point-Runs =
      let u = add_num zero_lc (C.get_u C.generator) in
      let v = add_num zero_lc (C.get_v C.generator) in
      let one = add_one zero_lc in
      Runs-bind B (S.witness (some C.generator)) _ _ _
        (record { on_run = K.witness_known C.generator })
        (Runs-then B (enforce_that B u one u) (enforce_that B v one v >> return C.generator) _
          (Runs-enforce B u one u (pinned_known (C.get_u C.generator)))
          (Runs-then B (enforce_that B v one v) (return C.generator) _
            (Runs-enforce B v one v (pinned_known (C.get_v C.generator)))
            (Runs-return B C.generator)))

  enforce_points_equal-Runs : (p : C.Point) → Runs B (enforce_points_equal S p p) tt
  unfolding enforce_points_equal
  enforce_points_equal-Runs p =
      let du = sub_num (add_num zero_lc (C.get_u p)) (C.get_u p) in
      let dv = sub_num (add_num zero_lc (C.get_v p)) (C.get_v p) in
      let one = add_one zero_lc in
      Runs-then B (enforce_that B du one zero_lc) (enforce_that B dv one zero_lc) _
        (Runs-enforce B du one zero_lc (same_known (C.get_u p)))
        (Runs-enforce B dv one zero_lc (same_known (C.get_v p)))

  joined_wires :
      (xs ys zs : List ℕ)
      → byte_wires xs ++ (byte_wires ys ++ byte_wires zs) ≡ byte_wires (xs ++ (ys ++ zs))
  joined_wires xs ys zs = simp (bits_le_from_bytes-append, map-append)

  length-byte_wires : (bytes : List ℕ) → length (byte_wires bytes) ≡ 8 * length bytes
  length-byte_wires bytes =
      length-known (bits_le_from_bytes bytes) ∙ length-bits_le_from_bytes bytes

  -- The verification of a digest succeeds where the equation holds.
  pub verify_with_personalization-Runs :
      (vk r : C.Point) (s_bytes digest tag : List ℕ)
      → length digest ≡ 32
      → Equation C r (bits_le_from_bytes s_bytes) vk digest tag
      → Runs B
          (verify_with_personalization S
            (key_wires vk)
            (signature_wires r s_bytes)
            (byte_wires digest)
            tag)
          tt
  unfolding verify_with_personalization
  verify_with_personalization-Runs vk r s_bytes digest tag l equation =
      let message = C.point_to_bytes r ++ (C.point_to_bytes vk ++ digest) in
      let hash = challenge C r vk digest tag in
      let sum = C.point_add r (C.scale vk (value (bits_le_from_bytes hash))) in
      let finish : Runs B
          (enforce_points_equal S (C.scale C.generator (value (bits_le_from_bytes s_bytes))) sum)
          tt =
        rw equation (enforce_points_equal-Runs sum) in
      Runs-guarded B (length (byte_wires digest) == 256) _ _
        ((==_iff _ _).1 (omega (arith, length-byte_wires digest)))
        (rw (joined_wires (C.point_to_bytes r) (C.point_to_bytes vk) digest) (
          Runs-bind B (S.blake2s_gadget (byte_wires message) tag) _ _ _
            (record { on_run = K.blake2s_known message tag })
            (Runs-bind B (get_generator_point S) _ _ _ get_generator_point-Runs (
              Runs-bind B (S.mul C.generator (byte_wires s_bytes)) _ _ _
                (record { on_run = K.mul_known C.generator (bits_le_from_bytes s_bytes) })
                (Runs-bind B (S.mul vk (byte_wires hash)) _ _ _
                  (record { on_run = K.mul_known vk (bits_le_from_bytes hash) })
                  (Runs-bind B (S.add r (C.scale vk (value (bits_le_from_bytes hash)))) _ _ _
                    (record {
                      on_run = K.add_known r (C.scale vk (value (bits_le_from_bytes hash)));
                    })
                    finish))))))
