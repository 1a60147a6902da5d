-- ===== src/Circuit/Redjubjub/Sound.antt =====
-- What an accepted key, signature and verification mean, in terms of points and byte strings.
use provii_crypto.Prelude.{
  ℕ, ◌+◌, ◌*◌, ◌%◌, ◌<◌, ◌≡◌, refl, sym, ap, ◌∙◌, arith, Bool, true, false, List, ◌++◌, length,
  Option, some, none, ◌==◌, take, drop,
}
use provii_crypto.Prelude.Bytes.{value}
use provii_crypto.PublicInputs.{bits_le_from_bytes}
use provii_crypto.PublicInputs.Bytes.{bits_le_from_bytes-append}
use provii_crypto.Circuit.Backend.{
  Bellman, Boolean, bits, same_residue, zero_lc, add_one, add_num, sub_num,
}
use provii_crypto.Circuit.Bits.{enforce_that, enforce_bits_equal}
use provii_crypto.Circuit.Alloc.{alloc_bytes_witness_fixed}
use provii_crypto.Circuit.Alloc.Sound.{alloc_bytes_sound}
use provii_crypto.Circuit.Accepts.{
  Accepts, Accepts-bind, Accepts-return, Accepts-map, Accepts-guarded, Accepts-enforce,
  Accepts-enforce_bits_equal, Accepts-or_unsatisfiable, or_unsatisfiable,
}
use provii_crypto.Circuit.Prehash.Parity.{bits-append}
use provii_crypto.Circuit.Curve.{Curve, Sapling, le_value}
use provii_crypto.Circuit.Redjubjub.{
  RjVerificationKey, RjSignature, witness_point, vk_parts, alloc_vk, sig_parts, alloc_sig,
  get_generator_point, enforce_points_equal, verify_with_personalization,
}

pinned :
    (q x c : ℕ)
    → x < q
    → c < q
    → (((0 + x) * (0 + 1) + 0 * 0 + 0) % q == ((0 + x) * 0 + 0 * (0 + 1) + (0 + c)) % q) ≡ true
    → x ≡ c
pinned q x c hx hc h = omega (
  arith,
  same_residue q ((0 + x) * (0 + 1) + 0 * 0 + 0) ((0 + x) * 0 + 0 * (0 + 1) + (0 + c)) (omega arith)
      (omega arith) h,
)

same :
    (q x y : ℕ)
    → x < q
    → y < q
    → (((0 + x) * (0 + 1) + (0 + y) * 0 + 0) % q == ((0 + x) * 0 + (0 + y) * (0 + 1) + 0) % q)
      ≡ true
    → x ≡ y
same q x y hx hy h = omega (
  arith,
  same_residue q ((0 + x) * (0 + 1) + (0 + y) * 0 + 0) ((0 + x) * 0 + (0 + y) * (0 + 1) + 0)
      (omega arith) (omega arith) h,
)

module _ (C : Curve) where
  -- The challenge of a signature on a digest.
  abbrev pub challenge : C.Point → C.Point → List ℕ → List ℕ → List ℕ
  challenge r vk digest tag = C.blake2s tag (C.point_to_bytes r ++ (C.point_to_bytes vk ++ digest))

  -- `s * G == R + c * VK` on the whole curve, with s and c as the integers of their 256 bits.
  abbrev pub Equation : C.Point → List Bool → C.Point → List ℕ → List ℕ → Type 0
  Equation r s_bits vk digest tag =
      C.scale C.generator (value s_bits)
      ≡ C.point_add r (C.scale vk (le_value (challenge r vk digest tag)))

module _ {B : Bellman} {C : Curve} (S : Sapling B C) where
  -- The raw bits are those of the point's encoding, and the point is not of small order.
  abbrev pub IsEncoded : C.Point → List Boolean → Type 0
  IsEncoded p raw =
      (bits raw ≡ bits_le_from_bytes (C.point_to_bytes p)) × (C.is_small_order p ≡ false)

  witness_point_sound :
      (p : C.Point) → Accepts B (witness_point S p) (λ q. C.is_small_order q ≡ false)
  witness_point_sound p = Accepts-bind B (S.witness (some p)) _ _ (S.witness_sound (some p)) λ q.
      Accepts-bind B (S.assert_not_small_order q) _ _ (S.assert_not_small_order_sound q)
        λ _. Accepts-return B q λ h _. h

  get_generator_point_sound : Accepts B (get_generator_point S) (λ p. p ≡ C.generator)
  unfolding get_generator_point
  get_generator_point_sound =
      let at = λ (x : ℕ). add_num zero_lc x in
      let one = add_one zero_lc in
      let cu = at (C.get_u C.generator) in
      let cv = at (C.get_v C.generator) in
      Accepts-bind B (S.witness (some C.generator)) _ _ (S.witness_sound (some C.generator)) λ g.
        Accepts-bind B (enforce_that B (at (C.get_u g)) one cu) _ _
          (Accepts-enforce B (at (C.get_u g)) one cu)
          λ _.
            Accepts-bind B (enforce_that B (at (C.get_v g)) one cv) _ _
              (Accepts-enforce B (at (C.get_v g)) one cv)
              λ _. Accepts-return B g λ v u _.
                let small = S.coordinates_small g in
                let small' = S.coordinates_small C.generator in
                C.coordinates_inj g C.generator
                  (pinned B.modulus (C.get_u g) (C.get_u C.generator) small.0 small'.0 u)
                  (pinned B.modulus (C.get_v g) (C.get_v C.generator) small.1 small'.1 v)

  enforce_points_equal_sound : (p q : C.Point) → Accepts B (enforce_points_equal S p q) (λ _. p ≡ q)
  unfolding enforce_points_equal
  enforce_points_equal_sound p q =
      let one = add_one zero_lc in
      let du = sub_num (add_num zero_lc (C.get_u p)) (C.get_u q) in
      let dv = sub_num (add_num zero_lc (C.get_v p)) (C.get_v q) in
      Accepts-bind B (enforce_that B du one zero_lc) _ _ (Accepts-enforce B du one zero_lc) λ _.
        Accepts-map B (Accepts-enforce B dv one zero_lc) λ _ v u.
          let small = S.coordinates_small p in
          let small' = S.coordinates_small q in
          C.coordinates_inj p q (same B.modulus (C.get_u p) (C.get_u q) small.0 small'.0 u)
            (same B.modulus (C.get_v p) (C.get_v q) small.1 small'.1 v)

  vk_parts_sound :
      (o : Option (List ℕ))
      → Accepts B (vk_parts S o) (λ q. (C.is_small_order q.0 ≡ false) × (length q.1 ≡ 256))
  vk_parts_sound (some bytes) =
      Accepts-bind B (or_unsatisfiable (C.point_from_bytes bytes)) _ _
        (Accepts-or_unsatisfiable B (C.point_from_bytes bytes))
        λ affine. Accepts-bind B (witness_point S affine) _ _ (witness_point_sound affine) λ p.
          Accepts-bind B (alloc_bytes_witness_fixed B (some bytes) 32) _ _
            (alloc_bytes_sound B (some bytes) 32) λ raw. Accepts-return B (p, raw) λ l o _. (o, l)
  vk_parts_sound none =
      Accepts-bind B (witness_point S C.any_point) _ _ (witness_point_sound C.any_point) λ p.
        Accepts-bind B (alloc_bytes_witness_fixed B none 32) _ _ (alloc_bytes_sound B none 32)
          λ raw. Accepts-return B (p, raw) λ l o. (o, l)

  -- An accepted key is a point that is not of small order, and its raw bits are those of its
  -- encoding: no other byte string can be shown for it.
  pub alloc_vk_sound :
      (o : Option (List ℕ)) → Accepts B (alloc_vk S o) (λ k. IsEncoded k.point k.vk_bytes_bits)
  unfolding alloc_vk
  alloc_vk_sound o = Accepts-bind B (vk_parts S o) _ _ (vk_parts_sound o) λ q.
      Accepts-bind B (S.repr q.0) _ _ (S.repr_sound q.0) λ repr_bits.
        Accepts-bind B (enforce_bits_equal B repr_bits q.1) _ _
          (Accepts-enforce_bits_equal B repr_bits q.1)
          λ _.
            Accepts-return B (record { point = q.0; vk_bytes_bits = q.1 })
              λ same r parts. (sym same ∙ r, parts.0)

  sig_parts_sound :
      (o : Option (List ℕ))
      → Accepts B
          (sig_parts S o)
          (λ q. (C.is_small_order q.0 ≡ false) × (length q.1 ≡ 256) × (length q.2 ≡ 256))
  sig_parts_sound (some bytes) =
      let r_bytes = take 32 bytes in
      let s_bytes = take 32 (drop 32 bytes) in
      Accepts-bind B (or_unsatisfiable (C.point_from_bytes r_bytes)) _ _
        (Accepts-or_unsatisfiable B (C.point_from_bytes r_bytes))
        λ affine. Accepts-guarded B (C.is_scalar s_bytes) _ λ _.
          Accepts-bind B (witness_point S affine) _ _ (witness_point_sound affine) λ p.
            Accepts-bind B (alloc_bytes_witness_fixed B (some r_bytes) 32) _ _
              (alloc_bytes_sound B (some r_bytes) 32)
              λ r.
                Accepts-bind B (alloc_bytes_witness_fixed B (some s_bytes) 32) _ _
                  (alloc_bytes_sound B (some s_bytes) 32)
                  λ s. Accepts-return B (p, s, r) λ ls lr o _. (o, ls, lr)
  sig_parts_sound none =
      Accepts-bind B (witness_point S C.any_point) _ _ (witness_point_sound C.any_point) λ p.
        Accepts-bind B (alloc_bytes_witness_fixed B none 32) _ _ (alloc_bytes_sound B none 32) λ r.
          Accepts-bind B (alloc_bytes_witness_fixed B none 32) _ _ (alloc_bytes_sound B none 32)
            λ s. Accepts-return B (p, s, r) λ ls lr o. (o, ls, lr)

  -- An accepted signature has an R that is not of small order, with the raw bits of its encoding,
  -- and 256 bits for s.
  pub alloc_sig_sound :
      (o : Option (List ℕ))
      → Accepts B
          (alloc_sig S o)
          (λ g. IsEncoded g.r_point g.r_bytes_bits × (length g.s_bytes_bits ≡ 256))
  unfolding alloc_sig
  alloc_sig_sound o = Accepts-bind B (sig_parts S o) _ _ (sig_parts_sound o) λ q.
      Accepts-bind B (S.repr q.0) _ _ (S.repr_sound q.0) λ repr_bits.
        Accepts-bind B (enforce_bits_equal B repr_bits q.2) _ _
          (Accepts-enforce_bits_equal B repr_bits q.2)
          λ _.
            Accepts-return B (record { r_point = q.0; s_bytes_bits = q.1; r_bytes_bits = q.2 })
              λ same r parts. ((sym same ∙ r, parts.0), parts.1)

  -- If the circuit accepts the verification of a digest under a key and a signature whose raw bits
  -- are those of their points, the Schnorr equation holds, with the host's challenge.
  pub verify_with_personalization_sound :
      (vk : RjVerificationKey S) (sig : RjSignature S) (prehash : List Boolean) (tag : List ℕ)
      → Accepts B (verify_with_personalization S vk sig prehash tag) (λ _.
        (digest : List ℕ)
        → bits prehash ≡ bits_le_from_bytes digest
        → IsEncoded vk.point vk.vk_bytes_bits
        → IsEncoded sig.r_point sig.r_bytes_bits
        → Equation C sig.r_point (bits sig.s_bytes_bits) vk.point digest tag)
  unfolding verify_with_personalization
  verify_with_personalization_sound vk sig prehash tag =
      let preimage = sig.r_bytes_bits ++ (vk.vk_bytes_bits ++ prehash) in
      Accepts-guarded B (length prehash == 256) _ λ _.
        Accepts-bind B (S.blake2s_gadget preimage tag) _ _ (S.blake2s_sound preimage tag) λ c.
          Accepts-bind B (get_generator_point S) _ _ get_generator_point_sound λ g.
            Accepts-bind B (S.mul g sig.s_bytes_bits) _ _ (S.mul_sound g sig.s_bytes_bits) λ sg.
              Accepts-bind B (S.mul vk.point c) _ _ (S.mul_sound vk.point c) λ cvk.
                Accepts-bind B (S.add sig.r_point cvk) _ _ (S.add_sound sig.r_point cvk) λ sum.
                  Accepts-map B (enforce_points_equal_sound sg sum)
                    λ _ same e_sum e_cvk e_sg e_g hashed digest hd hv hr.
                      let message : bits preimage
                          ≡ bits_le_from_bytes (
                              C.point_to_bytes sig.r_point
                              ++ (C.point_to_bytes vk.point ++ digest)) =
                        raw_bytes sig.r_bytes_bits vk.vk_bytes_bits prehash _ _ digest hr.0 hv.0
                          hd in
                      let c_bits = hashed _ message in
                      ap (λ p. C.scale p (value (bits sig.s_bytes_bits))) (sym e_g)
                      ∙ sym e_sg
                      ∙ same
                      ∙ e_sum
                      ∙ ap (C.point_add sig.r_point)
                          (e_cvk ∙ ap (λ b. C.scale vk.point (value b)) c_bits)
    where
      raw_bytes :
          (r v p : List Boolean) (rb vb pb : List ℕ)
          → bits r ≡ bits_le_from_bytes rb
          → bits v ≡ bits_le_from_bytes vb
          → bits p ≡ bits_le_from_bytes pb
          → bits (r ++ (v ++ p)) ≡ bits_le_from_bytes (rb ++ (vb ++ pb))
      raw_bytes r v p rb vb pb hr hv hp =
          rw
            (
              bits-append, bits-append, bits_le_from_bytes-append, bits_le_from_bytes-append, hr,
              hv, hp,
            )
            refl
