-- ===== src/Circuit/Synthesis/Honest.antt =====
-- The public inputs of an honest prover: the wires of step 0 and their five groups.
use provii_crypto.Prelude.{
  ◌<◌, ◌^◌, arith, ◌≡◌, refl, sym, ap, ap₂, ◌∙◌, Bool, true, false, List, [], ◌++◌, append_assoc,
  some, ok, map, get_elem?, if◌then◌else◌,
}
use mathlib.Core.List.{append-nil}
use provii_crypto.Prelude.Bytes.{bits_from}
use provii_crypto.Commons.{bias_for_circuit}
use provii_crypto.PublicInputs.{Multipack, PublicValues, bits_le_from_bytes, packed}
use provii_crypto.Circuit.Backend.{Bellman, IsHonest, known}
use provii_crypto.Circuit.Bits.Complete.{Returns}
use provii_crypto.Circuit.Alloc.{alloc_u32_input, alloc_bytes_input}
use provii_crypto.Circuit.Alloc.Honest.{alloc_u32_input-Runs, alloc_bytes_input-Runs}
use provii_crypto.Circuit.Age.Threshold.{day_bits}
use provii_crypto.Circuit.Accepts.{or_unsatisfiable}
use provii_crypto.Circuit.Runs.{Runs, Runs-bind, Runs-return, Runs-or_unsatisfiable}
use provii_crypto.Commons.Bias.{bias-lt}
use provii_crypto.PublicInputs.Assembly.{IsTyped}
use provii_crypto.Circuit.Synthesis.Words.{to_le_bytes-bits_from}
use provii_crypto.Circuit.Curve.{Exposing, IsHonestExposing}
use provii_crypto.Circuit.Synthesis.{PublicWires, alloc_public, pack_public}

-- The bits of the direction word.
abbrev pub direction_bits : Bool → List Bool
direction_bits over = bits_from 32 0 (if over then 1 else 0)

abbrev pub public_wires : PublicValues → PublicWires
public_wires p = record {
  direction_bit = known p.direction;
  dir_bits = map known (direction_bits p.direction);
  cutoff_bits = map known (day_bits p.cutoff_days);
  rp_hash_bits = map known (bits_le_from_bytes p.rp_hash);
  issuer_vk_bits_public = map known (bits_le_from_bytes p.issuer_vk_bytes);
  cred_nullifier_bits = map known (bits_le_from_bytes p.cred_nullifier);
}

first_bit : (over : Bool) → get_elem? (map known (direction_bits over)) 0 ≡ some (known over)
unfolding bits_from
first_bit true = refl
first_bit false = refl

module _ (B : Bellman) (H : IsHonest B) where
  pub alloc_public-Runs : (p : PublicValues) → Runs B (alloc_public B p) (public_wires p)
  unfolding alloc_public
  alloc_public-Runs p =
      let dir = if p.direction then 1 else 0 in
      let d = map known (direction_bits p.direction) in
      Runs-bind B (alloc_u32_input B dir) _ _ _ (alloc_u32_input-Runs B H dir) (
        Runs-bind B (or_unsatisfiable (get_elem? d 0)) _ _ _
          (Runs-or_unsatisfiable B (get_elem? d 0) (known p.direction) (first_bit p.direction))
          (Runs-bind B (alloc_u32_input B (bias_for_circuit p.cutoff_days)) _ _ _
            (alloc_u32_input-Runs B H (bias_for_circuit p.cutoff_days))
            (Runs-bind B (alloc_bytes_input B p.rp_hash) _ _ _
              (alloc_bytes_input-Runs B H p.rp_hash)
              (Runs-bind B (alloc_bytes_input B p.issuer_vk_bytes) _ _ _
                (alloc_bytes_input-Runs B H p.issuer_vk_bytes)
                (Runs-bind B (alloc_bytes_input B p.cred_nullifier) _ _ _
                  (alloc_bytes_input-Runs B H p.cred_nullifier)
                  (Runs-return B (public_wires p)))))))

module _ (M : Multipack) where
  open M use {Scalar, compute_multipacking}

  -- What the wires of step 0 pack to.
  abbrev pub honest_groups : PublicValues → List Scalar
  honest_groups p =
      compute_multipacking (direction_bits p.direction)
      ++ (compute_multipacking (day_bits p.cutoff_days)
          ++ (compute_multipacking (bits_le_from_bytes p.rp_hash)
              ++ (compute_multipacking (bits_le_from_bytes p.issuer_vk_bytes)
                  ++ compute_multipacking (bits_le_from_bytes p.cred_nullifier))))

  pub honest_groups-packed : (p : PublicValues) → IsTyped p → honest_groups p ≡ packed M p
  honest_groups-packed p t =
      let others =
        compute_multipacking (bits_le_from_bytes p.rp_hash)
        ++ (compute_multipacking (bits_le_from_bytes p.issuer_vk_bytes)
            ++ compute_multipacking (bits_le_from_bytes p.cred_nullifier)) in
      ap₂ (λ d c. compute_multipacking d ++ (compute_multipacking c ++ others))
        (sym (to_le_bytes-bits_from (if p.direction then 1 else 0) (flag_small p.direction)))
        (sym (to_le_bytes-bits_from (bias_for_circuit p.cutoff_days) (bias-lt p.cutoff_days t.0)))
    where
      flag_small : (over : Bool) → (if over then 1 else 0) < 2 ^ 32
      flag_small over = ground arith

module _ {B : Bellman} {M : Multipack} (E : Exposing B M) (X : IsHonestExposing E) where
  open M use {Scalar, compute_multipacking}

  -- The group is exposed, and the rest is still to come.
  packs :
      (us : List Bool) (s : B.System) (rest : List Scalar)
      → E.exposed s ++ (compute_multipacking us ++ rest) ≡ E.public_inputs
      → (t : B.System) × (E.pack_into_inputs (map known us) s ≡ ok (tt, t))
        × (B.is_satisfied t ≡ B.is_satisfied s)
        × (E.exposed t ++ rest ≡ E.public_inputs)
  packs us s rest e =
      let (t, run, same, exposes) = X.pack_known us s rest e in
      (
        t,
        run,
        same,
        ap (λ x. x ++ rest) exposes ∙ append_assoc (E.exposed s) (compute_multipacking us) rest ∙ e,
      )

  pub pack_public_complete :
      (p : PublicValues) (s : B.System)
      → E.exposed s ++ honest_groups M p ≡ E.public_inputs
      → Returns B (pack_public E.pack_into_inputs (public_wires p) s) s tt
  unfolding pack_public
  pack_public_complete p s e =
      let last = compute_multipacking (bits_le_from_bytes p.cred_nullifier) in
      let (s1, h1, q1, e1) = packs (direction_bits p.direction) s _ e in
      let (s2, h2, q2, e2) = packs (day_bits p.cutoff_days) s1 _ e1 in
      let (s3, h3, q3, e3) = packs (bits_le_from_bytes p.rp_hash) s2 _ e2 in
      let (s4, h4, q4, e4) = packs (bits_le_from_bytes p.issuer_vk_bytes) s3 last e3 in
      let (s5, h5, q5, e5) =
        packs (bits_le_from_bytes p.cred_nullifier) s4 []
          (ap (λ x. E.exposed s4 ++ x) (append-nil last) ∙ e4) in
      (s5, rw (h1, h2, h3, h4) h5, q5 ∙ q4 ∙ q3 ∙ q2 ∙ q1)
