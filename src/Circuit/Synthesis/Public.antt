-- ===== src/Circuit/Synthesis/Public.antt =====
-- The public inputs in an accepted run: the wires of step 0 carry what the verifier supplied.
use provii_crypto.Prelude.{
  ℕ, ◌+◌, ◌*◌, ◌/◌, ◌^◌, ◌<◌, ◌≡◌, sym, ap, ◌∙◌, arith, Bool, true, false, List, [], ◌∷◌, ◌++◌,
  length, append_inj, append_assoc, Option, some, none, ok, get_elem?, if◌then◌else◌,
}
use mathlib.Core.List.{append-nil}
use provii_crypto.Prelude.Bytes.{bits_from, to_le_bytes, length-to_le_bytes}
use provii_crypto.Commons.{bias_for_circuit}
use provii_crypto.Commons.Bias.{bias-lt}
use provii_crypto.PublicInputs.{Multipack, PublicValues, bits_le_from_bytes, packed}
use provii_crypto.PublicInputs.Bytes.{length-bits_le_from_bytes}
use provii_crypto.PublicInputs.Assembly.{IsTyped}
use provii_crypto.Circuit.Backend.{
  Bellman, Boolean, Synth, bits, on_ok, return_inj, ◌>>=◌, return, ok-ne-err,
}
use provii_crypto.Circuit.Prehash.Parity.{length-bits}
use provii_crypto.Circuit.Alloc.{alloc_u32_input, alloc_bytes_input}
use provii_crypto.Circuit.Alloc.Sound.{
  alloc_u32_input_sound, alloc_bytes_input_sound, alloc_u32_input_exposed,
  alloc_bytes_input_exposed,
}
use provii_crypto.Circuit.Age.Threshold.{day_bits}
use provii_crypto.Circuit.Accepts.{
  Accepts, Accepts-bind, Accepts-return, Accepts-or_unsatisfiable, or_unsatisfiable,
}
use provii_crypto.Circuit.Curve.{Exposing}
use provii_crypto.Circuit.Synthesis.{AgePublic, PublicWires, alloc_public, pack_public}
use provii_crypto.Circuit.Synthesis.Words.{to_le_bytes-bits_from}

-- As many wires as the values have bits, and the direction is the lowest of its 32.
pub record IsSized (p : AgePublic) (w : PublicWires) : Type 0 where
  pub dir_first : get_elem? w.dir_bits 0 ≡ some w.direction_bit
  pub dir_length : length w.dir_bits ≡ 32
  pub cutoff_length : length w.cutoff_bits ≡ 32
  pub rp_hash_length : length w.rp_hash_bits ≡ 8 * length p.rp_hash
  pub issuer_vk_length : length w.issuer_vk_bits_public ≡ 8 * length p.issuer_vk_bytes
  pub cred_nullifier_length : length w.cred_nullifier_bits ≡ 8 * length p.cred_nullifier

-- The wires carry the values.
pub record IsSupplied (p : PublicValues) (w : PublicWires) : Type 0 where
  pub direction_is : w.direction_bit.bit ≡ p.direction
  pub cutoff_is : bits w.cutoff_bits ≡ day_bits p.cutoff_days
  pub issuer_vk_is : bits w.issuer_vk_bits_public ≡ bits_le_from_bytes p.issuer_vk_bytes
  pub cred_nullifier_is : bits w.cred_nullifier_bits ≡ bits_le_from_bytes p.cred_nullifier

module _ (B : Bellman) where
  pub alloc_public_sound : (p : AgePublic) → Accepts B (alloc_public B p) (IsSized p)
  unfolding alloc_public
  alloc_public_sound p =
      let dir = if p.direction then 1 else 0 in
      let cutoff = bias_for_circuit p.cutoff_days in
      Accepts-bind B (alloc_u32_input B dir) _ _ (alloc_u32_input_sound B dir) λ d.
        Accepts-bind B (or_unsatisfiable (get_elem? d 0)) _ _
          (Accepts-or_unsatisfiable B (get_elem? d 0))
          λ b. Accepts-bind B (alloc_u32_input B cutoff) _ _ (alloc_u32_input_sound B cutoff) λ c.
            Accepts-bind B (alloc_bytes_input B p.rp_hash) _ _ (alloc_bytes_input_sound B p.rp_hash)
              λ r.
                Accepts-bind B (alloc_bytes_input B p.issuer_vk_bytes) _ _
                  (alloc_bytes_input_sound B p.issuer_vk_bytes)
                  λ i.
                    Accepts-bind B (alloc_bytes_input B p.cred_nullifier) _ _
                      (alloc_bytes_input_sound B p.cred_nullifier)
                      λ n.
                        Accepts-return B
                          (record {
                            direction_bit = b;
                            dir_bits = d;
                            cutoff_bits = c;
                            rp_hash_bits = r;
                            issuer_vk_bits_public = i;
                            cred_nullifier_bits = n;
                          })
                          λ ln li lr lc first ld. record {
                            dir_first = first;
                            dir_length = ld;
                            cutoff_length = lc;
                            rp_hash_length = lr;
                            issuer_vk_length = li;
                            cred_nullifier_length = ln;
                          }

module _ {B : Bellman} {M : Multipack} (E : Exposing B M) where
  open E use {exposed, public_inputs}
  open M use {Scalar, compute_multipacking}

  -- The run exposes nothing.
  record Silent {A : Type 0} (m : Synth B.System A) : Type 0 where
    on_run : (s : B.System) {a : A} {t : B.System} → m s ≡ ok (a, t) → exposed t ≡ exposed s

  Silent-bind :
      {A D : Type 0} (m : Synth B.System A) (f : A → Synth B.System D)
      → Silent m
      → ((a : A) → Silent (f a))
      → Silent (m >>= f)
  Silent-bind m f first rest = record {
    on_run = λ s h. on_ok (m s) f h λ a s1 e h1. (rest a).on_run s1 h1 ∙ first.on_run s e;
  }

  Silent-return : {A : Type 0} (a : A) → Silent (return a)
  Silent-return a = record { on_run = λ s h. ap exposed (sym (return_inj h).1) }

  Silent-or_unsatisfiable : {A : Type 0} (o : Option A) → Silent (or_unsatisfiable o)
  Silent-or_unsatisfiable none = record { on_run = λ s h. absurd (ok-ne-err h) }
  Silent-or_unsatisfiable (some a) = Silent-return a

  Silent-u32 : (v : ℕ) → Silent (alloc_u32_input B v)
  Silent-u32 v = record { on_run = alloc_u32_input_exposed E v }

  Silent-bytes : (bytes : List ℕ) → Silent (alloc_bytes_input B bytes)
  Silent-bytes bytes = record { on_run = alloc_bytes_input_exposed E bytes }

  alloc_public-Silent : (p : AgePublic) → Silent (alloc_public B p)
  unfolding alloc_public
  alloc_public-Silent p =
      Silent-bind (alloc_u32_input B (if p.direction then 1 else 0)) _ (Silent-u32 _) λ d.
        Silent-bind (or_unsatisfiable (get_elem? d 0)) _ (Silent-or_unsatisfiable (get_elem? d 0))
          λ b.
            Silent-bind (alloc_u32_input B (bias_for_circuit p.cutoff_days)) _ (Silent-u32 _) λ c.
              Silent-bind (alloc_bytes_input B p.rp_hash) _ (Silent-bytes _) λ r.
                Silent-bind (alloc_bytes_input B p.issuer_vk_bytes) _ (Silent-bytes _) λ i.
                  Silent-bind (alloc_bytes_input B p.cred_nullifier) _ (Silent-bytes _)
                    λ n. Silent-return _

  pub alloc_public_exposed :
      (p : AgePublic) (s : B.System) {w : PublicWires} {t : B.System}
      → alloc_public B p s ≡ ok (w, t)
      → exposed t ≡ exposed s
  alloc_public_exposed p s h = (alloc_public-Silent p).on_run s h

  -- What the five calls expose, in their order.
  abbrev pub groups : PublicWires → List Scalar
  groups w =
      compute_multipacking (bits w.dir_bits)
      ++ (compute_multipacking (bits w.cutoff_bits)
          ++ (compute_multipacking (bits w.rp_hash_bits)
              ++ (compute_multipacking (bits w.issuer_vk_bits_public)
                  ++ compute_multipacking (bits w.cred_nullifier_bits))))

  pub pack_public_sound :
      (w : PublicWires) (s : B.System) {t : B.System}
      → pack_public E.pack_into_inputs w s ≡ ok (tt, t)
      → B.is_satisfied t ≡ true
      → (B.is_satisfied s ≡ true) × (exposed t ≡ exposed s ++ groups w)
  unfolding pack_public
  pack_public_sound w s {t} h g = on_ok (E.pack_into_inputs w.dir_bits s) _ h λ _ s1 h1 k1.
      on_ok (E.pack_into_inputs w.cutoff_bits s1) _ k1 λ _ s2 h2 k2.
        on_ok (E.pack_into_inputs w.rp_hash_bits s2) _ k2 λ _ s3 h3 k3.
          on_ok (E.pack_into_inputs w.issuer_vk_bits_public s3) _ k3 λ _ s4 h4 h5.
            let (g4, e5) = E.pack_into_inputs_sound w.cred_nullifier_bits s4 h5 g in
            let (g3, e4) = E.pack_into_inputs_sound w.issuer_vk_bits_public s3 h4 g4 in
            let (g2, e3) = E.pack_into_inputs_sound w.rp_hash_bits s2 h3 g3 in
            let (g1, e2) = E.pack_into_inputs_sound w.cutoff_bits s1 h2 g2 in
            let (g0, e1) = E.pack_into_inputs_sound w.dir_bits s h1 g1 in
            (
              g0,
              joined (exposed s) (exposed s1) (exposed s2) (exposed s3) (exposed s4) (exposed t) _ _
                  _ _ _ e1 e2 e3 e4 e5,
            )
    where
      joined :
          (x x1 x2 x3 x4 x5 a b c d e : List Scalar)
          → x1 ≡ x ++ a
          → x2 ≡ x1 ++ b
          → x3 ≡ x2 ++ c
          → x4 ≡ x3 ++ d
          → x5 ≡ x4 ++ e
          → x5 ≡ x ++ (a ++ (b ++ (c ++ (d ++ e))))
      joined x x1 x2 x3 x4 x5 a b c d e h1 h2 h3 h4 h5 = rw (h5, h4, h3, h2, h1) (simp append_assoc)

  -- One group, in front of the others.
  peel :
      (wires : List Boolean) (bytes : List ℕ) (us vs : List Scalar)
      → length wires ≡ 8 * length bytes
      → compute_multipacking (bits wires) ++ us
        ≡ compute_multipacking (bits_le_from_bytes bytes) ++ vs
      → (bits wires ≡ bits_le_from_bytes bytes) × (us ≡ vs)
  peel wires bytes us vs l e =
      let lb : length (bits wires) ≡ length (bits_le_from_bytes bytes) =
        length-bits wires ∙ l ∙ sym (length-bits_le_from_bytes bytes) in
      let lc =
        M.length-compute_multipacking (bits wires)
        ∙ ap (λ n. (n + 253) / 254) lb
        ∙ sym (M.length-compute_multipacking (bits_le_from_bytes bytes)) in
      let (p, q) = append_inj (compute_multipacking (bits wires)) _ us vs lc e in
      (M.compute_multipacking_inj (bits wires) _ lb p, q)

  word :
      (wires : List Boolean) (v : ℕ) (us vs : List Scalar)
      → v < 2 ^ 32
      → length wires ≡ 32
      → compute_multipacking (bits wires) ++ us
        ≡ compute_multipacking (bits_le_from_bytes (to_le_bytes 4 v)) ++ vs
      → (bits wires ≡ bits_from 32 0 v) × (us ≡ vs)
  word wires v us vs small l e =
      let (p, q) = peel wires (to_le_bytes 4 v) us vs (omega (arith, length-to_le_bytes 4 v)) e in
      (p ∙ to_le_bytes-bits_from v small, q)

  bytes32 :
      (wires : List Boolean) (was bytes : List ℕ) (us vs : List Scalar)
      → length wires ≡ 8 * length was
      → length was ≡ 32
      → length bytes ≡ 32
      → compute_multipacking (bits wires) ++ us
        ≡ compute_multipacking (bits_le_from_bytes bytes) ++ vs
      → (bits wires ≡ bits_le_from_bytes bytes) × (us ≡ vs)
  bytes32 wires was bytes us vs l a b e = peel wires bytes us vs (omega arith) e

  first_of :
      (wires : List Boolean) (b : Boolean) (over : Bool)
      → get_elem? wires 0 ≡ some b
      → bits wires ≡ bits_from 32 0 (if over then 1 else 0)
      → b.bit ≡ over
  unfolding bits_from
  first_of [] b over h e = cc
  first_of (x ∷ wires) b true h e = cc
  first_of (x ∷ wires) b false h e = cc

  flag_small : (over : Bool) → (if over then 1 else 0) < 2 ^ 32
  flag_small over = ground arith

  -- Packed to the same scalars, the wires carry the supplied values.
  pub supplied :
      (q p : PublicValues) (w : PublicWires) (rest : List Scalar)
      → IsTyped q
      → IsTyped p
      → IsSized q w
      → groups w ++ rest ≡ packed M p
      → IsSupplied p w
  supplied q p w rest (tqc, tqr, tqi, tqn) (tpc, tpr, tpi, tpn) z e =
      let flat = simp append_assoc at e in
      let (d, e1) =
        word w.dir_bits (if p.direction then 1 else 0) _ _ (flag_small p.direction) z.dir_length
          flat in
      let (c, e2) =
        word w.cutoff_bits (bias_for_circuit p.cutoff_days) _ _ (bias-lt p.cutoff_days tpc)
          z.cutoff_length e1 in
      let (r, e3) =
        bytes32 w.rp_hash_bits q.rp_hash p.rp_hash _ _ z.rp_hash_length tqr.0 tpr.0 e2 in
      let (i, e4) =
        bytes32 w.issuer_vk_bits_public q.issuer_vk_bytes p.issuer_vk_bytes _ _ z.issuer_vk_length
          tqi.0 tpi.0 e3 in
      let (n, e5) =
        bytes32 w.cred_nullifier_bits q.cred_nullifier p.cred_nullifier _ [] z.cred_nullifier_length
          tqn.0 tpn.0 (e4 ∙ sym (append-nil _)) in
      record {
        direction_is = first_of w.dir_bits w.direction_bit p.direction z.dir_first d;
        cutoff_is = c;
        issuer_vk_is = i;
        cred_nullifier_is = n;
      }
