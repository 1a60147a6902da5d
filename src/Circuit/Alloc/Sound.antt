-- ===== src/Circuit/Alloc/Sound.antt =====
-- Allocation in an accepted run: how many wires there are, and that public inputs are left alone.
use provii_crypto.Prelude.{
  ℕ, zero, suc, ◌*◌, ◌≡◌, refl, sym, ap, ◌∙◌, arith, Bool, List, [], ◌∷◌, ◌++◌, Option, some, none,
  map, replicate, length, length-append, ◌==◌, ==_iff, ok,
}
use mathlib.Core.Option
use provii_crypto.Prelude.Bytes.{bits_from, length-bits_from}
use provii_crypto.PublicInputs.{bits_le_from_bytes, Multipack}
use provii_crypto.PublicInputs.Bytes.{length-bits_le_from_bytes}
use provii_crypto.Circuit.Backend.{Bellman, Boolean, on_ok, return_inj}
use provii_crypto.Circuit.Curve.{Exposing}
use provii_crypto.Circuit.Accepts.{
  Accepts, Accepts-bind, Accepts-return, Accepts-map, Accepts-guarded, Accepts-alloc_all,
}
use provii_crypto.Circuit.Alloc.{
  wire_values, be_byte, alloc_all, alloc_u32_input, alloc_u32_witness, alloc_u8_bits,
  alloc_u8_witness, alloc_be_bytes, alloc_u64_witness, alloc_bytes_input, alloc_bytes_witness_fixed,
  alloc_bool_vec_witness_fixed,
}

length-map {ℓ κ} :
    {A : Type ℓ} {C : Type κ} (f : A → C) (xs : List A) → length (map f xs) ≡ length xs
length-map f [] = refl
length-map f (x ∷ xs) = ap suc (length-map f xs)

length-replicate {ℓ} : {A : Type ℓ} (n : ℕ) (a : A) → length (replicate n a) ≡ n
length-replicate zero a = refl
length-replicate (suc n) a = ap suc (length-replicate n a)

length-wire_values : (n : ℕ) (v : Option ℕ) → length (wire_values n v) ≡ n
length-wire_values n none = length-replicate n none
length-wire_values n (some v) = length-map some (bits_from n 0 v) ∙ length-bits_from n 0 v

module _ (B : Bellman) where
  pub alloc_u32_witness_sound :
      (v : Option ℕ) → Accepts B (alloc_u32_witness B v) (λ w. length w ≡ 32)
  unfolding alloc_u32_witness
  alloc_u32_witness_sound v =
      Accepts-map B (Accepts-alloc_all B (wire_values 32 v)) λ w l. l ∙ length-wire_values 32 v

  alloc_u8_bits_sound : (v : Option ℕ) → Accepts B (alloc_u8_bits B v) (λ w. length w ≡ 8)
  unfolding alloc_u8_bits
  alloc_u8_bits_sound v =
      Accepts-map B (Accepts-alloc_all B (wire_values 8 v)) λ w l. l ∙ length-wire_values 8 v

  pub alloc_u8_witness_sound : (v : Option ℕ) → Accepts B (alloc_u8_witness B v) (λ w. length w ≡ 8)
  unfolding alloc_u8_witness
  alloc_u8_witness_sound v = alloc_u8_bits_sound v

  be_bytes_sound :
      (left i : ℕ) (v : Option ℕ) → Accepts B (alloc_be_bytes B left i v) (λ w. length w ≡ 8 * left)
  unfolding alloc_be_bytes
  be_bytes_sound zero i v = Accepts-return B [] (omega arith)
  be_bytes_sound (suc left) i v =
      Accepts-bind B (alloc_u8_bits B (Option.map (be_byte i) v)) _ _
        (alloc_u8_bits_sound (Option.map (be_byte i) v))
        λ byte.
          Accepts-bind B (alloc_be_bytes B left (suc i) v) _ _ (be_bytes_sound left (suc i) v)
            λ rest. Accepts-return B (byte ++ rest) λ l r. omega (arith, length-append byte rest)

  pub alloc_u64_witness_sound :
      (v : Option ℕ) → Accepts B (alloc_u64_witness B v) (λ w. length w ≡ 64)
  unfolding alloc_u64_witness
  alloc_u64_witness_sound v = be_bytes_sound 8 0 v

  pub alloc_bytes_sound :
      (o : Option (List ℕ)) (n : ℕ)
      → Accepts B (alloc_bytes_witness_fixed B o n) (λ w. length w ≡ 8 * n)
  unfolding alloc_bytes_witness_fixed
  alloc_bytes_sound none n =
      Accepts-map B (Accepts-alloc_all B (replicate (n * 8) none))
        λ w l. l ∙ length-replicate (n * 8) none ∙ omega arith
  alloc_bytes_sound (some bytes) n =
      Accepts-guarded B (length bytes == n) (alloc_all B (map some (bits_le_from_bytes bytes))) λ e.
        Accepts-map B (Accepts-alloc_all B (map some (bits_le_from_bytes bytes))) λ w l.
          l
          ∙ length-map some (bits_le_from_bytes bytes)
          ∙ length-bits_le_from_bytes bytes
          ∙ ap (λ k. 8 * k) ((==_iff _ _).0 e)

  pub alloc_bool_vec_sound :
      (o : Option (List Bool)) (n : ℕ)
      → Accepts B (alloc_bool_vec_witness_fixed B o n) (λ w. length w ≡ n)
  unfolding alloc_bool_vec_witness_fixed
  alloc_bool_vec_sound none n =
      Accepts-map B (Accepts-alloc_all B (replicate n none)) λ w l. l ∙ length-replicate n none
  alloc_bool_vec_sound (some b) n =
      Accepts-guarded B (length b == n) (alloc_all B (map some b)) λ e.
        Accepts-map B (Accepts-alloc_all B (map some b))
          λ w l. l ∙ length-map some b ∙ (==_iff _ _).0 e

  pub alloc_u32_input_sound : (v : ℕ) → Accepts B (alloc_u32_input B v) (λ w. length w ≡ 32)
  unfolding alloc_u32_input
  alloc_u32_input_sound v =
      Accepts-map B (Accepts-alloc_all B (map some (bits_from 32 0 v)))
        λ w l. l ∙ length-map some (bits_from 32 0 v) ∙ length-bits_from 32 0 v

  pub alloc_bytes_input_sound :
      (bytes : List ℕ) → Accepts B (alloc_bytes_input B bytes) (λ w. length w ≡ 8 * length bytes)
  unfolding alloc_bytes_input
  alloc_bytes_input_sound bytes =
      Accepts-map B (Accepts-alloc_all B (map some (bits_le_from_bytes bytes)))
        λ w l. l ∙ length-map some (bits_le_from_bytes bytes) ∙ length-bits_le_from_bytes bytes

module _ {B : Bellman} {M : Multipack} (E : Exposing B M) where
  open E use {exposed}

  pub alloc_all_exposed :
      (values : List (Option Bool)) (s : B.System) {w : List Boolean} {t : B.System}
      → alloc_all B values s ≡ ok (w, t)
      → exposed t ≡ exposed s
  unfolding alloc_all
  alloc_all_exposed [] s h = ap exposed (sym (return_inj h).1)
  alloc_all_exposed (v ∷ values) s h = on_ok (B.alloc v s) _ h λ x s1 hx h1.
      on_ok (alloc_all B values s1) _ h1 λ xs s2 hxs h2.
        ap exposed (sym (return_inj h2).1)
        ∙ alloc_all_exposed values s1 hxs
        ∙ E.alloc_exposed v s hx

  pub alloc_u32_input_exposed :
      (v : ℕ) (s : B.System) {w : List Boolean} {t : B.System}
      → alloc_u32_input B v s ≡ ok (w, t)
      → exposed t ≡ exposed s
  unfolding alloc_u32_input
  alloc_u32_input_exposed v s h = alloc_all_exposed (map some (bits_from 32 0 v)) s h

  pub alloc_bytes_input_exposed :
      (bytes : List ℕ) (s : B.System) {w : List Boolean} {t : B.System}
      → alloc_bytes_input B bytes s ≡ ok (w, t)
      → exposed t ≡ exposed s
  unfolding alloc_bytes_input
  alloc_bytes_input_exposed bytes s h = alloc_all_exposed (map some (bits_le_from_bytes bytes)) s h
