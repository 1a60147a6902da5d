-- ===== src/Protocol/Nonce.antt =====
-- Nonce validation: the check for a nonzero byte adds nothing to the entropy check.
use provii_crypto.Prelude.{ℕ, zero, suc, ◌≤◌, ◌≡◌, ◌↔◌, arith}
use provii_crypto.Prelude.{true, false, List, [], ◌∷◌, ◌==◌, All, Bool-cases, inl, inr}
use provii_crypto.Prelude.Bytes.{IsByte}
use provii_crypto.Entropy.Count.{
  contains, unique_bytes, count_below, count_below_mono, has_enough_unique_iff,
}
use provii_crypto.Protocol.{has_sufficient_entropy, any_nonzero, validate_nonce}

only_zero :
    (xs : List ℕ) → any_nonzero xs ≡ false → (v : ℕ) → contains xs v ≡ true → (v == 0) ≡ true
only_zero [] h v c = cc
only_zero (x ∷ xs) h v c = ground (arith, only_zero xs (ground arith) v)

count_below_zero : (n : ℕ) → count_below n (λ v. v == 0) ≤ 1
unfolding count_below
count_below_zero zero = omega arith
count_below_zero (suc zero) = omega arith
count_below_zero (suc (suc n)) = ground (arith, count_below_zero (suc n))

-- A nonce is valid exactly when at least eight byte values occur in it.
pub validate_nonce_iff :
    (nonce : List ℕ) → All IsByte nonce → (validate_nonce nonce ≡ true) ↔ (8 ≤ unique_bytes nonce)
unfolding validate_nonce has_sufficient_entropy
validate_nonce_iff nonce h = elim (Bool-cases (any_nonzero nonce)) [
  | inl e ↦ rw e (has_enough_unique_iff nonce h)
  | inr e ↦
      let few : unique_bytes nonce ≤ 1 = omega (
        arith,
        count_below_mono 256 (contains nonce) (λ v. v == 0) (only_zero nonce e),
        count_below_zero 256,
      ) in
      rw e (λ f. cc, λ k. absurd (omega arith))
]
