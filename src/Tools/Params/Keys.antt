-- ===== src/Tools/Params/Keys.antt =====
-- The comparison of keys and the id of a verifying key.
use provii_crypto.Prelude.{
  ℕ, ◌-◌, ◌≡◌, ◌↔◌, ap, ap₂, ◌∙◌, arith, true, Bool, ◌&&◌, List, take, ◌==◌, ==_iff,
}
use provii_crypto.Prelude.Bytes.{bytes_eq, bytes_eq_sound, bytes_eq_refl}
use provii_crypto.Tools.Params.{analyze, compatible}

both_agree : (m n : ℕ) (x y : List ℕ) → ((m == n && bytes_eq x y) ≡ true) ↔ ((m ≡ n) × (x ≡ y))
both_agree m n x y = (
  λ e. let (a, b) = split (m == n) (bytes_eq x y) e in ((==_iff m n).0 a, bytes_eq_sound x y b),
  λ h. ap₂ ◌&&◌ ((==_iff m n).1 h.0) (ap (λ z. bytes_eq z y) h.1 ∙ bytes_eq_refl y),
)
  where
    split : (a b : Bool) → (a && b) ≡ true → (a ≡ true) × (b ≡ true)
    split a b e = ground arith

module _ (blake2s256 : List ℕ → List ℕ) where
  -- The checker calls two keys compatible exactly when they have equally many public inputs and the
  -- hashes of their verifying keys agree in the first eight bytes; their ids may differ.
  pub compatible_iff :
      (pk_size vk_size pk_ic vk_ic : ℕ) (pk_bytes vk_bytes : List ℕ)
      → (compatible
            (analyze blake2s256 pk_size pk_bytes pk_ic)
            (analyze blake2s256 vk_size vk_bytes vk_ic)
          ≡ true)
        ↔ ((pk_ic - 1 ≡ vk_ic - 1) × (take 8 (blake2s256 pk_bytes) ≡ take 8 (blake2s256 vk_bytes)))
  unfolding compatible analyze
  compatible_iff pk_size vk_size pk_ic vk_ic pk_bytes vk_bytes =
      both_agree (pk_ic - 1) (vk_ic - 1) (take 8 (blake2s256 pk_bytes))
        (take 8 (blake2s256 vk_bytes))
