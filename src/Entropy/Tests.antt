-- ===== src/Entropy/Tests.antt =====
-- The count on short strings, and the theorem at one.
use provii_crypto.Prelude.{ℕ, ◌≡◌, refl, true, false, List, [], ◌∷◌}
use provii_crypto.Entropy.{count_unique, has_enough_unique}

abbrev pub eight : List ℕ
eight = 1 ∷ 2 ∷ 2 ∷ 3 ∷ 4 ∷ 5 ∷ 6 ∷ 7 ∷ 8 ∷ 1 ∷ []

eight_values : has_enough_unique eight ≡ true
unfolding has_enough_unique count_unique
eight_values = refl

repeated : has_enough_unique (9 ∷ 9 ∷ 9 ∷ 9 ∷ 9 ∷ 9 ∷ 9 ∷ 9 ∷ 9 ∷ []) ≡ false
unfolding has_enough_unique count_unique
repeated = refl
