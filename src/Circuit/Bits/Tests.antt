-- ===== src/Circuit/Bits/Tests.antt =====
-- The gadgets run on concrete wires by an honest prover, and the theorems at those runs.
use provii_crypto.Prelude.{◌≡◌, refl, arith, Bool, true, false, List, [], ◌∷◌, map, ok}
use provii_crypto.Circuit.Backend.{Bellman, known, Counted, counted, honest, honest-IsHonest}
use provii_crypto.Circuit.Bits.{enforce_bits_equal, equal_bits, enforce_ge, conditional_swap}
use provii_crypto.Circuit.Bits.Complete.{Returns, enforce_ge_complete, conditional_swap_complete}

abbrev prover : Bellman
prover = counted honest

abbrev start : Counted
start = record { allocated = 0; satisfied = true }

-- 5 and 3, lowest bit first.
abbrev five : List Bool
five = true ∷ false ∷ true ∷ []

abbrev three : List Bool
three = true ∷ true ∷ false ∷ []

ge_run : Returns prover (enforce_ge prover (map known five) (map known three) start) start tt
ge_run = enforce_ge_complete prover honest-IsHonest five three start refl (omega arith)

swap_run :
    Returns prover
      (conditional_swap prover (known false) (map known five) (map known three) start)
      start
      (map known three, map known five)
swap_run = conditional_swap_complete prover honest-IsHonest false five three start refl

equal_run :
    (t : Counted) × (enforce_bits_equal prover (map known five) (map known five) start ≡ ok (tt, t))
    × (t.satisfied ≡ true)
unfolding enforce_bits_equal equal_bits
equal_run = (_, refl, refl)
