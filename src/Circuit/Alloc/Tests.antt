-- ===== src/Circuit/Alloc/Tests.antt =====
-- Allocations by an honest prover, and the theorems at them.
use provii_crypto.Prelude.{◌≡◌, refl, true, List, [], ◌∷◌, ok, some, none}
use provii_crypto.Circuit.Backend.{Bellman, Boolean, Counted, counted, honest}
use provii_crypto.Circuit.Alloc.{alloc_all}

abbrev prover : Bellman
prover = counted honest

abbrev start : Counted
start = record { allocated = 0; satisfied = true }

all_run :
    (wires : List Boolean) × (t : Counted) × (alloc_all prover (some true ∷ none ∷ []) start
      ≡ ok (wires, t))
unfolding alloc_all
all_run = (_, _, refl)
