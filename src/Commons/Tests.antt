-- ===== src/Commons/Tests.antt =====
-- Runs of the bias and of the size checks, and the theorems about them at concrete inputs.
use provii_crypto.Prelude.{◌≡◌, refl, err, replicate}
use provii_crypto.Prelude.Int.{pos, negsuc}
use provii_crypto.Commons.{bias_for_circuit, vec_to_array32, invalid_format}
use provii_crypto.Commons.{new_timestamp, invalid_input}

-- The values that the crate's own tests pin.
bias_runs : (bias_for_circuit (pos 0) ≡ 0x8000_0000) × (bias_for_circuit (negsuc 0) ≡ 0x7fff_ffff)
unfolding bias_for_circuit
bias_runs = (refl, refl)

short_slice : vec_to_array32 (replicate 31 0) ≡ err invalid_format
unfolding vec_to_array32
short_slice = refl

negative_nanos : new_timestamp (pos 0) (negsuc 0) ≡ err invalid_input
unfolding new_timestamp
negative_nanos = refl
