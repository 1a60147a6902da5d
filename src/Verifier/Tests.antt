-- ===== src/Verifier/Tests.antt =====
-- A proof system whose keys and proofs are single bytes, and the theorems at concrete registries.
use provii_crypto.Prelude.{ℕ, ◌≡◌, ◌↔◌, refl, List, [], ◌∷◌, Option, some, none, ok, ◌==◌}
use provii_crypto.PublicInputs.Tests.{packing, values, values-IsTyped}
use provii_crypto.Verifier.{
  Groth16, VerifyResult, Cell, load_vk, load_entries, init_with_vk_registry, registered,
  verify_age_snark, set_registry, Keys,
}
use provii_crypto.Verifier.Registry.{
  Call, init_registry, verify, run, latest, loaded, init_with_vk_registry_once,
}
use provii_crypto.Verifier.Verification.{Accepted, verify_age_snark_iff}

-- The one byte of a string that has one.
abbrev only_byte : List ℕ → Option ℕ
only_byte (b ∷ []) = some b
only_byte bytes = none

abbrev bytewise : Groth16 packing
bytewise = record {
  VerifyingKey = ℕ;
  PreparedVerifyingKey = ℕ;
  Proof = ℕ;
  read_vk = only_byte;
  prepare_verifying_key = λ vk. vk;
  read_proof = only_byte;
  verify_proof = λ pvk proof inputs. pvk == proof;
}

-- Two keys for one id; the second counts.
abbrev entries : List (ℕ × List ℕ)
entries = (4, 11 ∷ []) ∷ (4, 12 ∷ []) ∷ []

abbrev calls : List (Call packing bytewise)
calls = init_registry entries ∷ verify (12 ∷ []) values 4 ∷ []

init_with_vk_registry_once_example :
    (◌≡◌ {A = Cell packing bytewise} none none)
    × ((k : ℕ)
        → registered packing bytewise
            (run packing bytewise calls (init_with_vk_registry packing bytewise entries none).1)
            k
          ≡ loaded packing bytewise (latest packing bytewise k entries) none)
unfolding init_with_vk_registry load_entries load_vk set_registry
init_with_vk_registry_once_example =
    init_with_vk_registry_once packing bytewise entries none calls refl

abbrev one_key : Keys packing bytewise
one_key = (4, 12) ∷ []

verify_age_snark_iff_example :
    (verify_age_snark packing bytewise (12 ∷ []) values 4 (some one_key)
      ≡ ok (record { inputs = values; vk_id = 4 }))
    ↔ (Accepted packing bytewise (12 ∷ []) values 4 (some one_key)
        × (◌≡◌ {A = VerifyResult}
            (record { inputs = values; vk_id = 4 })
            (record { inputs = values; vk_id = 4 })))
verify_age_snark_iff_example =
    verify_age_snark_iff packing bytewise (12 ∷ []) values 4 (some one_key)
      (record { inputs = values; vk_id = 4 }) values-IsTyped
