-- ===== src/Prover/Attempts.antt =====
-- crypto-prover/src/lib.rs: `generate_proof_with_retry`. What one call of bellman's
-- `create_random_proof` does, a panic included, is an argument; each call draws its own randomness.
use provii_crypto.Prelude.{◌≡◌, ◌↔◌, ◌⊎◌, refl, arith, Result, ok, err}
use provii_crypto.Commons.{Error, prover_failed}

-- The result of a call that may panic; a synthesis error carries nothing that is used.
pub data Attempt (P : Type 0) : Type 0 where
  created : P → Attempt P
  synthesis_error unwound : Attempt P

-- What a function that may panic does.
pub data Unwinding (A : Type 0) : Type 0 where
  returned : Result Error A → Unwinding A
  panicked : Unwinding A

module _ {P : Type 0} where
  -- Attempt 2, after an error, without `catch_unwind`.
  abbrev pub after_error : Attempt P → Unwinding P
  after_error (created p) = returned (ok p)
  after_error synthesis_error = returned (err prover_failed)
  after_error unwound = panicked

  -- Attempt 3, after a panic, inside `catch_unwind`.
  abbrev pub after_panic : Attempt P → Unwinding P
  after_panic (created p) = returned (ok p)
  after_panic synthesis_error = returned (err prover_failed)
  after_panic unwound = returned (err prover_failed)

  abbrev pub retried : Attempt P → Attempt P → Unwinding P
  retried (created p) second = returned (ok p)
  retried synthesis_error second = after_error second
  retried unwound second = after_panic second

module _ {P Rng : Type 0} (create_random_proof : Rng → Attempt P) where
  unfoldable pub generate_proof_with_retry : Rng → Rng → Unwinding P
  generate_proof_with_retry rng fresh =
      retried (create_random_proof rng) (create_random_proof fresh)

  -- The generation returns a proof exactly when the first call creates it, or the first call fails
  -- or panics and the second creates it.
  pub generate_proof_with_retry_iff :
      (rng fresh : Rng) (p : P)
      → (generate_proof_with_retry rng fresh ≡ returned (ok p)) ↔ (
          (create_random_proof rng ≡ created p)
          ⊎ (((create_random_proof rng ≡ synthesis_error) ⊎ (create_random_proof rng ≡ unwound))
              × (create_random_proof fresh ≡ created p)))
  unfolding generate_proof_with_retry
  generate_proof_with_retry_iff rng fresh p =
      cases (create_random_proof rng) (create_random_proof fresh)
    where
      cases :
          (a b : Attempt P)
          → (retried a b ≡ returned (ok p))
            ↔ ((a ≡ created p) ⊎ (((a ≡ synthesis_error) ⊎ (a ≡ unwound)) × (b ≡ created p)))
      cases a b = ground arith

  -- Otherwise it reports `ProverFailed`, except that it panics when the first call fails with an
  -- error and the retry panics: that retry runs outside `catch_unwind`.
  pub generate_proof_with_retry_errors :
      (rng fresh : Rng)
      → ((p : P) → ¬ (generate_proof_with_retry rng fresh ≡ returned (ok p)))
      → ((create_random_proof rng ≡ synthesis_error) × (create_random_proof fresh ≡ unwound)
          → generate_proof_with_retry rng fresh ≡ panicked)
        × (¬ ((create_random_proof rng ≡ synthesis_error) × (create_random_proof fresh ≡ unwound))
            → generate_proof_with_retry rng fresh ≡ returned (err prover_failed))
  unfolding generate_proof_with_retry
  generate_proof_with_retry_errors rng fresh =
      cases (create_random_proof rng) (create_random_proof fresh)
    where
      cases :
          (a b : Attempt P)
          → ((p : P) → ¬ (retried a b ≡ returned (ok p)))
          → ((a ≡ synthesis_error) × (b ≡ unwound) → retried a b ≡ panicked)
            × (¬ ((a ≡ synthesis_error) × (b ≡ unwound))
                → retried a b ≡ returned (err prover_failed))
      cases (created p) b n = absurd (n p refl)
      cases synthesis_error (created p) n = absurd (n p refl)
      cases synthesis_error synthesis_error n = ground arith
      cases synthesis_error unwound n = ground arith
      cases unwound (created p) n = absurd (n p refl)
      cases unwound synthesis_error n = ground arith
      cases unwound unwound n = ground arith
