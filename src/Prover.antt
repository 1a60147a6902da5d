-- ===== src/Prover.antt =====
-- crypto-prover/src/lib.rs: the runtime configuration, the validation of a prover's inputs, the
-- attempts at a proof, and the proving of an age statement.
pub mod Runtime
pub mod Logger
pub mod Validation
pub mod Attempts
pub mod Proving
