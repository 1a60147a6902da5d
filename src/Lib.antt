-- ===== src/Lib.antt =====
-- A verification of provii-crypto, the library behind privacy-preserving age proofs: an issuer
-- commits to a date of birth and signs a credential, a holder proves in a Groth16 circuit over
-- BLS12-381 that the committed date is on one side of a public cutoff, and a verifier checks the
-- proof against a registered key.
--
-- The program's parts, and the files that model them:
--   Commons, Commons/Bias: crypto-commons/src/lib.rs and constants.rs. The error type, the domain
--     tags, `bias_for_circuit` and `unbias_from_circuit`, the size checks and `Timestamp::new`.
--   Credential, Credential/Layout: `CredMsgV2` and `cred_v2_prehash_bytes` of
--     crypto-commons/src/lib.rs, the bytes that issuers sign and that the circuit hashes.
--   Attestation: crypto-commons/src/attestation.rs, signed statements of a date of birth.
--   PublicInputs: crypto-public-inputs/src/lib.rs, from host values to field elements.
--   Signature: crypto-sig-redjubjub/src/lib.rs, keys, signatures and the two pairs of `sign` and
--     `verify` functions.
--   Verifier: crypto-verifier/src/lib.rs, the registry `VK_REGISTRY` and `verify_age_snark`. The
--     global cell is a value that each operation takes and returns. Verifier/Soundness composes it
--     with the circuit; the soundness of Groth16 for the registered key is its hypothesis.
--   Circuit/Backend: what the circuit uses of bellman. Circuit/Accepts and Circuit/Runs: rules for
--     what an accepted run establishes and for the run of an honest prover. Circuit/Bits and Circuit/Alloc: crypto-circuit-age/src/gadgets/bits.rs.
--     Circuit/Prehash: gadgets/prehash.rs. Circuit/Curve: the curve, the gadgets copied from
--     sapling-crypto and the public inputs, as interfaces. Circuit/Pedersen: gadgets/pedersen.rs and
--     blake2s.rs. Circuit/Redjubjub: gadgets/redjubjub.rs. Circuit/Age: the age comparison and
--     `AgeWitness::new`, Circuit/Synthesis: `synthesize`, of crypto-circuit-age/src/lib.rs.
--   Prover: crypto-prover/src/lib.rs. Runtime is the configuration, Validation the input checks,
--     Attempts the two calls of bellman's prover, Proving `prove_age_snark` and what surrounds it.
--   Commit: crypto-commit/src/lib.rs, commitments, nullifiers and their randomness.
--   Protocol: crypto-protocol/src/lib.rs and nonce.rs. Entropy: the count of distinct bytes that
--     nonce.rs and crypto-commit both write out.
--   Commons/Civil: `Display for Timestamp` of crypto-commons/src/lib.rs, with the Gregorian calendar as
--     its specification. Circuit/Constants: `compute_circuit_constants_hash`. Prover/Logger:
--     `DebugLogger` and `RuntimeConfig::new`.
--   Tools: tools/keygen, tools/issuer-gen and the examples gen_params.rs and check_key.rs of
--     crypto-circuit-age, as functions of their inputs, of the drawn scalars and of the date.
--   Issuance: the crates composed, from the issuer's signature to the verifier's answer. `Subgroup`
--     says that the curves of the two crates are one.
--   Prelude: lists, results, integers, bits and bytes that the parts share.
-- The credential's prehash is used by Signature on the host and by Circuit/Prehash in the circuit;
-- the bias is used by PublicInputs, Commit and Circuit/Age; Verifier calls PublicInputs; Prover runs
-- Circuit/Synthesis and PublicInputs, and its proofs go to Verifier.
--
-- Representation. A byte is a number below 256 and a byte string a list of them; strings are their
-- UTF-8 bytes. An `i32` or `i64` is an integer within bounds, and its bit pattern is written out. A
-- fallible function returns a `Result` with the source's errors; `?` is its bind. A gadget is a
-- function on the state of a constraint system, and a Boolean wire has the value that `get_value`
-- returns beside the value in the assignment that is checked, so that a prover may assign anything.
--
-- Parameters. bellman's constraint systems (`Bellman`), its Groth16 (`Groth16`, `Groth16Prover`) and
-- multipacking (`Multipack`, `Exposing`), the Jubjub group with the BLAKE2s hashes (`Jubjub` for
-- signatures, `Curve` for the circuit), the gadgets for points and hashes (`Sapling`), BLAKE2s and
-- Ed25519 (`Primitives`), SHA-256, base64url, JSON, the file system (`FileSystem`), Unicode's tables
-- and the Pedersen hash are arguments. Their records state
-- the documented laws that the code relies on, and the test modules hold concrete values of them. A
-- panic inside bellman's prover is one of its outcomes, and the clock and the platform are arguments.
--
-- Loops are recursion on the list or on the count of rounds. The only fuel is that of the chunks of
-- the commitment's randomness: each round takes at least one bit, so the number of bits is enough.
--
-- Not modelled: the gadgets copied from sapling-crypto, the calls of the logger within the proving,
-- the thread pool and the panic hook, the texts of errors, serde and `Debug` code, the wiping of
-- secrets, timing, the text that the tools print and the files of issuer-gen and gen_params.rs, the
-- manual test test_proof.rs, tests and scripts.
pub mod Prelude
pub mod Commons
pub mod Credential
pub mod PublicInputs
pub mod Signature
pub mod Tools
pub mod Verifier
pub mod Circuit
pub mod Entropy
pub mod Protocol
pub mod Commit
pub mod Attestation
pub mod Prover
pub mod Issuance
