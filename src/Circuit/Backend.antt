-- ===== src/Circuit/Backend.antt =====
-- What the gadgets of crypto-circuit-age/src/gadgets use of the bellman and bls12_381 crates, as an
-- interface: constraint systems, Boolean wires, linear combinations and the scalar field.
-- A gadget runs against one assignment of the allocated bits, which a prover chooses; the interface
-- says what an accepted assignment must meet, and what an honest prover's assignment does meet.
mod Interface
mod Strategy
pub use Interface.*
pub use Strategy.*
