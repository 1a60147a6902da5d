-- ===== src/Circuit.antt =====
-- crypto-circuit-age: the gadgets of the age circuit over bellman's constraint systems.
pub mod Backend
pub mod Bits
pub mod Accepts
pub mod Runs
pub mod Curve
pub mod Pedersen
pub mod Redjubjub
pub mod Alloc
pub mod Age
pub mod Constants
pub mod Prehash
pub mod Synthesis
