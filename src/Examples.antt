-- ===== src/Examples.antt =====
-- Tests on concrete data, and each theorem at an input that meets its hypotheses.
-- The cards are those of a pack, as scenarios/simple.scn deals them.
pub mod Cards
pub mod Games
pub mod Messages
pub mod Handling
pub mod Reaching
pub mod Workers
pub mod Clients
pub mod Files
