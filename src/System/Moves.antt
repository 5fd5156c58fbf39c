-- ===== src/System/Moves.antt =====
-- Every turn keeps the invariant.
pub mod Host
pub mod Spe
pub mod Later
