-- ===== src/Catchain.antt =====
-- catchain/src: the broadcast of blocks below the session.
pub mod Block
pub mod Times
pub mod Source
pub mod Delivery
pub mod Process
pub mod Graph
pub mod Causality
