-- ===== src/Autoscale.antt =====
-- crates/millipede-core/src/autoscale: how much runs at once, and how politely.
pub mod Aimd
pub mod DomainLimiter
