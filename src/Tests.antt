-- ===== src/Tests.antt =====
-- Concrete runs of the modelled code.
mod Queues
mod Limits
mod Attempts
mod Dispatching
mod Sessions
mod Tiered
mod Counters
mod Files
mod Browsers
mod Joined
mod Routes
mod Restored
mod Rotating
