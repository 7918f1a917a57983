-- ===== src/Registry.antt =====
-- services/provider-registry-service: the providers and their in-memory store.

pub mod Models
pub mod Store
pub mod Filters
pub mod Refinement
pub mod Histories
pub mod Heartbeats
pub mod Retries
pub mod Tests
