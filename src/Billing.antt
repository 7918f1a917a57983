-- ===== src/Billing.antt =====
-- services/billing-payment-service: wallets and sessions, pricing, the database, the service.

pub mod Models
pub mod Wallets
pub mod World
pub mod Store
pub mod Service
pub mod Pricing
pub mod Tests
