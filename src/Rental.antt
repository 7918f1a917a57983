-- ===== src/Rental.antt =====
-- services/rental-service/main.go: the rentals of GPU instances.

pub mod Store
pub mod Handlers
pub mod Exclusive
pub mod Serving
pub mod Tests
