-- ===== src/Gateway.antt =====
-- services/api-gateway: the choice of a backend and the hub of the websockets.

pub mod Balancer
pub mod Hub
pub mod Tests
