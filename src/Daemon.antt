-- ===== src/Daemon.antt =====
-- clients/provider-daemon: the health of the GPUs and the handling of tasks.

pub mod Health
pub mod Tasks
pub mod Tests
