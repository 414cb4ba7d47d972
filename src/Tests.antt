-- ===== src/Tests.antt =====
-- Concrete states, and each theorem at one of them.
pub mod Fixture
pub mod Sensors
pub mod Commands
pub mod Threading
pub mod Dumps
pub mod Readings
pub mod Sessions
pub mod Registers
