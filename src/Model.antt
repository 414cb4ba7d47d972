-- ===== src/Model.antt =====
-- The objects that the modules of vcompute/common/scripts/ipmi_sim share, and the state that their
-- functions read and write.
mod Sels
mod Sensors
mod State
mod Effects
pub mod Outcomes
pub mod Leads
pub use Sels.*
pub use Sensors.*
pub use State.*
pub use Effects.*
