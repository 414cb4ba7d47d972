-- ===== src/Command.antt =====
-- class Command_Handler of vcompute/common/scripts/ipmi_sim/command.py.
pub mod Docs
pub mod Framed
pub mod Dispatch
pub mod Kept
pub mod Typed
pub mod Lookup
pub mod SensorCommands
pub mod SelCommands
pub mod Handle
pub mod History
pub mod Refusals
pub mod UpperCase
