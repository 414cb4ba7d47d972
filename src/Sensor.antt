-- ===== src/Sensor.antt =====
-- class Sensor of vcompute/common/scripts/ipmi_sim/sensor.py.
pub mod Attributes
mod Units
pub mod Reading
pub mod Drawing
pub mod Discrete
pub mod Events
pub mod Execute
pub mod Law
pub mod Typed
pub mod Framed
