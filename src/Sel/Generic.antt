-- ===== src/Sel/Generic.antt =====
-- `events_map` of vcompute/common/scripts/ipmi_sim/sel.py: the events of each generic event type.
-- CPython lists a dict with small integer keys in ascending order, which is the order here.
use idic.Prelude.{ℕ, String, List, [], ◌∷◌}

-- An event id with its description.
abbrev pub Events : Type 0
Events = List (ℕ × String)

unfoldable pub threshold_events : Events
threshold_events =
    (0, "Lower Non-critical - going low")
    ∷ (1, "Lower Non-critical - going high")
    ∷ (2, "Lower Critical - going low")
    ∷ (3, "Lower Critical - going high")
    ∷ (4, "Lower Non-recoverable - going low")
    ∷ (5, "Lower Non-recoverable - going high")
    ∷ (6, "Upper Non-critical - going low")
    ∷ (7, "Upper Non-critical - going high")
    ∷ (8, "Upper Critical - going low")
    ∷ (9, "Upper Critical - going high")
    ∷ (10, "Upper Non-recoverable - going low")
    ∷ (11, "Upper Non-recoverable - going high")
    ∷ []

unfoldable pub usage_events : Events
usage_events =
    (0, "Transition to Idle") ∷ (1, "Transition to Active") ∷ (2, "Transition to Busy") ∷ []

unfoldable pub state_events : Events
state_events = (0, "State Deasserted") ∷ (1, "State Asserted") ∷ []

unfoldable pub predictive_failure_events : Events
predictive_failure_events =
    (0, "Predictive Failure deasserted") ∷ (1, "Predictive Failure asserted") ∷ []

unfoldable pub limit_events : Events
limit_events = (0, "Limit Not Exceeded") ∷ (1, "Limit Exceeded") ∷ []

unfoldable pub performance_events : Events
performance_events = (0, "Performance Met") ∷ (1, "Performance Lags") ∷ []

unfoldable pub severity_events : Events
severity_events =
    (0, "transition to OK")
    ∷ (1, "transition to Non-Critical from OK")
    ∷ (2, "transition to Critical from less severe")
    ∷ (3, "transition to Non-recoverable from less severe")
    ∷ (4, "transition to Non-Critical from more severe")
    ∷ (5, "transition to Critical from Non-recoverable ")
    ∷ (6, "transition to Non-recoverable")
    ∷ (7, "Monitor ")
    ∷ (8, "Informational")
    ∷ []

unfoldable pub device_presence_events : Events
device_presence_events =
    (0, "Device Removed / Device Absent ") ∷ (1, "Device Inserted / Device Present") ∷ []

unfoldable pub device_enabled_events : Events
device_enabled_events = (0, "Device Disabled") ∷ (1, "Device Enabled ") ∷ []

unfoldable pub availability_events : Events
availability_events =
    (0, "transition to Running")
    ∷ (1, "transition to In Test")
    ∷ (2, "transition to Power Off")
    ∷ (3, "transition to On Line")
    ∷ (4, "ransition to Off Line")
    ∷ (5, "transition to Off Duty")
    ∷ (6, "transition to Degraded")
    ∷ (7, "transition to Power Save")
    ∷ (8, "Install Error ")
    ∷ []

unfoldable pub redundancy_events : Events
redundancy_events =
    (0, "Fully Redundant (formerly .Redundancy Regained.) ")
    ∷ (1, "Redundancy Lost Entered any non-redundant state")
    ∷ (2, "Redundancy Degraded Redundancy still exists, but at a less than full level.")
    ∷ (3, "Non-redundant Entered from Redundancy Degraded or Fully Redundant")
    ∷ (4, "Non-redundant Entered from Non-redundant:Insufficient Resources")
    ∷ (
      5,
      "Non-redundant:Insufficient Resources Unit is non-redundant and has insufficient resources to maintain normal operation.",
    )
    ∷ (
      6,
      "Redundancy Degraded from Fully Redundant Unit has lost some redundant resource(s) but is still in a redundant state",
    )
    ∷ (7, "Entered from Non-redundant:Sufficient Resources or Non-redundant:Insufficient Resources")
    ∷ []

unfoldable pub acpi_power_events : Events
acpi_power_events =
    (0, "D0 Power State")
    ∷ (1, "D1 Power State")
    ∷ (2, "D2 Power State")
    ∷ (3, "D3 Power State")
    ∷ []

unfoldable pub events_map : List (ℕ × Events)
unfolding threshold_events usage_events state_events predictive_failure_events limit_events
    performance_events severity_events device_presence_events device_enabled_events
    availability_events redundancy_events acpi_power_events
events_map =
    (1, threshold_events)
    ∷ (2, usage_events)
    ∷ (3, state_events)
    ∷ (4, predictive_failure_events)
    ∷ (5, limit_events)
    ∷ (6, performance_events)
    ∷ (7, severity_events)
    ∷ (8, device_presence_events)
    ∷ (9, device_enabled_events)
    ∷ (10, availability_events)
    ∷ (11, redundancy_events)
    ∷ (12, acpi_power_events)
    ∷ []
