-- ===== src/Sel/Specific.antt =====
-- `sensor_specific_event_map` of vcompute/common/scripts/ipmi_sim/sel.py, sensor types 0x05 to 0x14.
use idic.Prelude.{ℕ, List, [], ◌∷◌}
use idic.Sel.Entry.{event, SpecificEvents}

unfoldable pub physical_security_events : SpecificEvents
physical_security_events =
    (0, event 0 0 0 "General Chassis Intrusion")
    ∷ (1, event 1 0 0 "Drive Bay intrusion")
    ∷ (2, event 2 0 0 "I/O Card area intrusion")
    ∷ (3, event 3 0 0 "Processor area intrusion")
    ∷ (4, event 4 0 0 "LAN Leash Lost (system is unplugged from LAN)")
    ∷ (5, event 5 0 0 "Unauthorized dock")
    ∷ (6, event 6 0 0 "FAN area intrusion (supports detection of hot plug fan tampering)")
    ∷ []

unfoldable pub security_violation_events : SpecificEvents
security_violation_events =
    (0, event 0 0 0 "Secure Mode (Front Panel Lockout) Violation attempt")
    ∷ (1, event 1 0 0 "Pre-boot Password Violation - user password")
    ∷ (2, event 2 0 0 "Pre-boot Password Violation attempt - setup password")
    ∷ (3, event 3 0 0 "Pre-boot Password Violation - network boot password")
    ∷ (4, event 4 0 0 "Other pre-boot Password Violation")
    ∷ (5, event 5 0 0 "Out-of-band Access Password Violation ")
    ∷ []

unfoldable pub processor_events : SpecificEvents
processor_events =
    (0, event 0 0 0 "IERR")
    ∷ (1, event 1 0 0 "Thermal Trip")
    ∷ (2, event 2 0 0 "FRB1/BIST failure ")
    ∷ (3, event 3 0 0 "FRB2/Hang in POST failure ")
    ∷ (4, event 4 0 0 "FRB3/Processor Startup/Initialization failure (CPU didn.t start) ")
    ∷ (5, event 5 0 0 "Configuration Error")
    ∷ (6, event 6 0 0 "SM BIOS Uncorrectable CPU-complex Error")
    ∷ (7, event 7 0 0 "Processor Presence detected ")
    ∷ (8, event 8 0 0 "Processor disabled")
    ∷ (9, event 9 0 0 "Terminator Presence Detected")
    ∷ (10, event 10 0 0 "Processor Automatically Throttled")
    ∷ (11, event 11 0 0 "Machine Check Exception (Uncorrectable)")
    ∷ (12, event 12 0 0 "Correctable Machine Check Error")
    ∷ []

unfoldable pub power_supply_events : SpecificEvents
power_supply_events =
    (0, event 0 0 0 "Presence detected ")
    ∷ (1, event 1 0 0 "Power Supply Failure detected ")
    ∷ (2, event 2 0 0 "Predictive Failure")
    ∷ (3, event 3 0 0 "Power Supply input lost (AC/DC)")
    ∷ (4, event 4 0 0 "Power Supply input lost or out-of-range")
    ∷ (5, event 5 0 0 "Power Supply input out-of-range, but presen")
    ∷ (
      6,
      event 54 0 0
          "Configuration error.Vendor mismatch, for power supplies that include this status",
    )
    ∷ (7, event 54 0 1 "Revision mismatch, for power supplies that include this status.")
    ∷ (8, event 54 0 2 "Processor missing")
    ∷ (9, event 54 0 3 "Power Supply rating mismatch")
    ∷ (10, event 54 0 4 "Voltage rating mismatch")
    ∷ []

unfoldable pub power_unit_events : SpecificEvents
power_unit_events =
    (0, event 0 0 0 "Power Off / Power Down ")
    ∷ (1, event 1 0 0 "Power Cycle")
    ∷ (2, event 2 0 0 "240VA Power Down")
    ∷ (3, event 3 0 0 "Interlock Power Down")
    ∷ (4, event 4 0 0 "AC lost / Power input lost ")
    ∷ (5, event 5 0 0 "Soft Power Control Failure")
    ∷ (6, event 6 0 0 "Power Unit Failure detected")
    ∷ (7, event 7 0 0 "Predictive Failure")
    ∷ []

unfoldable pub memory_events : SpecificEvents
memory_events =
    (0, event 0 0 0 "Correctable ECC / other correctable memory error")
    ∷ (1, event 1 0 0 "Uncorrectable ECC / other uncorrectable memory error ")
    ∷ (2, event 2 0 0 "Parity")
    ∷ (3, event 3 0 0 "Memory Scrub Failed (stuck bit)")
    ∷ (4, event 4 0 0 "Memory Device Disabled")
    ∷ (5, event 5 0 0 "Correctable ECC / other correctable memory error logging limit reached")
    ∷ (6, event 6 0 0 "Presence detected. Indicates presence of entity associated with the sensor")
    ∷ (
      7,
      event 7 0 0
          "Configuration error. Indicates a memory configuration error for the entity associated with the sensor",
    )
    ∷ (
      8,
      event 8 0 0
          "Spare. Indicates entity associated with the sensor represents a spare unit of memory",
    )
    ∷ (9, event 9 0 0 "Memory Automatically Throttled")
    ∷ (10, event 10 0 0 "Critical Overtemperature")
    ∷ []

unfoldable pub drive_slot_events : SpecificEvents
drive_slot_events =
    (0, event 0 0 0 "Drive Presence")
    ∷ (1, event 1 0 0 "Drive Fault")
    ∷ (2, event 2 0 0 "Predictive Failure")
    ∷ (3, event 3 0 0 "Hot Spare")
    ∷ (4, event 4 0 0 "Consistency Check / Parity Check in progress")
    ∷ (5, event 5 0 0 "In Critical Array")
    ∷ (6, event 6 0 0 "In Failed Array ")
    ∷ (7, event 7 0 0 "Rebuild/Remap in progress")
    ∷ (8, event 8 0 0 "Rebuild/Remap Aborted (was not completed normally)")
    ∷ []

unfoldable pub system_firmware_events : SpecificEvents
system_firmware_events =
    (0, event 0 0 0 "System Firmware Error (POST Error) ")
    ∷ (1, event 1 0 0 "System Firmware Hang")
    ∷ (2, event 2 0 0 "System Firmware Progress")
    ∷ []

unfoldable pub event_logging_events : SpecificEvents
event_logging_events =
    (0, event 0 0 0 "Correctable Memory Error Logging Disabled ")
    ∷ (1, event 1 0 0 "Event Type Logging Disabled")
    ∷ (2, event 2 0 0 "Log Area Reset/Cleared")
    ∷ (3, event 3 0 0 "All Event Logging Disabled")
    ∷ (4, event 4 0 0 "SEL Full")
    ∷ (5, event 5 0 0 "SEL Almost Full")
    ∷ (6, event 6 0 0 "Correctable Machine Check Error Logging Disabled")
    ∷ []

unfoldable pub watchdog_1_events : SpecificEvents
watchdog_1_events =
    (0, event 0 0 0 "BIOS Watchdog Reset ")
    ∷ (1, event 1 0 0 "OS Watchdog Reset ")
    ∷ (2, event 2 0 0 "OS Watchdog Shut Down")
    ∷ (3, event 3 0 0 "OS Watchdog Power Down")
    ∷ (4, event 4 0 0 "OS Watchdog Power Cycle")
    ∷ (5, event 5 0 0 "OS Watchdog NMI / Diagnostic Interrupt")
    ∷ (6, event 6 0 0 "OS Watchdog Expired, status only")
    ∷ (7, event 7 0 0 "OS Watchdog pre-timeout Interrupt, non-NMI")
    ∷ []

unfoldable pub system_event_events : SpecificEvents
system_event_events =
    (0, event 0 0 0 "System Reconfigured ")
    ∷ (1, event 1 0 0 "OEM System Boot Event ")
    ∷ (2, event 2 0 0 "Undetermined system hardware failure")
    ∷ (3, event 3 0 0 "Entry added to Auxiliary Log")
    ∷ (4, event 4 0 0 "PEF Action")
    ∷ (5, event 5 0 0 "Timestamp Clock Synch.")
    ∷ []

unfoldable pub critical_interrupt_events : SpecificEvents
critical_interrupt_events =
    (0, event 0 0 0 "Front Panel NMI / Diagnostic Interrupt ")
    ∷ (1, event 1 0 0 "Bus Timeout ")
    ∷ (2, event 2 0 0 "I/O channel check NMI ")
    ∷ (3, event 3 0 0 "Software NMI ")
    ∷ (4, event 4 0 0 "PCI PERR")
    ∷ (5, event 5 0 0 "PCI SERR")
    ∷ (6, event 6 0 0 "EISA Fail Safe Timeout")
    ∷ (7, event 7 0 0 "Bus Correctable Error")
    ∷ (8, event 8 0 0 "Bus Uncorrectable Error ")
    ∷ (9, event 9 0 0 "Fatal NMI (port 61h, bit 7)")
    ∷ (10, event 10 0 0 "Bus Fatal Error")
    ∷ (11, event 11 0 0 "Bus Degraded (bus operating in a degraded performance state)")
    ∷ []

unfoldable pub button_events : SpecificEvents
button_events =
    (0, event 0 0 0 "Power Button pressed")
    ∷ (1, event 1 0 0 "Sleep Button pressed")
    ∷ (2, event 2 0 0 "Reset Button pressed")
    ∷ (3, event 3 0 0 "FRU latch open")
    ∷ (4, event 4 0 0 "FRU service request button ")
    ∷ []

unfoldable pub specific_events_low : List (ℕ × SpecificEvents)
unfolding physical_security_events security_violation_events processor_events power_supply_events
    power_unit_events memory_events drive_slot_events system_firmware_events event_logging_events
    watchdog_1_events system_event_events critical_interrupt_events button_events
specific_events_low =
    (5, physical_security_events)
    ∷ (6, security_violation_events)
    ∷ (7, processor_events)
    ∷ (8, power_supply_events)
    ∷ (9, power_unit_events)
    ∷ (12, memory_events)
    ∷ (13, drive_slot_events)
    ∷ (15, system_firmware_events)
    ∷ (16, event_logging_events)
    ∷ (17, watchdog_1_events)
    ∷ (18, system_event_events)
    ∷ (19, critical_interrupt_events)
    ∷ (20, button_events)
    ∷ []
