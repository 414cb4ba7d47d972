-- ===== src/Sel/SpecificMore.antt =====
-- `sensor_specific_event_map` of vcompute/common/scripts/ipmi_sim/sel.py, sensor types 0x19 to 0x2C.
use idic.Prelude.{ℕ, List, [], ◌∷◌}
use idic.Sel.Entry.{event, SpecificEvents}

unfoldable pub chip_set_events : SpecificEvents
chip_set_events =
    (0, event 0 0 0 "Soft Power Control Failure ") ∷ (1, event 1 0 0 "Thermal Trip") ∷ []

unfoldable pub cable_events : SpecificEvents
cable_events =
    (0, event 0 0 0 "Cable/Interconnect is connected")
    ∷ (1, event 1 0 0 "Configuration Error - Incorrect cable connected / Incorrect interconnection")
    ∷ []

unfoldable pub system_boot_events : SpecificEvents
system_boot_events =
    (0, event 0 0 0 "Initiated by power up")
    ∷ (1, event 1 0 0 "Initiated by hard reset")
    ∷ (2, event 2 0 0 "Initiated by warm reset")
    ∷ (3, event 3 0 0 "User requested PXE boot")
    ∷ (4, event 4 0 0 "Automatic boot to diagnostic")
    ∷ (5, event 5 0 0 "OS / run-time software initiated hard reset")
    ∷ (6, event 6 0 0 "OS / run-time software initiated warm reset ")
    ∷ (7, event 7 0 0 "System Restart")
    ∷ []

unfoldable pub boot_error_events : SpecificEvents
boot_error_events =
    (0, event 0 0 0 "No bootable media")
    ∷ (1, event 1 0 0 "Non-bootable diskette left in drive ")
    ∷ (2, event 2 0 0 "PXE Server not found")
    ∷ (3, event 3 0 0 "Invalid boot sector")
    ∷ (4, event 4 0 0 "Timeout waiting for user selection of boot source")
    ∷ []

unfoldable pub os_boot_events : SpecificEvents
os_boot_events =
    (0, event 0 0 0 "A: boot completed")
    ∷ (1, event 1 0 0 "C: boot completed")
    ∷ (2, event 2 0 0 "PXE boot completed")
    ∷ (3, event 3 0 0 "Diagnostic boot completed")
    ∷ (4, event 4 0 0 "CD-ROM boot completed ")
    ∷ (5, event 5 0 0 "ROM boot completed")
    ∷ (6, event 6 0 0 "boot completed - boot device not specified ")
    ∷ []

unfoldable pub os_stop_events : SpecificEvents
os_stop_events =
    (0, event 0 0 0 "Critical sStop during OS load / initialization")
    ∷ (1, event 1 0 0 "Run-time Critical Stop")
    ∷ (2, event 2 0 0 "OS Graceful Stop ")
    ∷ (3, event 3 0 0 "OS Graceful Shutdown")
    ∷ (4, event 4 0 0 "Soft Shutdown initiated by PEF")
    ∷ []

unfoldable pub slot_events : SpecificEvents
slot_events =
    (0, event 0 0 0 "Fault Status asserted")
    ∷ (1, event 1 0 0 "Identify Status asserted")
    ∷ (2, event 2 0 0 "Slot / Connector Device installed/attached")
    ∷ (3, event 3 0 0 "Slot / Connector Ready for Device Installation")
    ∷ (4, event 4 0 0 "Slot/Connector Ready for Device Removal")
    ∷ (5, event 5 0 0 "Slot Power is Off")
    ∷ (6, event 6 0 0 "Slot / Connector Device Removal Request")
    ∷ (7, event 7 0 0 "Interlock asserted")
    ∷ (8, event 8 0 0 "Slot is Disabled")
    ∷ (9, event 9 0 0 "Slot holds spare device")
    ∷ []

unfoldable pub acpi_power_state_events : SpecificEvents
acpi_power_state_events =
    (0, event 0 0 0 "S0 / G0 working")
    ∷ (1, event 1 0 0 "S1 sleeping with system h/w & processor context maintained")
    ∷ (2, event 2 0 0 "S2 sleeping, processor context lost")
    ∷ (3, event 3 0 0 "S3 sleeping, processor & h/w context lost, memory retained.")
    ∷ (4, event 4 0 0 "S4 non-volatile sleep / suspend-to disk")
    ∷ (5, event 5 0 0 "S5 / G2 soft-off")
    ∷ (6, event 6 0 0 "S4 / S5 soft-off, particular S4 / S5 state cannot be determined")
    ∷ (7, event 7 0 0 "G3 / Mechanical Off")
    ∷ (8, event 8 0 0 "Sleeping in an S1, S2, or S3 states")
    ∷ (9, event 9 0 0 "G1 sleeping (S1-S4 state cannot be determined)")
    ∷ (10, event 10 0 0 "S5 entered by override")
    ∷ (11, event 11 0 0 "Legacy ON state")
    ∷ (12, event 12 0 0 "Legacy OFF state")
    ∷ (13, event 13 0 0 "Unknown")
    ∷ []

unfoldable pub watchdog_2_events : SpecificEvents
watchdog_2_events =
    (0, event 0 0 0 "Timer expired, status only")
    ∷ (1, event 1 0 0 "Hard Reset")
    ∷ (2, event 2 0 0 "Power Down")
    ∷ (3, event 3 0 0 "Power Cycle")
    ∷ (4, event 5 0 0 "Timer interrupt")
    ∷ []

unfoldable pub platform_alert_events : SpecificEvents
platform_alert_events =
    (0, event 0 0 0 "platform generated page")
    ∷ (1, event 1 0 0 "platform generated LAN alert ")
    ∷ (2, event 2 0 0 "Platform Event Trap generated, formatted per IPMI PET")
    ∷ (3, event 3 0 0 "platform generated SNMP trap, OEM format")
    ∷ []

unfoldable pub entity_presence_events : SpecificEvents
entity_presence_events =
    (0, event 0 0 0 "Entity Present")
    ∷ (1, event 1 0 0 "Entity Absent")
    ∷ (2, event 2 0 0 "Entity Disabled")
    ∷ []

unfoldable pub lan_events : SpecificEvents
lan_events = (0, event 0 0 0 "LAN Heartbeat Lost ") ∷ (1, event 1 0 0 "LAN Heartbeat") ∷ []

unfoldable pub subsystem_health_events : SpecificEvents
subsystem_health_events =
    (0, event 0 0 0 "sensor access degraded or unavailable")
    ∷ (1, event 1 0 0 "controller access degraded or unavailable")
    ∷ (2, event 2 0 0 "management controller off-line")
    ∷ (3, event 3 0 0 "management controller unavailable")
    ∷ (4, event 5 0 0 "FRU failure")
    ∷ []

unfoldable pub battery_events : SpecificEvents
battery_events =
    (0, event 0 0 0 "battery low (predictive failure)")
    ∷ (1, event 1 0 0 "battery failed")
    ∷ (2, event 2 0 0 "battery presence detected")
    ∷ []

unfoldable pub session_audit_events : SpecificEvents
session_audit_events =
    (0, event 0 0 0 "Session Activated")
    ∷ (1, event 1 0 0 "Session Deactivated")
    ∷ (2, event 2 0 0 "Invalid Username or Password ")
    ∷ (
      3,
      event 3 0 0
          "Invalid password disable A users access has been disabled due to a series of bad password attempts",
    )
    ∷ []

unfoldable pub version_change_events : SpecificEvents
version_change_events =
    (0, event 0 0 0 "Hardware change detected with associated Entity")
    ∷ (1, event 1 0 0 "Firmware or software change detected with associated Entity")
    ∷ (2, event 2 0 0 "Hardware incompatibility detected with associated Entity")
    ∷ (3, event 3 0 0 "Firmware or software incompatibility detected with associated Entity")
    ∷ (4, event 4 0 0 "Entity is of an invalid or unsupported hardware version")
    ∷ (5, event 5 0 0 "Entity contains an invalid or unsupported firmware or software version.")
    ∷ (6, event 6 0 0 "Hardware Change detected with associated Entity was successful")
    ∷ (7, event 7 0 0 "Software or F/W Change detected with associated Entity was successful")
    ∷ []

unfoldable pub fru_state_events : SpecificEvents
fru_state_events =
    (0, event 0 0 0 "FRU Not Installed")
    ∷ (1, event 1 0 0 "FRU Inactive (in standby or hot spare state)")
    ∷ (2, event 2 0 0 "FRU Activation Requested")
    ∷ (3, event 3 0 0 "FRU Activation In Progress")
    ∷ (4, event 4 0 0 "FRU Active")
    ∷ (5, event 5 0 0 "FRU Deactivation Requested")
    ∷ (6, event 6 0 0 "FRU Deactivation In Progress")
    ∷ (7, event 7 0 0 "FRU Communication Lost")
    ∷ []

unfoldable pub specific_events_high : List (ℕ × SpecificEvents)
unfolding chip_set_events cable_events system_boot_events boot_error_events os_boot_events
    os_stop_events slot_events acpi_power_state_events watchdog_2_events platform_alert_events
    entity_presence_events lan_events subsystem_health_events battery_events session_audit_events
    version_change_events fru_state_events
specific_events_high =
    (25, chip_set_events)
    ∷ (27, cable_events)
    ∷ (29, system_boot_events)
    ∷ (30, boot_error_events)
    ∷ (31, os_boot_events)
    ∷ (32, os_stop_events)
    ∷ (33, slot_events)
    ∷ (34, acpi_power_state_events)
    ∷ (35, watchdog_2_events)
    ∷ (36, platform_alert_events)
    ∷ (37, entity_presence_events)
    ∷ (39, lan_events)
    ∷ (40, subsystem_health_events)
    ∷ (41, battery_events)
    ∷ (42, session_audit_events)
    ∷ (43, version_change_events)
    ∷ (44, fru_state_events)
    ∷ []
