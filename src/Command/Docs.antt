-- ===== src/Command/Docs.antt =====
-- The texts that the handlers of vcompute/common/scripts/ipmi_sim/command.py print as help: their
-- `__doc__`.
use idic.Text.{Text, codes}

unfoldable pub handle_sensor_mode_doc : Text
handle_sensor_mode_doc =
    codes
      "\n        Available 'sensor mode' commands:\n            sensor mode set <sensorID> <user|auto|fault> <lnr | lc | lnc | unc | uc | unr>\n            sensor mode get <sensorID>\n        "

unfoldable pub handle_sensor_value_doc : Text
handle_sensor_value_doc =
    codes
      "\n        Available 'sensor value' commands:\n            set: set <sensor id> <value>\n                 set <sensor id> state <state id> 1|0\n            get: get <sensor id>\n        "

unfoldable pub handle_sensor_command_doc : Text
handle_sensor_command_doc =
    codes "\n        Available sensor commands:\n            info mode value\n        "

unfoldable pub handle_sel_command_doc : Text
handle_sel_command_doc =
    codes
      "\n        Available 'sel' commands:\n            set <sensorID> <event_id> <'assert'/'deassert'>\n            get <sensorID>\n\n            'record type 0x2'\n            set oem <record_Type> <generate_id_1> <generate_id_2> <sensor_type>\n                    <sensor_num> <event_type> <event_data_1> <event_data_2> <event_data_3>\n\n            'record type 0xC0 - 0xDF'\n            set oem <record_Type> <oem_byte1> <oem_byte2> <oem_byte3> <oem_byte4>\n                    <oem_byte5> <oem_byte6>\n\n            'record type 0xE0 - 0xFF'\n            set oem <record_Type> <oem_byte1> <oem_byte2> <oem_byte3> <oem_byte4>\n                    <oem_byte5> <oem_byte6> <oem_byte7> <oem_byte8> <oem_byte9>\n                    <oem_byte10> <oem_byte11> <oem_byte12> <oem_byte13>\n\n        "

unfoldable pub handle_help_doc : Text
handle_help_doc =
    codes
      "\n        Available commands:\n            sensor info\n            sensor mode set <sensorID> <user>\n            sensor mode set <sensorID> <auto>\n            sensor mode set <sensorID> <fault> <lnr | lc | lnc | unc | uc | unr>\n            sensor mode get <sensorID>\n            sensor value set <sensorID> <value>\n            sensor value get <sensorID>\n            sel set <sensorID> <event_id> <'assert'/'deassert'>\n            sel get <sensorID>\n            help\n            history\n            quit/exit\n        "
