-- ===== src/Lib.antt =====
-- The IPMI simulator's console, vcompute/common/scripts/ipmi_sim: a program that builds a sensor
-- object for each sensor data record of a simulated BMC, lets a user read and write the sensors and
-- add event records by commands over SSH, and has a thread for each threshold sensor that publishes
-- random readings.
--
-- How the parts interact: `parse_sdrs` (sdr.py) fills the lists and maps of sensors;
-- `spawn_sensor_thread` (ipmi_sim.py) starts `Sensor.execute` (sensor.py) for the threshold sensors;
-- the session loop (sshsrv.py) gives each line to `Command_Handler.handle_command` (command.py),
-- which calls the sensors' operations and puts its answers into `common.msg_queue`; the sensors and
-- their event records (sel.py) write commands to the simulator by `send_ipmi_sim_command`
-- (common.py).
--
-- The files:
--   Prelude, Text, Bits    lists, integers, Python's strings and number formats, masks of bytes
--   Model                  the objects and the process: `Sensor` and `Sel` are records (an attribute
--                          that `__init__` does not set is an Option), `World` holds the objects by
--                          address, the module variables, the message queue, the error log and all
--                          that was sent, and `Exec` is a function on it that may raise;
--                          Model.Outcomes: what a block returns and preserves, by its parts;
--                          Model.Leads: what a block does from the states of one kind
--   Common                 common.py; Common.Sending is what a session leaves behind
--   Sel                    sel.py: class SEL, the OEM classes, and in the children the tables
--   Sensor                 sensor.py: Attributes (setters, with_type), Reading (formulas and
--                          output_info), Drawing (random values), Discrete (set_threshold_value,
--                          set_discrete_value, set_state), Events (get_sel, set_sel), Execute (a
--                          round as a whole, and its statements one by one in Execute.Steps); Law
--                          is what the operations leave alone, with a property of the objects as a
--                          parameter, and Typed has two such properties
--   Sdr                    sdr.py; Values, Fresh and Typed follow the readings of a record, and
--                          Bytes and Bounded the thresholds
--   Command                command.py: Lookup, SensorCommands, SelCommands, Handle
--   Ssh                    sshsrv.py and the strings of TestSSHHandler (ipmi_sim.py)
--   Threads                spawn_sensor_thread and free_resource (ipmi_sim.py), as a step relation
--                          on the process: the statements of the sensor threads, of free_resource
--                          and of a session's commands, in any order; its children follow one
--                          round, one command, the shutdown and the races, and the types of the
--                          values
--   Tests                  concrete states, and the theorems at them
--
-- Correspondence: a function keeps its name. A method takes its object's address, where it changes
-- the object, or the object. What a function wrote before it raised stays written. Dictionaries are
-- association lists. `parse_sdrs` recurs on fuel, one more than the length of the file, which is
-- enough since every record moves the offset on by at least five bytes.
--
-- Outside the program, and so a parameter (`Outside`): the simulator behind telnet, ipmitool, the
-- generator of random numbers, the order in which a dict is listed, double arithmetic, and for the
-- SSH session the lines that sshim reads. The theorems name what they ask of these (IsAnswering,
-- IsFair).
--
-- In Threads one call of get_random_value, get_fault_value or send_ipmi_sim_command is one step, and
-- so are acquire, notify and release in a row; what a session does is the list of its writes,
-- reads of the mode and notifications. A round takes at most eight steps.
--
-- Not modelled: an OSError of `subprocess.Popen` in `send_ipmitool_command`; `logger.info`, which
-- writes nothing at the level ERROR; the exception text in a log entry; `add_msg`, which does
-- nothing; the vendored libraries under modules; the build system and the data of the nodes.
pub mod Prelude
pub mod Text
pub mod Model
pub mod Common
pub mod Sel
pub mod Sensor
pub mod Sdr
pub mod Command
pub mod Ssh
pub mod Threads
pub mod Bits
pub mod Tests
