-- ===== src/Lib.antt =====
-- LaserControl: serial control of the calibration laser system. The library models the classes in
-- namespace `device`, which speak to the instruments, and the helpers in namespace `util`:
--
-- * Util (src/utilities.cpp): cutting, trimming and escaping of text, the search for a port, and the
--   text of a map. Util/Tokens, Trim, Escape, Ports and MapText each stand for their functions.
-- * Device (include/Device.hh, src/Device.cpp): the base class. The record Device has the fields of
--   the class; its operations are `write_cmd`, `read_cmd`, `read_lines`, `reset_connection` and the
--   others by the same names.
-- * Laser (include/Laser.hh, src/Laser.cpp): the commands; Laser/Security has the overloads of
--   `security`, Laser/Shots `get_shot_count` and `read_cmd`, Laser/Enums the enumerations and the
--   table of messages, Laser/Ops the sequences of calls. Laser/Frames lists the messages, for given
--   forms of voltage and rate: those of the header (`documented`), or whatever voltage the range test
--   lets through (`unrated`, for Manager). Laser/Traffic reads what messages say without the code
--   that writes them. LaserSim (src/LaserSim.cpp) is the same interface without a device;
--   LaserSim/Histories compares the two.
-- * Attenuator (include/Attenuator.hh, src/Attenuator.cpp): Attenuator/Port has `write_cmd` and
--   `read_cmd` with their retries, Position, Motion, Settings, Status and Transmission the operations.
--   Frames has the messages, for given limits of their numbers: those of the header (`documented`),
--   which the code does not enforce, or those of the types (`widths`, for Manager). Ops has the
--   sequences of calls, and Safety the proof about them. AttenuatorSim (src/AttenuatorSim.cpp) is the
--   same interface without a device; AttenuatorSim/Histories compares the two.
-- * PowerMeter (include/PowerMeter.hh, src/PowerMeter.cpp): PowerMeter itself has `send_cmd`, and
--   Ranges, Modes, Energy, Threshold, Info and Getters the commands; Frames has the
--   messages. PowerMeterSim (src/PowerMeterSim.cpp) is the same interface without a device; its Ops
--   and Known are about sequences of its calls.
-- * Manager (apps/serial_manager.cpp): the terminal program that puts the three together. The record
--   Manager is `iols` with the flags `g_ignore_...`; Manager/Mapping has `map_devices`,
--   `unmap_devices` and what they call, Commands `run_command`, with the subcommands of each device
--   in LaserCommand, MotorCommand and MeterCommand and their numbers in Arguments, Words the cutting
--   of a line, and Session `main`. Safety, Frame, Codes, Mapped, Typed, Blank, Course, Answers and
--   Shutdown hold the proofs, over the rules for pointers and `catch` clauses in Pointers.
-- * Dac (i2c_deprecated/AD5339.h and AD5339.cpp): the driver of a converter at an I2C bus. Dac/Sweep
--   (i2c_deprecated/test_AD5339.cpp) is the program that sweeps its two channels; what it reads of
--   the flag `run`, which a signal clears, is an argument.
--
-- An instrument is a record that holds its Device, as the class derives from it, and on_device runs
-- an operation of the base class on that part. Every member function is an Action of Effects: it
-- takes the object, and gives a result or an exception and the object as it is then, so what was
-- assigned before a throw stays assigned. A `std::string` is the list of its bytes. Unsigned and
-- signed integers wrap around where the sources convert or mask them.
--
-- The serial library, which is a copy of wjwwood/serial, is the parameter Serial: a type of ports
-- and the calls that the sources make, any of which may fail; Serial/Accepts is about ports that
-- open when they are closed, and flush and write when they are open. Floating point is the parameter
-- Floating. The examples use the ports of Serial/Script, which answers by a script, and
-- Serial/Logged, which records what is written, and the numbers of Std/Floating/Thousandths.
-- For Manager, Host holds what the program finds outside: the ports that are reported, a port object
-- as it is built, and what an uninitialised variable holds; the options, the configuration file and
-- the lines of input are arguments of `main`. The system calls of Dac are the parameter I2c, and
-- Dac/Sweep/Echo says what is assumed of a bus with a converter that reads back what it was sent.
--
-- Two loops take fuel. That of `tokenize_string` gets one round for each byte and one more, which is
-- enough for a separator that is not empty. That of `Attenuator::get_position` waits for the motor,
-- so its number of polls is an argument; with more polls than the motor needs it returns, and else
-- the model ends with the mark `still_waiting`, which is no exception of the sources.
--
-- Not modelled: apps/calibrate_attenuator.cpp, which does not compile, src/control_server.cpp, a
-- socket loop that prints, the examples and probes, the output (logs, text under DEBUG, and
-- `enumerate_ports`), the pauses between commands, the lock in `PowerMeter::send_cmd`, the values
-- that exception texts print, and what reference arguments hold after a throw, except where a
-- definition says so.
pub mod Common
pub mod Effects
pub mod Std
pub mod Serial
pub mod Util
pub mod Device
pub mod Laser
pub mod LaserSim
pub mod Attenuator
pub mod AttenuatorSim
pub mod PowerMeter
pub mod PowerMeterSim
pub mod Manager
pub mod Dac
