-- ===== src/Lib.antt =====
-- Verification of gCarvin, the Grbl 1.1e firmware of the Carvey carving machine.
--
-- The program is one main loop and a handful of interrupt handlers. Bytes from the host enter a
-- receive ring (serial.c); realtime command bytes are picked out there and only raise flags. The
-- main loop (protocol.c) assembles lines, hands them to the `$` parser (system.c) or the G-code
-- parser (gcode.c), and runs the realtime executor, which turns the flags into changes of the
-- machine state. Motions go through the planner ring (planner.c) to the step interrupt (stepper.c).
--
-- Files and what they model:
--
--   - Base: names, Boolean tests and lists that all share; Base/Ring: index arithmetic of a ring with
--     one unused slot.
--   - System: system.h and the globals of grbl.h. A flag byte is a record with a field for each bit,
--   `sys.state` a data type with the constants of the source, since every assignment stores one of
--   them. System/Flags: the atomic flag operations of system.c; System/Pins: the control pins;
--   System/Raises: what interrupt handlers may change.
--   - SystemLine: the `$` commands, `system_execute_line` of system.c, with the parser of G-code, the
--     settings and the EEPROM that they reach. Orders has what they share, Idle the commands of the
--     idle and alarm states; Added what a command adds to the orders; States and Alarmed: which of them
--     act in which state. A command that resets the CPU does not return.
--   - MotionControl: `mc_reset` of motion_control.c and `coolant_stop` of coolant_control.c.
--   - Serial: serial.c, with Serial/Realtime for the receive interrupt, which does not return from the
--     reset of the CPU at the byte 0x19.
--   - Eeprom: eeprom.c, the byte operations (Eeprom/Bytes) and the block copies (Eeprom/Blocks).
--   - Stepper: the step interrupt of stepper.c, with Stepper/Bresenham for the counters of one axis,
--     Stepper/Segments for the ticks of a segment and Stepper/Moves for the two together.
--   - NutsBolts: `read_float` of nuts_bolts.c; Print: the printers of whole numbers of print.c.
--   - Gcode: `gc_execute_line` of gcode.c. Gcode/Commands has the 'G' and 'M' words, Gcode/Words the
--     value words and the loop over the line; Gcode/Checks and Motions the third step, the checks;
--     Gcode/Execute and Execution the fourth, with `jog_execute` of jog.c and the whole line. Gcode/Real
--     has the floats, Gcode/State what is kept from line to line. Modes, LineModes, Untouched, Keeps,
--     LineValues and Reads follow the block through a line; Replay, Tracks and Settles the position
--     and the spindle; StateModes, UsedWords, Arcs, Feeds and Jogs have the other proofs.
--   - Settings: settings.c. Settings/Store has the `$x=val` commands, Settings/Memory what stands in
--     the EEPROM and how it is read, Settings/Restore the restore and the initialisation, also that of
--     ps_settings.c. Rules, Places, Kept, Init and Startup have the proofs, Packed a layout.
--   - Base/Status: results with a status code.
--   - Planner: the ring of blocks and the look-ahead of planner.c. Planner/Places counts slots from the
--     tail, Entries has what one new entry speed does, Passes and Forward the two passes, Plans
--     their composition, Push, Discard and Operations what the other files call,
--     Exit and Counts what they ask.
--   - Protocol/Line: the line assembly in `protocol_main_loop`. Protocol/Alarm, Hold, Cycle and
--   Override: the blocks of `protocol_exec_rt_system`; Protocol/Realtime: their composition.
--   - Protocol/Suspend: `protocol_exec_rt_suspend`, with `mc_parking_motion` of motion_control.c,
--     `delay_sec` of nuts_bolts.c (Motions), the door manager (Doors) and `sleep_check` of sleep.c. Locked,
--     Flood, Interlock and Stops have proofs.
--
-- The configuration is that of config.h: CARVIN, VARIABLE_SPINDLE, PARKING_ENABLE and the safety
-- door on; USE_LINE_NUMBERS, ENABLE_M7, COREXY and DEBUG off.
--
-- Choices of the model. A `uint8_t` is a number with its wrap-around written out. A pass of the
-- realtime executor is atomic; interrupts enter it only in the wait of a limit alarm, as a list. The
-- wait loops of `serial_write` and of the limit alarm recur on the list of what happens meanwhile,
-- and the theorems say which lists end them. `Machine.calls` records the calls whose effect is
-- output or state of a module that the record does not hold. The step control byte that
-- `st_prep_buffer` leaves is an argument of the executor, because the float computations of
-- stepper.c are not modelled.
--
-- The suspend loop recurs on the passes of the executor in each of its rounds, with what the
-- interrupts did before each; it waits where they end. What its variables hold before they are set is
-- taken from the entry. What `plan_buffer_line` answers is a parameter there.
--
-- The step interrupt is modelled without nesting, which its busy flag rules out; the probe monitor,
-- the spindle speed and the timer registers are left out of it. Position counters are int32_t in
-- two's complement.
--
-- `read_float` is modelled up to its conversion to a float: the number stays an exact decimal, and `value`
-- of the floats in Gcode/Real converts it. What C leaves undefined, the conversion of
-- a negative or large float to a small integer, is a parameter of the parser. So is the arithmetic of
-- its floats (Gcode/Real), and what other modules answer while a line is executed (`World` in
-- Gcode/State): the flags of the settings, the coordinates in the EEPROM, the end of a probing cycle.
-- A line yields its status, the new state of the parser and its calls in their order. `sys.state` and
-- the parser's state do not change inside a call, and a failed read leaves no zeros. The fuel of the loops
-- over a line is its length, over a printed number the ten digits of a uint32_t.
--
-- How the compiler lays out the settings in memory is a parameter, of 85 bytes, with the law that what
-- was read from bytes is read again from the bytes that it is written as; decimals that no float holds
-- are rounded, the defaults of defaults.h too. The bytes of the constants that a restore writes are
-- parameters. A setting that is refused leaves nothing, one that is stored
-- leaves the new settings and the module that is told.
--
-- The floats of the planner are a parameter, with the laws of Planner/Floats: they are ordered, and
-- rounding preserves the order, as it does for the numbers of IEEE 754. The fuel of its passes is the
-- size of the ring. A plan can be driven if no block is entered above its limit, each can slow down
-- to the entry speed of the next and the last one to rest, and each can speed up to the entry speed
-- of the next. What `st_prep_buffer` changes in the block that is executed, and the limits that an
-- override changes before `plan_cycle_reinitialize`, are not part of the planner's model.
--
-- What `mc_homing_cycle` leaves and what `ps_settings_store_setting` does are parameters of the `$`
-- commands, and so are the comparisons of a parameter number as a float. At `settings_init` no product
-- parameters are in memory yet. The line is the whole buffer,
-- with what stands behind its zero.
--
-- The programming modes of the EEPROM are the hardware's: a parameter, with the laws of
-- Eeprom/Bytes, which state what the data sheet says of them.
--
-- Not modelled: the float geometry of planner.c, the float parts of stepper.c and motion_control.c,
-- homing, reports and the drivers of LEDs, spindle and motor chips.
pub mod Base
pub mod System
pub mod MotionControl
pub mod Serial
pub mod Protocol
pub mod Eeprom
pub mod Stepper
pub mod NutsBolts
pub mod Print
pub mod Gcode
pub mod Settings
pub mod Planner
pub mod SystemLine
pub mod Examples
