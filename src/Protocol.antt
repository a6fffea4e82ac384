-- ===== src/Protocol.antt =====
-- protocol.c: the assembly of lines, and the realtime executor with its state machine.
pub mod Line
pub mod Override
pub mod Alarm
pub mod Hold
pub mod Cycle
pub mod Door
pub mod DoorOpens
pub mod Realtime
pub mod Suspend
