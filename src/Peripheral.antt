-- ===== src/Peripheral.antt =====
-- peripheral/: the devices that the debugger puts on the bus.
pub mod Acia
pub mod Keyboard
pub mod TextOutput
