-- ===== src/Evdev.antt =====
-- Event devices, input_subsystem/evdev.c: the ring of events of each client, and the device that its
-- clients share.
pub mod Ring
pub mod Queue
pub mod Read
pub mod Write
pub mod Tests
pub mod Device
