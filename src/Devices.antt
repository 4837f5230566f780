-- ===== src/Devices.antt =====
-- Package devices: the buffers of AF_Packet, the choice of a device, and the opening of handles.
pub mod Ints
pub mod Buffers
pub mod Names
pub mod Handles
pub mod AfPacket
