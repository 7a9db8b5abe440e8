-- ===== src/Packetized.antt =====
-- packetized/vb_device.py and packetized/virtual_battery.py: devices that ask for packets of power,
-- and the virtual battery that grants them.
pub mod Units
pub mod World
pub mod Reading
pub mod Ready
pub mod CheckStat
pub mod Switching
pub mod Device
pub mod Battery
pub mod Island
mod Tests
