-- ===== src/Driver.antt =====
-- The kernel driver of the accelerator card
-- (project-spec/meta-user/recipes-modules/axi-tangxi: axi_tangxi.c, axitangxi_dev.c and headers).
pub mod Burst
pub mod Registers
pub mod Device
pub mod Commands
pub mod Irq
pub mod Memory
pub mod Loopback
pub mod Ioctl
pub mod Calls
pub mod Setup
pub mod Accelerator
pub mod Tests
