-- ===== src/Vm.antt =====
-- controller/internal/vm: the command lines of the two machines, the relay and the browser.
pub mod Shared
pub mod Qemu
pub mod Browser
pub mod Options
pub mod Lines
pub mod Kernel
pub mod Binary
pub mod BinaryLaws
pub mod StateDisk
pub mod Instance
pub mod InstanceLaws
