-- ===== src/Pvm.antt =====
-- packages/core/pvm-interpreter: the virtual machine.
pub mod Mask
pub mod JumpTable
pub mod BasicBlocks
pub mod Jumps
pub mod Gas
pub mod Registers
pub mod MathUtils
pub mod Ops
pub mod Alu
pub mod Branches
pub mod Memory
