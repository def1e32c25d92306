-- ===== src/Pvm/Alu.antt =====
-- packages/core/pvm-interpreter/ops-dispatchers/three-regs-dispatcher.ts, for the operations of
-- Pvm/Ops.antt.
pub mod Reference
use typeberry.Base.{ℕ}
use typeberry.Pvm.Ops
use typeberry.Pvm.Registers.{Registers}

-- The instructions of three registers that are modelled.
pub data Op : Type 0 where
  add_32 add_64 sub_32 sub_64 mul_64 div_u_32 div_u_64 rem_u_32 rem_u_64 : Op
  max_s max_u min_s min_u set_lt_s set_lt_u cmov_iz cmov_nz : Op

-- The first two indices are read and the third is written.
unfoldable pub dispatch : Op → Registers → ℕ → ℕ → ℕ → Registers
dispatch add_32 regs i j k = Ops.add_u32 regs i j k
dispatch add_64 regs i j k = Ops.add_u64 regs i j k
dispatch sub_32 regs i j k = Ops.sub_u32 regs i j k
dispatch sub_64 regs i j k = Ops.sub_u64 regs i j k
dispatch mul_64 regs i j k = Ops.mul_u64 regs i j k
dispatch div_u_32 regs i j k = Ops.div_unsigned_u32 regs i j k
dispatch div_u_64 regs i j k = Ops.div_unsigned_u64 regs i j k
dispatch rem_u_32 regs i j k = Ops.rem_unsigned_u32 regs i j k
dispatch rem_u_64 regs i j k = Ops.rem_unsigned_u64 regs i j k
dispatch max_s regs i j k = Ops.max regs i j k
dispatch max_u regs i j k = Ops.max_u regs i j k
dispatch min_s regs i j k = Ops.min regs i j k
dispatch min_u regs i j k = Ops.min_u regs i j k
dispatch set_lt_s regs i j k = Ops.set_less_than_signed regs i j k
dispatch set_lt_u regs i j k = Ops.set_less_than_unsigned regs i j k
dispatch cmov_iz regs i j k = Ops.cmov_if_zero regs i j k
dispatch cmov_nz regs i j k = Ops.cmov_if_not_zero regs i j k
