-- ===== src/Pvm/Branches.antt =====
-- packages/core/pvm-interpreter/ops/branch-ops.ts, the comparisons, and their dispatchers
-- ops-dispatchers/two-regs-one-offset-dispatcher.ts and one-reg-one-imm-one-offset-dispatcher.ts.
-- An immediate is the word that its decoder holds, read as unsigned or as signed.
pub mod Taken
use typeberry.Base.{ℕ, ◌^◌, Bool, true, not, ltb, leb, ◌==◌, List}
use typeberry.Base.Int.{ℤ, signed, ltb_ℤ}
use typeberry.Pvm.Registers.{Registers, get_u64, get_i64}
use typeberry.Pvm.Jumps.{InstructionResult, branch}

-- `getI64` of an immediate.
abbrev pub immediate_i64 : ℕ → ℤ
immediate_i64 imm = signed (2 ^ 63) imm

-- What a branch works on besides the registers: the starts of blocks, the target, the result.
pub record Context : Type 0 where
  pub blocks : List ℕ
  pub next_pc : ℕ
  pub result : InstructionResult

abbrev pub go : Context → Bool → InstructionResult
go c condition = branch c.blocks c.next_pc condition c.result

abbrev pub jump : Context → InstructionResult
jump c = go c true

abbrev pub branch_eq : Registers → ℕ → ℕ → Context → InstructionResult
branch_eq regs i j c = go c ((get_u64 regs i) == (get_u64 regs j))

abbrev pub branch_ne : Registers → ℕ → ℕ → Context → InstructionResult
branch_ne regs i j c = go c (not ((get_u64 regs i) == (get_u64 regs j)))

abbrev pub branch_lt_unsigned : Registers → ℕ → ℕ → Context → InstructionResult
branch_lt_unsigned regs i j c = go c (ltb (get_u64 regs i) (get_u64 regs j))

abbrev pub branch_lt_signed : Registers → ℕ → ℕ → Context → InstructionResult
branch_lt_signed regs i j c = go c (ltb_ℤ (get_i64 regs i) (get_i64 regs j))

abbrev pub branch_ge_unsigned : Registers → ℕ → ℕ → Context → InstructionResult
branch_ge_unsigned regs i j c = go c (leb (get_u64 regs j) (get_u64 regs i))

abbrev pub branch_ge_signed : Registers → ℕ → ℕ → Context → InstructionResult
branch_ge_signed regs i j c = go c (not (ltb_ℤ (get_i64 regs i) (get_i64 regs j)))

abbrev pub branch_eq_immediate : Registers → ℕ → ℕ → Context → InstructionResult
branch_eq_immediate regs i imm c = go c ((get_u64 regs i) == imm)

abbrev pub branch_ne_immediate : Registers → ℕ → ℕ → Context → InstructionResult
branch_ne_immediate regs i imm c = go c (not ((get_u64 regs i) == imm))

abbrev pub branch_lt_unsigned_immediate : Registers → ℕ → ℕ → Context → InstructionResult
branch_lt_unsigned_immediate regs i imm c = go c (ltb (get_u64 regs i) imm)

abbrev pub branch_le_unsigned_immediate : Registers → ℕ → ℕ → Context → InstructionResult
branch_le_unsigned_immediate regs i imm c = go c (leb (get_u64 regs i) imm)

abbrev pub branch_ge_unsigned_immediate : Registers → ℕ → ℕ → Context → InstructionResult
branch_ge_unsigned_immediate regs i imm c = go c (leb imm (get_u64 regs i))

abbrev pub branch_gt_unsigned_immediate : Registers → ℕ → ℕ → Context → InstructionResult
branch_gt_unsigned_immediate regs i imm c = go c (ltb imm (get_u64 regs i))

abbrev pub branch_lt_signed_immediate : Registers → ℕ → ℕ → Context → InstructionResult
branch_lt_signed_immediate regs i imm c = go c (ltb_ℤ (get_i64 regs i) (immediate_i64 imm))

abbrev pub branch_le_signed_immediate : Registers → ℕ → ℕ → Context → InstructionResult
branch_le_signed_immediate regs i imm c = go c (not (ltb_ℤ (immediate_i64 imm) (get_i64 regs i)))

abbrev pub branch_ge_signed_immediate : Registers → ℕ → ℕ → Context → InstructionResult
branch_ge_signed_immediate regs i imm c = go c (not (ltb_ℤ (get_i64 regs i) (immediate_i64 imm)))

abbrev pub branch_gt_signed_immediate : Registers → ℕ → ℕ → Context → InstructionResult
branch_gt_signed_immediate regs i imm c = go c (ltb_ℤ (immediate_i64 imm) (get_i64 regs i))

-- The instructions on two registers.
pub data Branch : Type 0 where
  on_eq on_ne on_lt_u on_lt_s on_ge_u on_ge_s : Branch

-- The instructions on a register and an immediate.
pub data BranchImmediate : Type 0 where
  on_eq_imm on_ne_imm on_lt_u_imm on_le_u_imm on_ge_u_imm on_gt_u_imm on_lt_s_imm on_le_s_imm
        on_ge_s_imm on_gt_s_imm :
      BranchImmediate

unfoldable pub dispatch_two_regs : Branch → Registers → ℕ → ℕ → Context → InstructionResult
dispatch_two_regs on_eq regs i j c = branch_eq regs i j c
dispatch_two_regs on_ne regs i j c = branch_ne regs i j c
dispatch_two_regs on_lt_u regs i j c = branch_lt_unsigned regs i j c
dispatch_two_regs on_lt_s regs i j c = branch_lt_signed regs i j c
dispatch_two_regs on_ge_u regs i j c = branch_ge_unsigned regs i j c
dispatch_two_regs on_ge_s regs i j c = branch_ge_signed regs i j c

unfoldable pub dispatch_immediate :
    BranchImmediate → Registers → ℕ → ℕ → Context → InstructionResult
dispatch_immediate on_eq_imm regs i imm c = branch_eq_immediate regs i imm c
dispatch_immediate on_ne_imm regs i imm c = branch_ne_immediate regs i imm c
dispatch_immediate on_lt_u_imm regs i imm c = branch_lt_unsigned_immediate regs i imm c
dispatch_immediate on_le_u_imm regs i imm c = branch_le_unsigned_immediate regs i imm c
dispatch_immediate on_ge_u_imm regs i imm c = branch_ge_unsigned_immediate regs i imm c
dispatch_immediate on_gt_u_imm regs i imm c = branch_gt_unsigned_immediate regs i imm c
dispatch_immediate on_lt_s_imm regs i imm c = branch_lt_signed_immediate regs i imm c
dispatch_immediate on_le_s_imm regs i imm c = branch_le_signed_immediate regs i imm c
dispatch_immediate on_ge_s_imm regs i imm c = branch_ge_signed_immediate regs i imm c
dispatch_immediate on_gt_s_imm regs i imm c = branch_gt_signed_immediate regs i imm c
