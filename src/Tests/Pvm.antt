-- ===== src/Tests/Pvm.antt =====
-- Runs of the interpreter's parts.
use typeberry.Base.{
  ℕ, zero, suc, ◌++◌, inl, ◌-◌, ◌^◌, ◌<◌, ◌≡◌, ◌≢◌, ◌↔◌, ◌⊎◌, inr, refl, arith, List, [], ◌∷◌,
  get_elem?, true, false, none, some, replicate, Bool, set,
}
use typeberry.Codec.Words.{le_value}
use typeberry.Pvm.Mask.{mask_table, is_instruction, skip, gap, mask_exact, mask_wraps}
use typeberry.Pvm.JumpTable.{
  decode_next, decode_next-value, decode_next-clamps, decode_next-loses, has_index,
}
use typeberry.Pvm.BasicBlocks.{is_termination, reset, is_beginning}
use typeberry.Pvm.BasicBlocks.Starts.{reset_sound, reset_complete, StartsAfter, IsDense}
use typeberry.Pvm.Jumps.{
  InstructionResult, panic, branch, djump, branch_cases, djump-DynamicJump, DynamicJump,
}
use typeberry.Pvm.Gas.{gas_counter, used, charge, charge-used}
use typeberry.Pvm.Registers.{Registers, IsRegisters, get_u64}
use typeberry.Pvm.Alu.{dispatch, sub_32}
use typeberry.Pvm.Branches.{
  Context, go, dispatch_two_regs, dispatch_immediate, on_lt_s, on_lt_s_imm,
}
use typeberry.Pvm.Branches.Taken.{dispatch_two_regs-taken, dispatch_immediate-taken}
use typeberry.Pvm.Alu.Reference.{dispatch-reference}

-- A trap at 0, a fallthrough at 1 with one more byte, and a trap at 3.
abbrev bits : List Bool
bits = true ∷ true ∷ false ∷ true ∷ []

abbrev code : List ℕ
code = 0 ∷ 1 ∷ 9 ∷ 0 ∷ []

abbrev table : List ℕ
table = 0 ∷ 0 ∷ 1 ∷ 0 ∷ []

table_of_bits : mask_table bits ≡ table
unfolding mask_table
table_of_bits = refl

mask_exact_example :
    ((is_instruction (mask_table bits) 2 ≡ true) ↔ (some false ≡ some true))
    × (skip (mask_table bits) 2 ≡ 1)
unfolding gap
mask_exact_example = mask_exact bits 2 (omega arith) (omega arith)

mask_wraps_example :
    (is_instruction (mask_table (replicate 256 false)) 0 ≡ true)
    × (get_elem? (replicate 256 false) 0 ≢ some true)
unfolding gap
mask_wraps_example = mask_wraps (replicate 256 false) 0 (omega arith) (omega arith) refl

decode_next-value_example : decode_next (1 ∷ 2 ∷ 0 ∷ []) ≡ 513
unfolding le_value
decode_next-value_example =
    decode_next-value (1 ∷ 2 ∷ 0 ∷ []) (omega arith, (omega arith, (omega arith, tt))) (omega arith)

decode_next-clamps_example : decode_next (1 ∷ 0 ∷ 0 ∷ 0 ∷ 1 ∷ []) ≡ 2 ^ 32 - 1
decode_next-clamps_example =
    decode_next-clamps 1 0 0 0 1 (omega arith) (omega arith) (omega arith) (omega arith)
      (omega arith) (omega arith)

decode_next-loses_example : decode_next (1 ∷ 0 ∷ 0 ∷ 0 ∷ 128 ∷ []) ≡ 1
unfolding le_value
decode_next-loses_example =
    decode_next-loses 1 0 0 0 128 (omega arith) (omega arith) (omega arith) (omega arith)
      (omega arith) (omega arith)

starts : reset code table ≡ 0 ∷ 1 ∷ 3 ∷ 4 ∷ []
unfolding reset is_termination is_instruction skip
starts = refl

-- With the next instruction more than 25 bytes away the start is no instruction.
far_start :
    reset (0 ∷ replicate 31 50) (mask_table (true ∷ replicate 30 false ++ (true ∷ [])))
    ≡ 0 ∷ 26 ∷ 32 ∷ []
unfolding mask_table reset is_termination is_instruction skip
far_start = refl

bits-IsDense : IsDense bits
unfolding gap
bits-IsDense zero l = omega arith
bits-IsDense (suc zero) l = omega arith
bits-IsDense (suc (suc zero)) l = omega arith
bits-IsDense (suc (suc (suc zero))) l = omega arith
bits-IsDense (suc (suc (suc (suc i)))) l = absurd (omega arith)

reset_sound_example : (◌≡◌ {A = ℕ} 3 0) ⊎ ((j : ℕ) × (j < 4) × StartsAfter code bits 3 j)
unfolding mask_table reset is_termination is_beginning is_instruction skip
reset_sound_example = reset_sound code bits refl bits-IsDense 3 refl

reset_complete_example : is_beginning (reset code (mask_table bits)) 3 ≡ true
unfolding gap
reset_complete_example =
    reset_complete code bits refl bits-IsDense 3
      (inr (1, omega arith, (refl, inl (omega arith), refl)))

abbrev fresh : InstructionResult
fresh = record { next_pc = 0; status = none; exit_param = none }

djump-DynamicJump_example :
    DynamicJump (0 ∷ 3 ∷ []) (0 ∷ 3 ∷ []) 4 fresh (djump (0 ∷ 3 ∷ []) (0 ∷ 3 ∷ []) 4 fresh)
djump-DynamicJump_example = djump-DynamicJump (0 ∷ 3 ∷ []) (0 ∷ 3 ∷ []) 4 fresh

djump_lands : djump (0 ∷ 3 ∷ []) (0 ∷ 3 ∷ []) 4 fresh ≡ record fresh { next_pc = 3 }
unfolding djump is_beginning has_index
djump_lands = refl

branch_cases_example :
    ((true ≡ false) × (branch (0 ∷ 3 ∷ []) 2 true fresh ≡ fresh))
    ⊎ (((true ≡ true)
          × (is_beginning (0 ∷ 3 ∷ []) 2 ≡ false)
          × (branch (0 ∷ 3 ∷ []) 2 true fresh ≡ record fresh { status = some panic }))
        ⊎ ((true ≡ true)
            × (is_beginning (0 ∷ 3 ∷ []) 2 ≡ true)
            × (branch (0 ∷ 3 ∷ []) 2 true fresh ≡ record fresh { next_pc = 2 })))
branch_cases_example = branch_cases (0 ∷ 3 ∷ []) 2 true fresh

charge-used_example :
    ((charge (3 ∷ 4 ∷ 5 ∷ []) (gas_counter 10)).0 ≡ true)
    × (used (charge (3 ∷ 4 ∷ 5 ∷ []) (gas_counter 10)).1 ≡ 10)
charge-used_example = charge-used 10 (3 ∷ 4 ∷ 5 ∷ [])

-- Registers with 5 and 7 in front.
abbrev regs : Registers
regs = 5 ∷ 7 ∷ 0 ∷ 0 ∷ 0 ∷ 0 ∷ 0 ∷ 0 ∷ 0 ∷ 0 ∷ 0 ∷ 0 ∷ 0 ∷ []

abbrev regs-IsRegisters : IsRegisters regs
regs-IsRegisters = (
  refl,
  (
    omega arith,
    (
      omega arith,
      (
        omega arith,
        (
          omega arith,
          (
            omega arith,
            (
              omega arith,
              (
                omega arith,
                (
                  omega arith,
                  (omega arith, (omega arith, (omega arith, (omega arith, (omega arith, tt))))),
                ),
              ),
            ),
          ),
        ),
      ),
    ),
  ),
)

dispatch-reference_example : dispatch sub_32 regs 0 1 2 ≡ set regs 2 (2 ^ 64 - 2)
unfolding get_u64
dispatch-reference_example = dispatch-reference sub_32 regs 0 1 2 regs-IsRegisters

-- A branch to 3 from the registers.
abbrev context : Context
context = record { blocks = 0 ∷ 3 ∷ []; next_pc = 3; result = fresh }

dispatch_two_regs-taken_example : dispatch_two_regs on_lt_s regs 0 1 context ≡ go context true
unfolding get_u64
dispatch_two_regs-taken_example = dispatch_two_regs-taken on_lt_s regs 0 1 context regs-IsRegisters

-- 5 is not less than -1, as signed numbers.
dispatch_immediate-taken_example :
    dispatch_immediate on_lt_s_imm regs 0 (2 ^ 64 - 1) context ≡ go context false
unfolding get_u64
dispatch_immediate-taken_example =
    dispatch_immediate-taken on_lt_s_imm regs 0 (2 ^ 64 - 1) context regs-IsRegisters (omega arith)
