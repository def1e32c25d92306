-- ===== src/Pvm/Jumps.antt =====
-- ops/branch-ops.ts and ops/dynamic-jump-ops.ts: where control can go.
use typeberry.Base.{
  ℕ, ◌-◌, ◌*◌, ◌/◌, ◌%◌, ◌<◌, ◌≤◌, ◌≡◌, ◌≢◌, ◌⊎◌, inl, inr, arith, Bool, Bool-cases, true, false,
  List, length, get_or, get_elem?, get_elem?-get_or, ltb, ◌==◌, ◌||◌, not, if◌then◌else◌, Option,
  some,
}
use typeberry.Pvm.BasicBlocks.{is_beginning}
use typeberry.Pvm.JumpTable.{has_index}

-- result.ts
pub data Outcome : Type 0 where
  halt panic fault_access fault host : Outcome

-- instruction-result.ts
pub record InstructionResult : Type 0 where
  pub next_pc : ℕ
  pub status : Option Outcome
  pub exit_param : Option ℕ

abbrev stop : InstructionResult → Outcome → InstructionResult
stop r o = record r { status = some o }

unfoldable pub branch : List ℕ → ℕ → Bool → InstructionResult → InstructionResult
branch blocks next_pc condition r =
    if not condition
    then r
    else if not (is_beginning blocks next_pc)
    then stop r panic
    else record r { next_pc = next_pc }

abbrev pub exit_address : ℕ
exit_address = 0xffff_0000

unfoldable pub djump : List ℕ → List ℕ → ℕ → InstructionResult → InstructionResult
djump jump_table blocks address r =
    if address == exit_address
    then stop r halt
    else if address == 0 || not (address % 2 == 0)
    then stop r panic
    else if not (has_index jump_table (address / 2 - 1))
    then stop r panic
    else if not (is_beginning blocks (get_or jump_table (address / 2 - 1) 0))
    then stop r panic
    else record r { next_pc = get_or jump_table (address / 2 - 1) 0 }

-- A branch either leaves the result alone, or panics, or goes on at the start of a block.
pub branch_cases :
    (blocks : List ℕ) (next_pc : ℕ) (condition : Bool) (r : InstructionResult)
    → ((condition ≡ false) × (branch blocks next_pc condition r ≡ r))
      ⊎ (((condition ≡ true)
            × (is_beginning blocks next_pc ≡ false)
            × (branch blocks next_pc condition r ≡ stop r panic))
          ⊎ ((condition ≡ true)
              × (is_beginning blocks next_pc ≡ true)
              × (branch blocks next_pc condition r ≡ record r { next_pc = next_pc })))
unfolding branch
branch_cases blocks next_pc condition r = ground arith

-- What a dynamic jump to an address may do to the result.
pub data DynamicJump (jump_table blocks : List ℕ) (address : ℕ) (r : InstructionResult)
    : InstructionResult → Type 0 where
  halts : address ≡ exit_address → DynamicJump jump_table blocks address r (stop r halt)
  lands :
      (destination : ℕ)
      → address ≢ exit_address
      → 0 < address
      → 2 * (address / 2) ≡ address
      → get_elem? jump_table (address / 2 - 1) ≡ some destination
      → is_beginning blocks destination ≡ true
      → DynamicJump jump_table blocks address r (record r { next_pc = destination })
  panics :
      address ≢ exit_address
      → (address ≡ 0)
        ⊎ ((address % 2 ≡ 1)
            ⊎ ((length jump_table ≤ address / 2 - 1)
                ⊎ (is_beginning blocks (get_or jump_table (address / 2 - 1) 0) ≡ false)))
      → DynamicJump jump_table blocks address r (stop r panic)

-- A dynamic jump halts exactly at the exit address, goes on only to the entry of the jump table at
-- the index that an even positive address names, if that entry starts a block, and panics else.
pub djump-DynamicJump :
    (jump_table blocks : List ℕ) (address : ℕ) (r : InstructionResult)
    → DynamicJump jump_table blocks address r (djump jump_table blocks address r)
unfolding djump has_index
djump-DynamicJump jump_table blocks address r = elim (Bool-cases (address == exit_address)) [
  | inl e ↦ rw (e, djump) (halts (ground arith))
  | inr ne ↦ elim (Bool-cases (address == 0 || not (address % 2 == 0))) [
    | inl bad ↦ rw (ne, bad, djump) (panics (ground arith) (misaligned bad))
    | inr fine ↦ elim (Bool-cases (ltb (address / 2 - 1) (length jump_table))) [
      | inr out ↦ rw (ne, fine, out, djump) (panics (ground arith) (inr (inr (inl (ground arith)))))
      | inl inside ↦
          elim (Bool-cases (is_beginning blocks (get_or jump_table (address / 2 - 1) 0))) [
            | inr middle ↦
                rw (ne, fine, inside, middle, djump)
                  (panics (ground arith) (inr (inr (inr middle))))
            | inl start ↦
                rw (ne, fine, inside, start, djump)
                  (lands (get_or jump_table (address / 2 - 1) 0) (ground arith) (ground arith)
                    (ground arith) (get_elem?-get_or jump_table (address / 2 - 1) 0 (ground arith))
                    start)
          ]
    ]
  ]
]
  where
    misaligned :
        (address == 0 || not (address % 2 == 0)) ≡ true
        → (address ≡ 0)
          ⊎ ((address % 2 ≡ 1)
              ⊎ ((length jump_table ≤ address / 2 - 1)
                  ⊎ (is_beginning blocks (get_or jump_table (address / 2 - 1) 0) ≡ false)))
    misaligned bad = elim (Bool-cases (address == 0)) [
      | inl z ↦ inl (ground arith)
      | inr nz ↦ inr (inl (ground arith))
    ]
