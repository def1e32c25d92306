-- ===== src/Pvm/BasicBlocks.antt =====
-- basic-blocks/basic-blocks.ts and is-termination-instruction.ts.
pub mod Starts
use typeberry.Base.{
  ℕ, zero, suc, ◌+◌, ◌<◌, ◌≤◌, ◌≡◌, ◌⊎◌, inl, inr, arith, Bool, Bool-cases, true, false, List, [],
  ◌∷◌, length, get_or, ◌==◌, ◌&&◌, ◌||◌, if◌then◌else◌,
}
use typeberry.Pvm.Mask.{is_instruction, skip}

unfoldable pub member : List ℕ → ℕ → Bool
member [] n = false
member (x ∷ xs) n = n == x || member xs n

-- The opcodes of instruction.ts that end a basic block.
abbrev pub termination_opcodes : List ℕ
termination_opcodes =
    0 ∷ 1 ∷ 40 ∷ 50 ∷ 80 ∷ 180 ∷ 170 ∷ 171 ∷ 174 ∷ 175 ∷ 172 ∷ 173 ∷ 81 ∷ 82 ∷ 83 ∷ 87 ∷ 84 ∷ 88
    ∷ 85 ∷ 89 ∷ 86 ∷ 90 ∷ []

unfoldable pub is_termination : ℕ → Bool
unfolding member
is_termination opcode = member termination_opcodes opcode

-- Whether the loop of `reset` adds a block behind index `i`.
abbrev pub ends_block : List ℕ → List ℕ → ℕ → Bool
ends_block code table i = is_instruction table i && is_termination (get_or code i 0)

-- The loop of `reset`: `left` indices from `i` on. The set is the list of what was added.
unfoldable pub blocks_loop : ℕ → ℕ → List ℕ → List ℕ → List ℕ
blocks_loop zero i code table = []
blocks_loop (suc left) i code table =
    let rest = blocks_loop left (suc i) code table in
    if ends_block code table i then (i + 1 + skip table (i + 1)) ∷ rest else rest

unfoldable pub reset : List ℕ → List ℕ → List ℕ
unfolding blocks_loop
reset code table = 0 ∷ blocks_loop (length code) 0 code table

unfoldable pub is_beginning : List ℕ → ℕ → Bool
unfolding member
is_beginning blocks pc = member blocks pc

-- `pc` is what the round of the loop for index `i` adds.
abbrev pub IsAdded : List ℕ → List ℕ → ℕ → ℕ → Type 0
IsAdded code table pc i = (ends_block code table i ≡ true) × (pc ≡ i + 1 + skip table (i + 1))

is_added : List ℕ → List ℕ → ℕ → ℕ → Bool
is_added code table pc i = ends_block code table i && pc == (i + 1 + skip table (i + 1))

is_added-true :
    (code table : List ℕ) (pc i : ℕ) → is_added code table pc i ≡ true → IsAdded code table pc i
unfolding is_added
is_added-true code table pc i h = ground arith

true-is_added :
    (code table : List ℕ) (pc i : ℕ) → IsAdded code table pc i → is_added code table pc i ≡ true
unfolding is_added
true-is_added code table pc i h = ground arith

loop_step :
    (left i : ℕ) (code table : List ℕ) (pc : ℕ)
    → member (blocks_loop (suc left) i code table) pc
      ≡ (is_added code table pc i || member (blocks_loop left (suc i) code table) pc)
unfolding blocks_loop member is_added
loop_step left i code table pc = ground arith

pub loop_sound :
    (left i : ℕ) (code table : List ℕ) (pc : ℕ)
    → member (blocks_loop left i code table) pc ≡ true
    → (j : ℕ) × (i ≤ j) × (j < i + left) × IsAdded code table pc j
loop_sound zero i code table pc h = absurd (unfold blocks_loop member in cc)
loop_sound (suc left) i code table pc h = elim (Bool-cases (is_added code table pc i)) [
  | inl here ↦ (i, omega arith, omega arith, is_added-true code table pc i here)
  | inr later ↦
      let (j, lo, hi, s) =
        loop_sound left (suc i) code table pc (ground (arith, loop_step left i code table pc)) in
      (j, omega arith, omega arith, s)
]

pub loop_complete :
    (left i : ℕ) (code table : List ℕ) (pc j : ℕ)
    → i ≤ j
    → j < i + left
    → IsAdded code table pc j
    → member (blocks_loop left i code table) pc ≡ true
loop_complete zero i code table pc j h g s = absurd (omega arith)
loop_complete (suc left) i code table pc j h g s = elim (Bool-cases (i == j)) [
  | inl here ↦
      let e : i ≡ j = ground arith in
      ground (arith, loop_step left i code table pc, true-is_added code table pc i (rw e s))
  | inr later ↦ ground (
    arith,
    loop_step left i code table pc,
    loop_complete left (suc i) code table pc j (ground arith) (omega arith) s,
  )
]
