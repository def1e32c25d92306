-- ===== src/Pvm/BasicBlocks/Starts.antt =====
-- Where basic blocks start, in terms of the bit mask and of the opcodes.
use typeberry.Base.{
  ℕ, zero, suc, ◌+◌, ◌<◌, ◌≤◌, ◌≡◌, ◌⊎◌, ◌↔◌, inl, inr, refl, sym, ap, ◌∙◌, arith, min, Bool,
  Bool-cases, true, false, ◌&&◌, ltb, ltb→lt, ltb→ge, List, [], ◌∷◌, length, drop, get_or,
  get_elem?, some, ◌==◌,
}
use typeberry.Pvm.Mask.{build_table, mask_table, skip, gap, mask_exact, max_instruction_distance}
use typeberry.Pvm.BasicBlocks.{
  member, is_termination, reset, is_beginning, IsAdded, loop_sound, loop_complete,
}

-- The opcodes that end a basic block: trap and fallthrough, the jump, the dynamic jump, the load of
-- an immediate with a jump and the branches on an immediate, the branches on two registers, and the
-- load of an immediate with a dynamic jump.
abbrev pub Terminates : ℕ → Type 0
Terminates opcode =
    (opcode ≤ 1)
    ⊎ (opcode ≡ 40)
    ⊎ (opcode ≡ 50)
    ⊎ ((80 ≤ opcode) × (opcode ≤ 90))
    ⊎ ((170 ≤ opcode) × (opcode ≤ 175))
    ⊎ (opcode ≡ 180)

is_termination_iff : (opcode : ℕ) → (is_termination opcode ≡ true) ↔ Terminates opcode
unfolding is_termination member
is_termination_iff opcode = (λ e. ground arith, λ t. ground arith)

-- From every index a next instruction, or the end, is fewer than 256 bytes away.
abbrev pub IsDense : List Bool → Type 0
IsDense bits = (i : ℕ) → i < length bits → gap (drop i bits) < 256

behind_table :
    (bits : List Bool) (i : ℕ)
    → length bits ≤ i
    → (get_or (mask_table bits) i 0 ≡ 0) × (gap (drop i bits) ≡ 0)
unfolding mask_table build_table gap
behind_table [] zero l = (refl, refl)
behind_table [] (suc i) l = (refl, refl)
behind_table (b ∷ bits) zero l = absurd (omega arith)
behind_table (b ∷ bits) (suc i) l = behind_table bits i (omega arith)

skip_exact :
    (bits : List Bool) (i : ℕ)
    → IsDense bits
    → skip (mask_table bits) i ≡ min (gap (drop i bits)) max_instruction_distance
unfolding skip
skip_exact bits i dense = elim (Bool-cases (ltb i (length bits))) [
  | inl e ↦ let l = ltb→lt i (length bits) e in (mask_exact bits i l (dense i l)).1
  | inr e ↦ let (t, g) = behind_table bits i (ltb→ge i (length bits) e) in rw (t, g) refl
]

-- An instruction at `i` ends a block, and `pc` is the index of the instruction behind it or the end of
-- the code, or, if that is more than 25 bytes behind the index after `i`, the index 26 behind `i`.
abbrev pub StartsAfter : List ℕ → List Bool → ℕ → ℕ → Type 0
StartsAfter code bits pc i =
    (get_elem? bits i ≡ some true)
    × Terminates (get_or code i 0)
    × (pc ≡ i + 1 + min (gap (drop (i + 1) bits)) max_instruction_distance)

both : (a b : Bool) → (a && b) ≡ true → (a ≡ true) × (b ≡ true)
both true true e = (refl, refl)
both true false e = absurd (cc)
both false b e = absurd (cc)

module _ (code : List ℕ) (bits : List Bool) (same : length code ≡ length bits)
    (dense : IsDense bits) (pc : ℕ) where
  IsAdded-StartsAfter :
      (i : ℕ) → i < length code → IsAdded code (mask_table bits) pc i ↔ StartsAfter code bits pc i
  IsAdded-StartsAfter i l =
      let in_mask : i < length bits = omega arith in
      let at = (mask_exact bits i in_mask (dense i in_mask)).0 in
      let opcode = is_termination_iff (get_or code i 0) in
      let far = skip_exact bits (i + 1) dense in
      (
        λ (ends, e). let (a, b) = both _ _ ends in (at.0 a, opcode.0 b, e ∙ ap (◌+◌ (i + 1)) far),
        λ (a, b, e). (rw (at.1 a, opcode.1 b) refl, e ∙ ap (◌+◌ (i + 1)) (sym far)),
      )

  -- For code with a bit of the mask for each byte and instructions fewer than 256 bytes apart, an
  -- index that counts as the start of a basic block is 0, or an instruction that ends a block stands
  -- before it: then it is the index of the next instruction, or the end of the code where there is
  -- none, but at most 26 bytes behind the opcode, also where that is no instruction.
  pub reset_sound :
      is_beginning (reset code (mask_table bits)) pc ≡ true
      → (pc ≡ 0) ⊎ ((j : ℕ) × (j < length code) × StartsAfter code bits pc j)
  unfolding is_beginning reset member
  reset_sound h = elim (Bool-cases (pc == 0)) [
    | inl first ↦ inl (ground arith)
    | inr later ↦
        let (j, lo, hi, s) = loop_sound (length code) 0 code (mask_table bits) pc (ground arith) in
        let l : j < length code = omega arith in inr (j, l, (IsAdded-StartsAfter j l).0 s)
  ]

  -- For such code, conversely, index 0 counts as a start, and for every instruction that ends a block
  -- the index of the next instruction, or the end of the code where there is none, and if that is more
  -- than 26 bytes behind the opcode, the index 26 bytes behind it.
  pub reset_complete :
      (pc ≡ 0) ⊎ ((j : ℕ) × (j < length code) × StartsAfter code bits pc j)
      → is_beginning (reset code (mask_table bits)) pc ≡ true
  unfolding is_beginning reset member
  reset_complete (inl z) = ground arith
  reset_complete (inr (j, h, s)) = ground (
    arith,
    loop_complete (length code) 0 code (mask_table bits) pc j (omega arith) (omega arith)
        ((IsAdded-StartsAfter j h).1 s),
  )
