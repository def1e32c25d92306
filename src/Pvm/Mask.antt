-- ===== src/Pvm/Mask.antt =====
-- program-decoder/mask.ts: the table of distances to the next instruction.
use typeberry.Base.{
  ℕ, zero, suc, ◌+◌, ◌%◌, ◌^◌, ◌<◌, ◌≡◌, ◌↔◌, refl, ap, ◌∙◌, ◌≢◌, arith, min, Bool, true, false,
  none, some, List, [], ◌∷◌, length, drop, get_or, get_elem?, ◌==◌, if◌then◌else◌,
}

abbrev pub max_instruction_distance : ℕ
max_instruction_distance = 25

-- The bits of the mask, lowest index first. The loop of `buildLookupTableForward` goes from the last
-- bit to the first; the second part is its `lastInstructionOffset`, and the table holds bytes.
unfoldable pub build_table : List Bool → List ℕ × ℕ
build_table [] = ([], 0)
build_table (b ∷ bs) =
    let (table, last) = build_table bs in
    let offset = if b then 0 else last + 1 in (offset % 2 ^ 8 ∷ table, offset)

-- `Mask.new`
unfoldable pub mask_table : List Bool → List ℕ
unfolding build_table
mask_table bits = (build_table bits).0

-- `lookupTableForward[index] === 0`, false behind the end.
unfoldable pub is_instruction : List ℕ → ℕ → Bool
is_instruction table i = elim (get_elem? table i) [ none ↦ false | some d ↦ d == 0 ]

-- `getNoOfBytesToNextInstruction`
unfoldable pub skip : List ℕ → ℕ → ℕ
skip table i = min (get_or table i 0) max_instruction_distance

-- The distance to the next set bit, or to the end.
unfoldable pub gap : List Bool → ℕ
gap [] = 0
gap (true ∷ bs) = 0
gap (false ∷ bs) = suc (gap bs)

build_table-gap : (bits : List Bool) → (build_table bits).1 ≡ gap bits
unfolding build_table gap
build_table-gap [] = refl
build_table-gap (true ∷ bs) = refl
build_table-gap (false ∷ bs) = omega (arith, build_table-gap bs)

-- An entry of the table is the distance, as a byte.
mask_table-entry :
    (bits : List Bool) (i : ℕ)
    → i < length bits
    → get_elem? (mask_table bits) i ≡ some (gap (drop i bits) % 2 ^ 8)
unfolding mask_table
mask_table-entry [] i h = elim h [ ]
mask_table-entry (b ∷ bs) zero h = ground (arith, build_table-gap (b ∷ bs))
mask_table-entry (b ∷ bs) (suc i) h = mask_table-entry bs i (omega arith)

get_or-some : (xs : List ℕ) (i v : ℕ) → get_elem? xs i ≡ some v → get_or xs i 0 ≡ v
get_or-some [] i v h = cc
get_or-some (x ∷ xs) zero v h = cc
get_or-some (x ∷ xs) (suc i) v h = get_or-some xs i v h

gap_zero :
    (bits : List Bool) (i : ℕ)
    → i < length bits
    → (gap (drop i bits) ≡ 0) ↔ (get_elem? bits i ≡ some true)
unfolding gap
gap_zero [] i h = elim h [ ]
gap_zero (true ∷ bs) zero h = ((λ _. refl), λ _. refl)
gap_zero (false ∷ bs) zero h = ((λ e. absurd (omega arith)), λ e. absurd (cc))
gap_zero (b ∷ bs) (suc i) h = gap_zero bs i (omega arith)

-- While the next instruction is fewer than 256 bytes away, the table answers as the mask does:
-- an index is an instruction exactly if its bit is set, and the distance is exact up to 25.
pub mask_exact :
    (bits : List Bool) (i : ℕ)
    → i < length bits
    → gap (drop i bits) < 256
    → ((is_instruction (mask_table bits) i ≡ true) ↔ (get_elem? bits i ≡ some true))
      × (skip (mask_table bits) i ≡ min (gap (drop i bits)) max_instruction_distance)
unfolding is_instruction skip
mask_exact bits i h near =
    rw (entry, is_instruction, get_or-some (mask_table bits) i _ entry)
      (((λ e. (gap_zero bits i h).0 (zero_of e)), λ e. set_of ((gap_zero bits i h).1 e)), refl)
  where
    small : gap (drop i bits) % 2 ^ 8 ≡ gap (drop i bits)
    small = omega arith

    entry : get_elem? (mask_table bits) i ≡ some (gap (drop i bits))
    entry = mask_table-entry bits i h ∙ ap some small

    zero_of : (gap (drop i bits) == 0) ≡ true → gap (drop i bits) ≡ 0
    zero_of e = ground arith

    set_of : gap (drop i bits) ≡ 0 → (gap (drop i bits) == 0) ≡ true
    set_of e = ground arith

-- Where the next instruction is a positive multiple of 256 bytes away, the table has wrapped to 0:
-- the index passes for an instruction though its bit is clear.
pub mask_wraps :
    (bits : List Bool) (i : ℕ)
    → i < length bits
    → 0 < gap (drop i bits)
    → gap (drop i bits) % 256 ≡ 0
    → (is_instruction (mask_table bits) i ≡ true) × (get_elem? bits i ≢ some true)
unfolding is_instruction
mask_wraps bits i h far wrapped = (
  rw (mask_table-entry bits i h, is_instruction) (ground arith),
  λ e. absurd (omega (arith, (gap_zero bits i h).1 e)),
)
