-- ===== src/Pvm/Branches/Taken.antt =====
-- When the branches are taken, with the signed order as the order of the words with the sign bit
-- turned over.
use typeberry.Base.{ℕ, ◌^◌, ◌<◌, ◌≡◌, refl, ap, ◌∙◌, arith, Bool, not, ltb, leb, ◌==◌}
use typeberry.Base.Int.{signed, ltb_ℤ}
use typeberry.Pvm.Registers.{Registers, IsRegisters, get_u64, get_i64, get_u64-lt}
use typeberry.Pvm.Alu.Reference.{flip, signed_order}
use typeberry.Pvm.Branches.{
  Context, go, Branch, BranchImmediate, dispatch_two_regs, dispatch_immediate, on_eq, on_ne,
  on_lt_u, on_lt_s, on_ge_u, on_ge_s, on_eq_imm, on_ne_imm, on_lt_u_imm, on_le_u_imm, on_ge_u_imm,
  on_gt_u_imm, on_lt_s_imm, on_le_s_imm, on_ge_s_imm, on_gt_s_imm,
}

abbrev pub taken : Branch → ℕ → ℕ → Bool
taken on_eq a b = a == b
taken on_ne a b = not (a == b)
taken on_lt_u a b = ltb a b
taken on_lt_s a b = ltb (flip a) (flip b)
taken on_ge_u a b = leb b a
taken on_ge_s a b = leb (flip b) (flip a)

abbrev pub taken_immediate : BranchImmediate → ℕ → ℕ → Bool
taken_immediate on_eq_imm a b = a == b
taken_immediate on_ne_imm a b = not (a == b)
taken_immediate on_lt_u_imm a b = ltb a b
taken_immediate on_le_u_imm a b = leb a b
taken_immediate on_ge_u_imm a b = leb b a
taken_immediate on_gt_u_imm a b = ltb b a
taken_immediate on_lt_s_imm a b = ltb (flip a) (flip b)
taken_immediate on_le_s_imm a b = leb (flip a) (flip b)
taken_immediate on_ge_s_imm a b = leb (flip b) (flip a)
taken_immediate on_gt_s_imm a b = ltb (flip b) (flip a)

not-ltb : (a b : ℕ) → not (ltb a b) ≡ leb b a
not-ltb a b = ground arith

signed_ge :
    (a b : ℕ)
    → a < 2 ^ 64
    → b < 2 ^ 64
    → not (ltb_ℤ (signed (2 ^ 63) a) (signed (2 ^ 63) b)) ≡ leb (flip b) (flip a)
signed_ge a b h k = ap not (signed_order a b h k) ∙ not-ltb (flip a) (flip b)

-- On 13 registers of 64-bit words, a branch on two registers goes to its target as `branch` does
-- when its comparison of the two words holds.
pub dispatch_two_regs-taken :
    (op : Branch) (regs : Registers) (i j : ℕ) (c : Context)
    → IsRegisters regs
    → dispatch_two_regs op regs i j c ≡ go c (taken op (get_u64 regs i) (get_u64 regs j))
unfolding dispatch_two_regs get_i64
dispatch_two_regs-taken on_eq regs i j c h = refl
dispatch_two_regs-taken on_ne regs i j c h = refl
dispatch_two_regs-taken on_lt_u regs i j c h = refl
dispatch_two_regs-taken on_lt_s regs i j c h =
    ap (go c) (signed_order _ _ (get_u64-lt regs i h.1) (get_u64-lt regs j h.1))
dispatch_two_regs-taken on_ge_u regs i j c h = refl
dispatch_two_regs-taken on_ge_s regs i j c h =
    ap (go c) (signed_ge _ _ (get_u64-lt regs i h.1) (get_u64-lt regs j h.1))

-- On 13 registers of 64-bit words, a branch on a register and a 64-bit immediate goes to its target
-- as `branch` does when its comparison of the two words holds.
pub dispatch_immediate-taken :
    (op : BranchImmediate) (regs : Registers) (i imm : ℕ) (c : Context)
    → IsRegisters regs
    → imm < 2 ^ 64
    → dispatch_immediate op regs i imm c ≡ go c (taken_immediate op (get_u64 regs i) imm)
unfolding dispatch_immediate get_i64
dispatch_immediate-taken on_eq_imm regs i imm c h k = refl
dispatch_immediate-taken on_ne_imm regs i imm c h k = refl
dispatch_immediate-taken on_lt_u_imm regs i imm c h k = refl
dispatch_immediate-taken on_le_u_imm regs i imm c h k = refl
dispatch_immediate-taken on_ge_u_imm regs i imm c h k = refl
dispatch_immediate-taken on_gt_u_imm regs i imm c h k = refl
dispatch_immediate-taken on_lt_s_imm regs i imm c h k =
    ap (go c) (signed_order _ _ (get_u64-lt regs i h.1) k)
dispatch_immediate-taken on_le_s_imm regs i imm c h k =
    ap (go c) (signed_ge _ _ k (get_u64-lt regs i h.1))
dispatch_immediate-taken on_ge_s_imm regs i imm c h k =
    ap (go c) (signed_ge _ _ (get_u64-lt regs i h.1) k)
dispatch_immediate-taken on_gt_s_imm regs i imm c h k =
    ap (go c) (signed_order _ _ k (get_u64-lt regs i h.1))
