-- ===== src/Pvm/Gas.antt =====
-- packages/core/pvm-interpreter/gas.ts: the gas counter.
use typeberry.Base.{
  ℕ, ◌+◌, ◌-◌, ◌≤◌, ◌≡◌, refl, ap, ◌∙◌, arith, Bool, Bool-cases, true, false, ltb, leb, List, [],
  ◌∷◌, inl, inr, if◌then◌else◌, min, le→leb, leb→le, ge→ltb, lt→ltb, ◌<◌,
}

pub record GasCounter : Type 0 where
  pub gas : ℕ
  pub initial_gas : ℕ

unfoldable pub gas_counter : ℕ → GasCounter
gas_counter gas = record { gas = gas; initial_gas = gas }

-- The answer, whether the gas was not enough, and the counter.
unfoldable pub sub : ℕ → GasCounter → Bool × GasCounter
sub g c =
    if leb g c.gas
    then (false, record { gas = c.gas - g; initial_gas = c.initial_gas })
    else (true, record { gas = 0; initial_gas = c.initial_gas })

unfoldable pub used : GasCounter → ℕ
used c = if ltb c.initial_gas c.gas then c.initial_gas else c.initial_gas - c.gas

-- Charges one after the other, until one is not covered.
unfoldable pub charge : List ℕ → GasCounter → Bool × GasCounter
charge [] c = (false, c)
charge (g ∷ gs) c = let next = sub g c in if next.0 then next else charge gs next.1

abbrev pub sum : List ℕ → ℕ
sum [] = 0
sum (g ∷ gs) = g + sum gs

sub-covered :
    (g : ℕ) (c : GasCounter)
    → g ≤ c.gas
    → sub g c ≡ (false, record { gas = c.gas - g; initial_gas = c.initial_gas })
unfolding sub
sub-covered g c h = rw (le→leb g c.gas h) refl

sub-short :
    (g : ℕ) (c : GasCounter)
    → c.gas < g
    → sub g c ≡ (true, record { gas = 0; initial_gas = c.initial_gas })
unfolding sub
sub-short g c h = ground arith

charge_from :
    (gs : List ℕ) (c : GasCounter)
    → charge gs c
      ≡ (ltb c.gas (sum gs), record { gas = c.gas - sum gs; initial_gas = c.initial_gas })
unfolding charge
charge_from [] c =
    let same : c.gas - 0 ≡ c.gas = omega arith in rw (ge→ltb c.gas 0 (omega arith), same) refl
charge_from (g ∷ gs) c = elim (Bool-cases (leb g c.gas)) [
  | inl e ↦
      let rest = charge_from gs (record { gas = c.gas - g; initial_gas = c.initial_gas }) in
      let least : ltb (c.gas - g) (sum gs) ≡ ltb c.gas (g + sum gs) = ground arith in
      let left : c.gas - g - sum gs ≡ c.gas - (g + sum gs) = omega arith in
      rw (sub-covered g c (leb→le g c.gas e)) (rest ∙ rw (least, left) refl)
  | inr e ↦
      let short : c.gas < g = ground arith in
      let over : ltb c.gas (g + sum gs) ≡ true = lt→ltb c.gas (g + sum gs) (omega arith) in
      let left : c.gas - (g + sum gs) ≡ 0 = omega arith in rw (sub-short g c short, over, left) refl
]

-- Charging a fresh counter for a list of costs fails just if the gas is less than their sum, and
-- the gas used is their sum, or all of the gas.
pub charge-used :
    (gas : ℕ) (gs : List ℕ)
    → ((charge gs (gas_counter gas)).0 ≡ ltb gas (sum gs))
      × (used (charge gs (gas_counter gas)).1 ≡ min gas (sum gs))
unfolding used gas_counter
charge-used gas gs =
    let e = charge_from gs (record { gas = gas; initial_gas = gas }) in
    (
      ap (λ z. z.0) e,
      ap (λ z. used z.1) e ∙ rw (ge→ltb gas (gas - sum gs) (omega arith)) (omega arith),
    )
