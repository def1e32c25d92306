-- ===== src/Transition/Assurances/Checked.antt =====
-- The first loop: what it lets pass, and the counts that it leaves.
use typeberry.Base.{
  ℕ, suc, ◌+◌, ◌<◌, ◌≤◌, ◌≡◌, refl, sym, ◌∙◌, arith, true, Bool-cases, ltb, ltb→ge, ge→ltb, ◌==◌,
  ==_iff, List, [], ◌∷◌, length, get_or, inl, inr,
}
use typeberry.Collections.BlobKeys.{is_equal_to}
use typeberry.Transition.Assurances.{
  Bytes, Assurance, ok, bit_of, indices_of_set_bits, add_assurances, checks_loop,
}
use typeberry.Transition.Assurances.Votes.{votes, length-add_assurances, add_assurances-bit}

module _ (cores_count : ℕ) (parent_hash : Bytes) where
  -- Assurances anchored at the parent, by rising validator indices of `next` or more, with a bit for
  -- each core.
  abbrev pub Checked : ℕ → List (Assurance) → Type 0
  Checked next [] = Unit
  Checked next (a ∷ assurances) =
      (is_equal_to a.anchor parent_hash ≡ true)
      × (next ≤ a.validator_index)
      × (a.bitfield.bit_length ≡ cores_count)
      × Checked (suc a.validator_index) assurances

  abbrev added : Assurance → List ℕ → List ℕ
  added a counts = add_assurances (indices_of_set_bits a.bitfield) counts

  length-added : (a : Assurance) (counts : List ℕ) → length (added a counts) ≡ length counts
  length-added a counts = length-add_assurances (indices_of_set_bits a.bitfield) counts

  get_or-added :
      (a : Assurance) (counts : List ℕ) (c : ℕ)
      → a.bitfield.bit_length ≡ cores_count
      → length counts ≡ cores_count
      → c < cores_count
      → get_or (added a counts) c 0 ≡ get_or counts c 0 + bit_of a.bitfield.raw c
  unfolding indices_of_set_bits
  get_or-added a counts c b n h =
      add_assurances-bit a.bitfield.bit_length 0 c a.bitfield.raw counts (omega arith) (omega arith)
        (omega arith)

  checks_loop-ok_cons :
      (next : ℕ) (counts : List ℕ) (a : Assurance) (assurances : List (Assurance))
      → is_equal_to a.anchor parent_hash ≡ true
      → next ≤ a.validator_index
      → a.bitfield.bit_length ≡ cores_count
      → checks_loop cores_count parent_hash next counts (a ∷ assurances)
        ≡ checks_loop cores_count parent_hash (suc a.validator_index) (added a counts) assurances
  unfolding checks_loop
  checks_loop-ok_cons next counts a assurances anchor order bits =
      rw
        (
          anchor,
          ge→ltb a.validator_index next order,
          (==_iff a.bitfield.bit_length cores_count).1 bits,
        )
        refl

  -- Checked assurances are counted.
  pub checks_loop-counts :
      (next : ℕ) (counts : List ℕ) (assurances : List (Assurance))
      → Checked next assurances
      → length counts ≡ cores_count
      → (after : List ℕ) × (checks_loop cores_count parent_hash next counts assurances ≡ ok after)
        × ((c : ℕ) → c < cores_count → get_or after c 0 ≡ get_or counts c 0 + votes c assurances)
  checks_loop-counts next counts [] h n = (counts, unfold checks_loop in refl, λ c l. omega arith)
  checks_loop-counts next counts (a ∷ assurances) (anchor, order, bits, h) n =
      let (after, e, count) =
        checks_loop-counts (suc a.validator_index) (added a counts) assurances h
          (length-added a counts ∙ n) in
      (
        after,
        checks_loop-ok_cons next counts a assurances anchor order bits ∙ e,
        λ c l. omega (arith, count c l, get_or-added a counts c bits n l),
      )

  -- The loop lets no others pass.
  pub checks_loop-Checked :
      (next : ℕ) (counts after : List ℕ) (assurances : List (Assurance))
      → checks_loop cores_count parent_hash next counts assurances ≡ ok after
      → Checked next assurances
  unfolding checks_loop
  checks_loop-Checked next counts after [] e = tt
  checks_loop-Checked next counts after (a ∷ assurances) e =
      elim (Bool-cases (is_equal_to a.anchor parent_hash)) [
        | inr anchor ↦ (let bad = rw (anchor) at e in cc)
        | inl anchor ↦ elim (Bool-cases (ltb a.validator_index next)) [
          | inl order ↦ (let bad = rw (anchor, order) at e in cc)
          | inr order ↦ elim (Bool-cases (a.bitfield.bit_length == cores_count)) [
            | inr bits ↦ (let bad = rw (anchor, order, bits) at e in cc)
            | inl bits ↦
                let length_ = (==_iff a.bitfield.bit_length cores_count).0 bits in
                let ordered = ltb→ge a.validator_index next order in
                (
                  anchor,
                  ordered,
                  length_,
                  checks_loop-Checked (suc a.validator_index) (added a counts) after assurances (
                      sym (checks_loop-ok_cons next counts a assurances anchor ordered length_)
                      ∙ e),
                )
          ]
        ]
      ]
