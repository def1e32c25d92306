-- ===== src/Tests/Preimages.antt =====
-- Runs of the preimages.
use typeberry.Base.{ℕ, ◌≡◌, refl, false, ◌==◌, [], ◌∷◌, Option, none, some, if◌then◌else◌}
use typeberry.Transition.Preimages.{
  Blob, Service, PreimagesInput, ok, error, preimages_not_sorted_unique, compare, is_less_or_equal,
  are_sorted, Pending, push_update, select_loop, integrate,
}
use typeberry.Transition.Preimages.Integrated.{updates_of, provided, IsIntegrable, integrate_iff}

abbrev hash : Blob → Blob
hash blob = 0 ∷ blob

-- A service that has requested everything.
abbrev eager : Service
eager = record { has_preimage = λ _. false; get_lookup_history = λ _ _. some [] }

abbrev services : ℕ → Option Service
services id = if id == 9 then none else some eager

abbrev input : PreimagesInput
input = record {
  preimages =
      record { requester = 1; blob = 5 ∷ [] }
      ∷ record { requester = 1; blob = 5 ∷ 6 ∷ [] }
      ∷ record { requester = 2; blob = [] }
      ∷ [];
  slot = 40;
}

run :
    integrate hash services input
    ≡ ok (
        (
          1,
          record { hash = 0 ∷ 5 ∷ []; blob = 5 ∷ []; slot = 40; provided_for = 1 }
              ∷ record { hash = 0 ∷ 5 ∷ 6 ∷ []; blob = 5 ∷ 6 ∷ []; slot = 40; provided_for = 1 }
              ∷ [],
        )
        ∷ (2, record { hash = 0 ∷ []; blob = []; slot = 40; provided_for = 2 } ∷ [])
        ∷ [])
unfolding integrate select_loop push_update are_sorted compare is_less_or_equal
run = refl

twice :
    integrate hash services (record {
      preimages =
          record { requester = 1; blob = 5 ∷ [] } ∷ record { requester = 1; blob = 5 ∷ [] } ∷ [];
      slot = 40;
    })
    ≡ error preimages_not_sorted_unique
unfolding integrate select_loop push_update are_sorted compare is_less_or_equal
twice = refl

integrate_iff_example :
    (IsIntegrable hash services input
      → (changes : Pending) × (integrate hash services input ≡ ok changes)
        × ((r : ℕ) → updates_of r changes ≡ provided hash services 40 r input.preimages))
    × ((changes : Pending)
        → integrate hash services input ≡ ok changes
        → IsIntegrable hash services input)
integrate_iff_example = integrate_iff hash services input
