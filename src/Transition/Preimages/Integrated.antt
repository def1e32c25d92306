-- ===== src/Transition/Preimages/Integrated.antt =====
-- Which preimages are integrated, and what the services get.
use typeberry.Base.{
  ℕ, ◌≡◌, refl, sym, ap, ◌∙◌, arith, Bool, Bool-cases, true, false, ◌==◌, ==_iff, ◌||◌, List, [],
  ◌∷◌, ◌++◌, length, append-nil, append_assoc, All, Option, Option-cases, none, some, inl, inr,
  if◌then◌else◌,
}
use typeberry.Transition.Preimages.{
  Blob, Preimage, Service, PreimagesInput, UpdatePreimage, ok, are_sorted, Pending, push_update,
  provide, unneeded, select_loop, integrate, not_requested, is_requested,
}
use typeberry.Transition.Preimages.Sorting.{Sorted, Sorted-are_sorted, are_sorted-Sorted}

-- The updates of a service.
abbrev pub updates_of : ℕ → Pending → List UpdatePreimage
updates_of r [] = []
updates_of r ((s, updates) ∷ pending) = if s == r then updates else updates_of r pending

differs : (a b c : ℕ) → (a == b) ≡ false → (a == c) ≡ true → (b == c) ≡ false
differs a b c h k = ground arith

updates_of-push_update :
    (r service : ℕ) (update : UpdatePreimage) (pending : Pending)
    → updates_of r (push_update service update pending)
      ≡ (if service == r then updates_of r pending ++ (update ∷ []) else updates_of r pending)
unfolding push_update
updates_of-push_update r service update [] = elim (Bool-cases (service == r)) [
  | inl e ↦ rw (e) refl
  | inr e ↦ rw (e) refl
]
updates_of-push_update r service update ((s, updates) ∷ pending) =
    elim (Bool-cases (s == service)) [
      | inl e ↦
          rw (e, (==_iff s service).0 e)
            (elim (Bool-cases (service == r)) [ inl f ↦ rw (f) refl | inr f ↦ rw (f) refl ])
      | inr e ↦ rw (e) (elim (Bool-cases (s == r)) [
        | inl f ↦ let apart : (service == r) ≡ false = differs s service r e f in rw (f, apart) refl
        | inr f ↦ rw (f) (updates_of-push_update r service update pending)
      ])
    ]

no_slots : (o : Option (List ℕ)) → not_requested o ≡ false → o ≡ some []
no_slots none h = cc
no_slots (some []) h = refl
no_slots (some (x ∷ slots)) h =
    let full : is_requested (x ∷ slots) ≡ false = ground arith in (let bad = rw (full) at h in cc)

or_false : (a b : Bool) → (a || b) ≡ false → (a ≡ false) × (b ≡ false)
or_false true b h = cc
or_false false b h = (refl, h)

module _ (hash_bytes : Blob → Blob) (get_service : ℕ → Option Service) where
  -- The service is there, lacks the preimage, and has requested it: its history has no slot yet.
  abbrev Wanted : Preimage → Type 0
  Wanted p =
      (service : Service) × (get_service p.requester ≡ some service)
      × (service.has_preimage (hash_bytes p.blob) ≡ false)
      × (service.get_lookup_history (hash_bytes p.blob) (length p.blob) ≡ some [])

  -- The updates that a service gets, in the order of the preimages.
  abbrev pub provided : ℕ → ℕ → List Preimage → List UpdatePreimage
  provided slot r [] = []
  provided slot r (p ∷ preimages) =
      if p.requester == r
      then provide hash_bytes slot p ∷ provided slot r preimages
      else provided slot r preimages

  select_loop-Wanted :
      (slot : ℕ) (preimages : List Preimage) (pending : Pending)
      → All Wanted preimages
      → (changes : Pending) × (select_loop hash_bytes get_service slot preimages pending
          ≡ ok changes)
        × ((r : ℕ) → updates_of r changes ≡ updates_of r pending ++ provided slot r preimages)
  unfolding select_loop
  select_loop-Wanted slot [] pending w =
      (pending, refl, λ r. sym (append-nil (updates_of r pending)))
  select_loop-Wanted slot (p ∷ preimages) pending ((service, found, lacks, requested), w) =
      let update = provide hash_bytes slot p in
      let pushed = push_update p.requester update pending in
      let (changes, e, all) = select_loop-Wanted slot preimages pushed w in
      (
        changes,
        rw (found, lacks, requested) e,
        λ r.
            all r
            ∙ ap (λ z. z ++ provided slot r preimages)
                (updates_of-push_update r p.requester update pending)
            ∙ elim (Bool-cases (p.requester == r)) [
              | inl here ↦
                  rw (here)
                    (append_assoc (updates_of r pending) (update ∷ []) (provided slot r preimages))
              | inr there ↦ rw (there) refl
            ],
      )

  Wanted-select_loop :
      (slot : ℕ) (preimages : List Preimage) (pending changes : Pending)
      → select_loop hash_bytes get_service slot preimages pending ≡ ok changes
      → All Wanted preimages
  unfolding select_loop
  Wanted-select_loop slot [] pending changes h = tt
  Wanted-select_loop slot (p ∷ preimages) pending changes h =
      elim (Option-cases (get_service p.requester)) [
        | inl missing ↦ (let bad = rw (missing) at h in cc)
        | inr (service, found) ↦ elim (Bool-cases (unneeded hash_bytes service p)) [
          | inl useless ↦ (let bad = rw (found, useless) at h in cc)
          | inr useful ↦
              let (lacks, requested) = or_false _ _ useful in
              (
                (service, found, lacks, no_slots _ requested),
                Wanted-select_loop slot preimages
                    (push_update p.requester (provide hash_bytes slot p) pending) changes
                    (rw (found, useful) at h),
              )
        ]
      ]

  abbrev pub IsIntegrable : PreimagesInput → Type 0
  IsIntegrable input = Sorted input.preimages × All Wanted input.preimages

  -- Sorted preimages without duplicates that their services have requested and lack are integrated:
  -- each service gets the updates for its own preimages, in their order. No others are integrated.
  pub integrate_iff :
      (input : PreimagesInput)
      → (IsIntegrable input
          → (changes : Pending) × (integrate hash_bytes get_service input ≡ ok changes)
            × ((r : ℕ) → updates_of r changes ≡ provided input.slot r input.preimages))
        × ((changes : Pending)
            → integrate hash_bytes get_service input ≡ ok changes
            → IsIntegrable input)
  unfolding integrate
  integrate_iff input = (
    λ (sorted, wanted).
        rw (Sorted-are_sorted input.preimages sorted)
          (select_loop-Wanted input.slot input.preimages [] wanted),
    λ changes h. elim (Bool-cases (are_sorted input.preimages)) [
      | inl sorted ↦ (
        are_sorted-Sorted input.preimages sorted,
        Wanted-select_loop input.slot input.preimages [] changes (rw (sorted) at h),
      )
      | inr unsorted ↦ (let bad = rw (unsorted) at h in cc)
    ],
  )
