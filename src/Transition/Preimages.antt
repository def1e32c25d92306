-- ===== src/Transition/Preimages.antt =====
-- packages/jam/transition/preimages.ts: the preimages that a block brings to the services.
pub mod Sorting
pub mod Integrated
use typeberry.Base.{
  ℕ, Bool, true, false, ltb, ◌==◌, ◌||◌, not, List, [], ◌∷◌, ◌++◌, length, Option, none, some,
  if◌then◌else◌,
}
use typeberry.Collections.SortedArray.{Order, less, equal, greater}

abbrev pub Blob : Type 0
Blob = List ℕ

-- packages/jam/block/preimage.ts
pub record Preimage : Type 0 where
  pub requester : ℕ
  pub blob : Blob

pub data PreimagesErrorCode : Type 0 where
  preimage_unneeded preimages_not_sorted_unique account_not_found : PreimagesErrorCode

-- What the state says of a service: whether it has a preimage, by its hash, and the slots of its
-- lookup history, by the hash and the length.
pub record Service : Type 0 where
  pub has_preimage : Blob → Bool
  pub get_lookup_history : Blob → ℕ → Option (List ℕ)

pub record PreimagesInput : Type 0 where
  pub preimages : List Preimage
  pub slot : ℕ

-- `UpdatePreimage.provide` of packages/jam/state/state-update.ts.
pub record UpdatePreimage : Type 0 where
  pub hash : Blob
  pub blob : Blob
  pub slot : ℕ
  pub provided_for : ℕ

pub data Result (A : Type 0) : Type 0 where
  ok : A → Result A
  error : PreimagesErrorCode → Result A

-- `compare` of packages/core/bytes/bytes.ts
unfoldable pub compare : Blob → Blob → Order
compare [] [] = equal
compare [] (y ∷ ys) = less
compare (x ∷ xs) [] = greater
compare (x ∷ xs) (y ∷ ys) =
    let rest = compare xs ys in if ltb x y then less else if ltb y x then greater else rest

unfoldable pub is_less_or_equal : Order → Bool
is_less_or_equal less = true
is_less_or_equal equal = true
is_less_or_equal greater = false

-- The loop over neighbours: false if it returns an error.
unfoldable pub are_sorted : List Preimage → Bool
are_sorted [] = true
are_sorted (p ∷ []) = true
are_sorted (previous ∷ current ∷ preimages) =
    let rest = are_sorted (current ∷ preimages) in
    if ltb previous.requester current.requester
    then rest
    else if ltb current.requester previous.requester
        || is_less_or_equal (compare current.blob previous.blob)
    then false
    else rest

abbrev pub is_requested : List ℕ → Bool
is_requested slots = length slots == 0

-- `slots === null || !isRequested(slots)`
abbrev pub not_requested : Option (List ℕ) → Bool
not_requested none = true
not_requested (some slots) = not (is_requested slots)

-- The `Map` from services to updates, in the order of insertion.
abbrev pub Pending : Type 0
Pending = List (ℕ × List UpdatePreimage)

unfoldable pub push_update : ℕ → UpdatePreimage → Pending → Pending
push_update service update [] = (service, update ∷ []) ∷ []
push_update service update ((s, updates) ∷ pending) =
    let rest = push_update service update pending in
    if s == service then (s, updates ++ (update ∷ [])) ∷ pending else (s, updates) ∷ rest

module _ (hash_bytes : Blob → Blob) where
  abbrev pub provide : ℕ → Preimage → UpdatePreimage
  provide slot p = record {
    hash = hash_bytes p.blob;
    blob = p.blob;
    slot = slot;
    provided_for = p.requester;
  }

  abbrev pub unneeded : Service → Preimage → Bool
  unneeded service p =
      service.has_preimage (hash_bytes p.blob)
      || not_requested (service.get_lookup_history (hash_bytes p.blob) (length p.blob))

  -- One turn of the second loop, with the result of the turns behind it.
  abbrev pub select_turn : Option Service → Preimage → Result Pending → Result Pending
  select_turn none p rest = error account_not_found
  select_turn (some service) p rest = if unneeded service p then error preimage_unneeded else rest

module _ (hash_bytes : Blob → Blob) (get_service : ℕ → Option Service) where
  unfoldable pub select_loop : ℕ → List Preimage → Pending → Result Pending
  select_loop slot [] pending = ok pending
  select_loop slot (p ∷ preimages) pending =
      select_turn hash_bytes (get_service p.requester) p
        (select_loop slot preimages (push_update p.requester (provide hash_bytes slot p) pending))

  unfoldable pub integrate : PreimagesInput → Result Pending
  integrate input =
      let selected = select_loop input.slot input.preimages [] in
      if are_sorted input.preimages then selected else error preimages_not_sorted_unique
