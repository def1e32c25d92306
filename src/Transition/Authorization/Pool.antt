-- ===== src/Transition/Authorization/Pool.antt =====
-- What the pool of a core holds behind a block.
use typeberry.Base.{
  ℕ, zero, suc, ◌-◌, ◌%◌, ◌≤◌, ◌≡◌, refl, ap, ◌∙◌, arith, Bool-cases, false, ltb, List, [], ◌∷◌,
  ◌++◌, length, drop, get_elem?, length-drop, Option, some, if◌then◌else◌, inl, inr, ◌==◌, All,
  ◌&&◌, not, none,
}
use mathlib.Core.Path.{subst}
use typeberry.Transition.HashSet.{Hash, HashSet, has, delete}
use typeberry.Transition.Authorization.{
  AuthorizationState, AuthorizationInput, max_auth_pool_size, authorization_queue_size, remove_used,
  removed, shift_excess, next_pool,
}

abbrev pub count : Hash → List Hash → ℕ
count h [] = 0
count h (x ∷ xs) = if h == x then suc (count h xs) else count h xs

-- A set lists each of its elements once.
abbrev pub IsDistinct : HashSet → Type 0
IsDistinct [] = Unit {0}
IsDistinct (x ∷ xs) = (has xs x ≡ false) × IsDistinct xs

has-delete :
    (s : HashSet) (x h : Hash)
    → IsDistinct s
    → has (delete s x).1 h ≡ (if h == x then false else has s h)
has-delete [] x h d = ground arith
has-delete (y ∷ s) x h d = elim (Bool-cases (x == y)) [
  | inl e ↦ elim (Bool-cases (h == x)) [
    | inl g ↦ let same : h ≡ y = ground arith in rw (e, g, same) d.0
    | inr g ↦ let other : (h == y) ≡ false = ground arith in rw (e, g, other) refl
  ]
  | inr e ↦ elim (Bool-cases (h == x)) [
    | inl g ↦
        let other : (h == y) ≡ false = ground arith in
        rw (e, g, other) (has-delete s x h d.1 ∙ rw (g) refl)
    | inr g ↦ rw (e, has-delete s x h d.1, g) refl
  ]
]

IsDistinct-delete : (s : HashSet) (x : Hash) → IsDistinct s → IsDistinct (delete s x).1
IsDistinct-delete [] x d = tt
IsDistinct-delete (y ∷ s) x d = elim (Bool-cases (x == y)) [
  | inl e ↦ rw (e) d.1
  | inr e ↦ rw (e) (
    has-delete s x y d.1 ∙ elim (Bool-cases (y == x)) [ inl g ↦ rw (g) refl | inr g ↦ rw (g) d.0 ],
    IsDistinct-delete s x d.1,
  )
]

-- With a set that lists each used authorizer once, a used authorizer leaves the pool once, however
-- often the pool has it, and the others stay as often as they are there.
pub count-remove_used :
    (used : HashSet) (pool : List Hash) (h : Hash)
    → IsDistinct used
    → count h (remove_used used pool) ≡ (if has used h then count h pool - 1 else count h pool)
unfolding remove_used
count-remove_used used [] h d = ground arith
count-remove_used used (x ∷ pool) h d =
    let rest = count-remove_used (delete used x).1 pool h (IsDistinct-delete used x d) in
    let left = has-delete used x h d in
    elim (Bool-cases (has used x)) [
      | inl e ↦ elim (Bool-cases (h == x)) [
        | inl g ↦
            let same : h ≡ x = ground arith in
            rw (e, ap (has used) same, e, g) (rest ∙ rw (left, g) (omega arith))
        | inr g ↦ rw (e, g) (rest ∙ rw (left, g) refl)
      ]
      | inr e ↦ elim (Bool-cases (h == x)) [
        | inl g ↦
            let same : h ≡ x = ground arith in
            rw (e, ap (has used) same, e, g) (ap suc (rest ∙ rw (left, g) refl))
        | inr g ↦ rw (e, g) (rest ∙ rw (left, g) refl)
      ]
    ]

-- The pool without the authorizers that are used, each only where it stands first: `earlier` are
-- those before in the pool, and the set of used ones stays as it is.
unfoldable pub less_first : HashSet → List Hash → List Hash → List Hash
less_first used earlier [] = []
less_first used earlier (x ∷ pool) =
    let rest = less_first used (x ∷ earlier) pool in
    if has used x && not (has earlier x) then rest else x ∷ rest

remove_used-less_first :
    (used now earlier pool : List Hash)
    → IsDistinct now
    → ((h : Hash) → has now h ≡ (has used h && not (has earlier h)))
    → remove_used now pool ≡ less_first used earlier pool
unfolding remove_used less_first
remove_used-less_first used now earlier [] d e = refl
remove_used-less_first used now earlier (x ∷ pool) d e =
    let rest =
      remove_used-less_first used (delete now x).1 (x ∷ earlier) pool (IsDistinct-delete now x d)
        (λ h.
          has-delete now x h d
          ∙ elim (Bool-cases (h == x)) [ inl g ↦ rw (g) (ground arith) | inr g ↦ rw (g) (e h) ]) in
    rw (e x, rest) refl

-- What a block leaves of a pool before the entry of the queue comes.
abbrev pub left_over : Option HashSet → List Hash → List Hash
left_over none pool = pool
left_over (some used) pool = less_first used [] pool

-- What was used on a core is a set.
abbrev pub AreDistinct : Option HashSet → Type 0
AreDistinct none = Unit {0}
AreDistinct (some used) = IsDistinct used

removed-left_over :
    (used : Option HashSet) (pool : List Hash)
    → AreDistinct used
    → removed used pool ≡ left_over used pool
removed-left_over none pool d = refl
removed-left_over (some used) pool d =
    remove_used-less_first used used [] pool d (λ h. ground arith)

-- Dropping from the front down to the limit.
shift_excess-drop :
    (pool : List Hash) → shift_excess pool ≡ drop (length pool - max_auth_pool_size) pool
unfolding shift_excess
shift_excess-drop [] = refl
shift_excess-drop (x ∷ pool) = elim (Bool-cases (ltb max_auth_pool_size (length (x ∷ pool)))) [
  | inl e ↦
      let over : suc (length pool) - 8 ≡ suc (length pool - 8) = ground arith in
      rw (e, over) (shift_excess-drop pool)
  | inr e ↦ let fits : suc (length pool) - 8 ≡ 0 = ground arith in rw (e, fits) refl
]

-- The last `max_auth_pool_size` of the old pool, less the first of each that was used, and the
-- queue's entry.
abbrev pub Refilled : AuthorizationState → AuthorizationInput → ℕ → List Hash → Type 0
Refilled state input core after =
    (pool : List Hash) × (queue : List Hash) × (entry : Hash) × (get_elem? state.auth_pools core
      ≡ some pool)
    × (get_elem? state.auth_queues core ≡ some queue)
    × (get_elem? queue (input.slot % authorization_queue_size) ≡ some entry)
    × (after
        ≡ drop (length (left_over (input.used core) pool ++ (entry ∷ [])) - max_auth_pool_size)
            (left_over (input.used core) pool ++ (entry ∷ [])))
    × (length after ≤ max_auth_pool_size)

pub next_pool-drop :
    (used : Option HashSet) (pool : List Hash) (entry : Hash)
    → AreDistinct used
    → next_pool used pool entry
      ≡ drop
          (length (left_over used pool ++ (entry ∷ [])) - max_auth_pool_size)
          (left_over used pool ++ (entry ∷ []))
unfolding next_pool
next_pool-drop used pool entry d =
    rw (removed-left_over used pool d) (shift_excess-drop (left_over used pool ++ (entry ∷ [])))

pub length-next_pool :
    (used : Option HashSet) (pool : List Hash) (entry : Hash)
    → length (next_pool used pool entry) ≤ max_auth_pool_size
unfolding next_pool
length-next_pool used pool entry =
    let all = removed used pool ++ (entry ∷ []) in
    rw (shift_excess-drop all) (omega (arith, length-drop (length all - 8) all))

pub All-get :
    (P : List Hash → Type 0) (xs : List (List Hash)) (i : ℕ) (x : List Hash)
    → All P xs
    → get_elem? xs i ≡ some x
    → P x
All-get P [] i x h e = absurd (cc)
All-get P (y ∷ xs) zero x h e = let same : y ≡ x = cc in subst P same h.0
All-get P (y ∷ xs) (suc i) x h e = All-get P xs i x h.1 e

-- Every queue has `authorization_queue_size` entries.
abbrev pub IsSized : ℕ → AuthorizationState → Type 0
IsSized cores_count state =
    (length state.auth_pools ≡ cores_count)
    × (length state.auth_queues ≡ cores_count)
    × All (λ q. length q ≡ authorization_queue_size) state.auth_queues
