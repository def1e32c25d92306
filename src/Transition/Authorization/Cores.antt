-- ===== src/Transition/Authorization/Cores.antt =====
-- The transition refills the pool of every core.
use typeberry.Base.{
  ℕ, zero, suc, ◌+◌, ◌%◌, ◌≤◌, ◌<◌, ◌≡◌, refl, sym, ap, ◌∙◌, arith, Bool-cases, List, length,
  get_elem?, get_elem?-some, get_elem?-set_self, get_elem?-set_ne, length-set, set, Option, some,
  inl, inr, ◌==◌, ==_iff, true, All,
}
use typeberry.Transition.HashSet.{Hash}
use typeberry.Transition.Authorization.{
  AuthorizationState, AuthorizationInput, authorization_queue_size, next_pool, cores_loop,
  transition,
}
use typeberry.Transition.Authorization.Pool.{
  Refilled, IsSized, All-get, AreDistinct, next_pool-drop, length-next_pool,
}

-- What the loop leaves from `core` on: the pools before are kept, those behind are refilled.
abbrev Looped :
    AuthorizationInput
    → List (List Hash)
    → ℕ
    → ℕ
    → List (List Hash)
    → Option (List (List Hash))
    → Type 0
Looped input queues left core pools o =
    (after : List (List Hash)) × (o ≡ some after)
    × (length after ≡ length pools)
    × ((i : ℕ) → i < core → get_elem? after i ≡ get_elem? pools i)
    × ((i : ℕ)
        → core ≤ i
        → i < core + left
        → (p : List Hash) × (get_elem? after i ≡ some p)
          × Refilled (record { auth_pools = pools; auth_queues = queues }) input i p)

queue_entry :
    (input : AuthorizationInput) (queue : List Hash)
    → length queue ≡ authorization_queue_size
    → (entry : Hash) × (get_elem? queue (input.slot % authorization_queue_size) ≡ some entry)
queue_entry input queue l = get_elem?-some queue (input.slot % 80) (omega arith)

loop-Looped :
    (input : AuthorizationInput) (queues : List (List Hash)) (left core : ℕ)
    (pools : List (List Hash))
    → core + left ≡ length queues
    → length pools ≡ length queues
    → All (λ q. length q ≡ authorization_queue_size) queues
    → ((i : ℕ) → AreDistinct (input.used i))
    → Looped input queues left core pools (cores_loop left core input queues pools)
unfolding cores_loop
loop-Looped input queues zero core pools h g s d =
    (pools, refl, refl, λ i l. refl, λ i l m. absurd (omega arith))
loop-Looped input queues (suc left) core pools h g s d =
    let (pool, pe) = get_elem?-some pools core (omega arith) in
    let (queue, qe) = get_elem?-some queues core (omega arith) in
    let (entry, ee) = queue_entry input queue (All-get _ queues core queue s qe) in
    let new = next_pool (input.used core) pool entry in
    let (after, e, len, before, behind) =
      loop-Looped input queues left (suc core) (set pools core new) (omega arith)
        (length-set pools core new ∙ g) s d in
    (
      after,
      rw (pe, qe, ee) e,
      len ∙ length-set pools core new,
      (λ i l. before i (omega arith) ∙ get_elem?-set_ne pools new (λ c. omega arith)),
      λ i l m. elim (Bool-cases (core == i)) [
        | inl here ↦
            let at : core ≡ i = ground arith in
            (
              new,
              ap (get_elem? after) (sym at)
                  ∙ before core (omega arith)
                  ∙ get_elem?-set_self pools core new (omega arith),
              rw (← at) (
                pool,
                queue,
                entry,
                pe,
                qe,
                ee,
                next_pool-drop _ pool entry (d core),
                length-next_pool _ pool entry,
              ),
            )
        | inr later ↦
            let (p, pa, (pl, qu, en, a, b, c, d, f)) = behind i (ground arith) (omega arith) in
            (
              p,
              pa,
              (pl, qu, en, sym (get_elem?-set_ne pools new (λ c. ground arith)) ∙ a, b, c, d, f),
            )
      ],
    )

-- For a state of the fixed sizes and sets of used authorizers that list each once, the transition
-- gives as many pools as there are cores, and each is the end, of at most `max_auth_pool_size`, of
-- the old pool, which loses each authorizer that was used on the core where it stands first and
-- nothing else, and then the entry of the core's queue for the slot.
pub transition-Refilled :
    (cores_count : ℕ) (state : AuthorizationState) (input : AuthorizationInput)
    → IsSized cores_count state
    → ((core : ℕ) → AreDistinct (input.used core))
    → (after : List (List Hash)) × (transition cores_count state input ≡ some after)
      × (length after ≡ cores_count)
      × ((core : ℕ)
          → core < cores_count
          → (p : List Hash) × (get_elem? after core ≡ some p) × Refilled state input core p)
unfolding transition
transition-Refilled cores_count state input sized distinct =
    let (after, e, len, before, behind) =
      loop-Looped input state.auth_queues cores_count 0 state.auth_pools (omega (arith, sized.1))
        (sized.0 ∙ sym sized.1) sized.2 distinct in
    let sized_after : (length after == cores_count) ≡ true =
      (==_iff (length after) cores_count).1 (len ∙ sized.0) in
    (
      after,
      rw (e, sized_after) refl,
      len ∙ sized.0,
      λ core l. behind core (omega arith) (omega arith),
    )
