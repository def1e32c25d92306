-- ===== src/Transition/Authorization.antt =====
-- packages/jam/transition/authorization.ts: the pool of authorizers of each core.
pub mod Pool
pub mod Cores
use typeberry.Base.{
  ◌==◌, ℕ, zero, suc, ◌+◌, ◌-◌, ◌%◌, Bool, true, false, ltb, List, [], ◌∷◌, ◌++◌, length, drop,
  get_elem?, set, Option, none, some, if◌then◌else◌,
}
use typeberry.Transition.HashSet.{Hash, HashSet, has, delete}

-- packages/jam/state/auth.ts
abbrev pub max_auth_pool_size : ℕ
max_auth_pool_size = 8

abbrev pub authorization_queue_size : ℕ
authorization_queue_size = 80

pub record AuthorizationState : Type 0 where
  pub auth_pools : List (List Hash)
  pub auth_queues : List (List Hash)

pub record AuthorizationInput : Type 0 where
  pub slot : ℕ
  -- A `Map`: `none` for a core that it has no entry of.
  pub used : ℕ → Option HashSet

-- `pool.filter`, whose test deletes from the set of used hashes.
unfoldable pub remove_used : HashSet → List Hash → List Hash
remove_used used [] = []
remove_used used (x ∷ pool) =
    let rest = remove_used (delete used x).1 pool in if (delete used x).0 then rest else x ∷ rest

-- `while (pool.length > MAX_AUTH_POOL_SIZE) pool.shift()`
unfoldable pub shift_excess : List Hash → List Hash
shift_excess [] = []
shift_excess (x ∷ pool) =
    let rest = shift_excess pool in
    if ltb max_auth_pool_size (length (x ∷ pool)) then rest else x ∷ pool

abbrev pub removed : Option HashSet → List Hash → List Hash
removed none pool = pool
removed (some used) pool = remove_used used pool

unfoldable pub next_pool : Option HashSet → List Hash → Hash → List Hash
next_pool used pool entry = shift_excess (removed used pool ++ (entry ∷ []))

infixl 35 ◌>>=◌
abbrev ◌>>=◌ {ℓ κ} : {A : Type ℓ} {B : Type κ} → Option A → (A → Option B) → Option B
none >>= f = none
some a >>= f = f a

-- The loop over the cores: `left` of them from `core` on. `none` is a read past the end of an
-- array, which the fixed sizes of the state rule out.
unfoldable pub cores_loop :
    ℕ → ℕ → AuthorizationInput → List (List Hash) → List (List Hash) → Option (List (List Hash))
cores_loop zero core input queues pools = some pools
cores_loop (suc left) core input queues pools = do
  pool ← get_elem? pools core
  queue ← get_elem? queues core
  entry ← get_elem? queue (input.slot % authorization_queue_size)
  cores_loop left (suc core) input queues (set pools core (next_pool (input.used core) pool entry))

-- `tryAsPerCore` checks the number of pools.
unfoldable pub transition : ℕ → AuthorizationState → AuthorizationInput → Option (List (List Hash))
transition cores_count state input = do
  pools ← cores_loop cores_count 0 input state.auth_queues state.auth_pools
  if length pools == cores_count then some pools else none
