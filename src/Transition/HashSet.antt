-- ===== src/Transition/HashSet.antt =====
-- packages/core/collections/hash-set.ts: a set of hashes, as the list of its elements. A hash is
-- the number that its 32 bytes spell.
use typeberry.Base.{
  ℕ, ◌≡◌, refl, arith, Bool, Bool-cases, false, List, [], ◌∷◌, ◌++◌, ◌==◌, ◌||◌, if◌then◌else◌, inl,
  inr,
}

abbrev pub Hash : Type 0
Hash = ℕ

abbrev pub HashSet : Type 0
HashSet = List Hash

abbrev pub has : HashSet → Hash → Bool
has [] h = false
has (x ∷ xs) h = h == x || has xs h

-- Setting a key that is present changes nothing.
abbrev pub insert : HashSet → Hash → HashSet
insert s h = if has s h then s else s ++ (h ∷ [])

abbrev pub insert_all : HashSet → List Hash → HashSet
insert_all s [] = s
insert_all s (x ∷ xs) = insert_all (insert s x) xs

abbrev pub from : List Hash → HashSet
from values = insert_all [] values

abbrev pub delete_key : HashSet → Hash → HashSet
delete_key [] h = []
delete_key (x ∷ xs) h = if h == x then xs else x ∷ delete_key xs h

-- Whether the element was there, and the set without it.
abbrev pub delete : HashSet → Hash → Bool × HashSet
delete s h = (has s h, delete_key s h)

pub has-append : (s t : HashSet) (h : Hash) → has (s ++ t) h ≡ (has s h || has t h)
has-append [] t h = refl
has-append (x ∷ s) t h = ground (arith, has-append s t h)

has-insert : (s : HashSet) (x h : Hash) → has (insert s x) h ≡ (has s h || h == x)
has-insert s x h = elim (Bool-cases (has s x)) [
  | inl e ↦ rw (e) (elim (Bool-cases (h == x)) [
    | inl q ↦ let w : h ≡ x = ground arith in rw (q, w, e) refl
    | inr q ↦ ground arith
  ])
  | inr e ↦ rw (e) (ground (arith, has-append s (x ∷ []) h))
]

pub has-insert_all :
    (s : HashSet) (xs : List Hash) (h : Hash) → has (insert_all s xs) h ≡ (has s h || has xs h)
has-insert_all s [] h = ground arith
has-insert_all s (x ∷ xs) h = ground (arith, has-insert_all (insert s x) xs h, has-insert s x h)

-- The set made of a list has the list's elements.
pub has-from : (xs : List Hash) (h : Hash) → has (from xs) h ≡ has xs h
has-from xs h = has-insert_all [] xs h
