-- ===== src/Finality/Bounds.antt =====
-- How many blocks the finalizer keeps in a chain.
use typeberry.Base.{
  ℕ, suc, ◌+◌, ◌-◌, ◌*◌, ◌==◌, ◌≤◌, ◌<◌, arith, Bool-cases, Option-cases, leb, List, [], ◌∷◌, ◌++◌,
  length, take, drop, get_elem?-some, Option, none, some, if◌then◌else◌, All, All-append,
  length-append, length-take, length-drop, inl, inr,
}
use mathlib.Core.Path.{subst}
use typeberry.Transition.HashSet.{Hash}
use typeberry.Transition.AccumulateQueue.{is_empty}
use typeberry.Finality.{
  Chain, Finalizer, Attached, find_index, ends_in, beside, attach_tip, fork, attach, collect,
  finalize, on_block_imported,
}

-- No chain is empty or longer than `n`.
abbrev pub IsBounded : ℕ → List Chain → Type 0
IsBounded n chains = All (λ c. (1 ≤ length c) × (length c ≤ n)) chains

-- Only the extended chain may have one block more than `n`.
abbrev Grown : ℕ → Attached → Type 0
Grown n a = IsBounded (suc n) a.chains × (length a.extended ≤ n → IsBounded n a.chains)

IsBounded-suc : (n : ℕ) (chains : List Chain) → IsBounded n chains → IsBounded (suc n) chains
IsBounded-suc n [] b = tt
IsBounded-suc n (c ∷ cs) b = let (l, u) = b.0 in ((l, omega arith), IsBounded-suc n cs b.1)

IsBounded-snoc :
    (n : ℕ) (chains : List Chain) (c : Chain)
    → IsBounded n chains
    → 1 ≤ length c
    → length c ≤ n
    → IsBounded n (chains ++ (c ∷ []))
IsBounded-snoc n chains c b l u = All-append _ chains (c ∷ []) b ((l, u), tt)

Grown-snoc :
    (n : ℕ) (chains : List Chain) (c : Chain)
    → IsBounded n chains
    → 1 ≤ length c
    → length c ≤ suc n
    → Grown n (record { extended = c; chains = chains ++ (c ∷ []) })
Grown-snoc n chains c b l u = (
  IsBounded-snoc (suc n) chains c (IsBounded-suc n chains b) l u,
  λ v. IsBounded-snoc n chains c b l v,
)

-- What a step gives, if it gives anything, is grown.
abbrev GrownIf : ℕ → Option Attached → Type 0
GrownIf n none = Unit {0}
GrownIf n (some a) = Grown n a

GrownIf-beside :
    (n : ℕ) (c : Chain) (o : Option Attached)
    → 1 ≤ length c
    → length c ≤ n
    → GrownIf n o
    → GrownIf n (beside c o)
GrownIf-beside n c none l u g = tt
GrownIf-beside n c (some a) l u (g, k) = (((l, omega arith), g), λ v. ((l, u), k v))

attach_tip-Grown :
    (n : ℕ) (parent header : Hash) (chains : List Chain)
    → IsBounded n chains
    → GrownIf n (attach_tip parent header chains)
unfolding attach_tip
attach_tip-Grown n parent header [] b = tt
attach_tip-Grown n parent header (c ∷ cs) b = elim (Bool-cases (ends_in parent c)) [
  | inl e ↦
      let (l, u) = b.0 in
      let one_more = length-append c (header ∷ []) in
      rw (e) (((omega arith, omega arith), IsBounded-suc n cs b.1), λ v. ((omega arith, v), b.1))
  | inr e ↦
      let (l, u) = b.0 in
      rw (e) (GrownIf-beside n c _ l u (attach_tip-Grown n parent header cs b.1))
]

-- The copied chain.
abbrev ShortIf : ℕ → Option Chain → Type 0
ShortIf n none = Unit {0}
ShortIf n (some c) = (1 ≤ length c) × (length c ≤ suc n)

fork-Short :
    (n : ℕ) (parent header : Hash) (chains : List Chain)
    → IsBounded n chains
    → ShortIf n (fork parent header chains)
unfolding fork
fork-Short n parent header [] b = tt
fork-Short n parent header (c ∷ cs) b = elim (Option-cases (find_index parent c)) [
  | inl e ↦ rw (e, fork) (fork-Short n parent header cs b.1)
  | inr (i, e) ↦
      let (l, u) = b.0 in
      let size = length-append (take (i + 1) c) (header ∷ []) in
      rw (e, fork) (omega arith, omega (arith, length-take (i + 1) c))
]

attach-Grown :
    (n : ℕ) (f : Finalizer) (parent header : Hash)
    → IsBounded n f.unfinalized
    → GrownIf n (attach f parent header)
unfolding attach
attach-Grown n f parent header b = elim (Option-cases (attach_tip parent header f.unfinalized)) [
  | inr (a, e) ↦
      rw (e, attach) (subst (GrownIf n) e (attach_tip-Grown n parent header f.unfinalized b))
  | inl e ↦ elim (Bool-cases (f.last_finalized_hash == parent)) [
    | inl g ↦
        rw (e, g, attach) (Grown-snoc n f.unfinalized (header ∷ []) b (omega arith) (omega arith))
    | inr g ↦ elim (Option-cases (fork parent header f.unfinalized)) [
      | inl k ↦ rw (e, g, k, attach) tt
      | inr (c, k) ↦
          let (l, u) = subst (ShortIf n) k (fork-Short n parent header f.unfinalized b) in
          rw (e, g, k, attach) (Grown-snoc n f.unfinalized c b l u)
    ]
  ]
]

collect-IsBounded :
    (n : ℕ) (finalized : Hash) (chains : List Chain) (newly : List Hash)
    → IsBounded (suc n) chains
    → IsBounded n (collect finalized chains newly).new_unfinalized
unfolding collect
collect-IsBounded n finalized [] newly b = tt
collect-IsBounded n finalized (c ∷ cs) newly b = elim (Option-cases (find_index finalized c)) [
  | inl e ↦ rw (e, collect) (collect-IsBounded n finalized cs newly b.1)
  | inr (i, e) ↦
      let (l, u) = b.0 in
      let size = length-drop (i + 1) c in
      let rest =
        collect-IsBounded n finalized cs (if is_empty newly then take (i + 1) c else newly) b.1 in
      rw (e, collect) (kept (drop (i + 1) c) _ (omega arith) rest)
]
  where
    kept :
        (d : Chain) (ds : List Chain)
        → length d ≤ n
        → IsBounded n ds
        → IsBounded n (if is_empty d then ds else d ∷ ds)
    kept [] ds u r = r
    kept (x ∷ d) ds u r = ((omega arith, u), r)

finalize-IsBounded :
    (depth : ℕ) (f : Finalizer) (a : Attached)
    → Grown (2 * depth) a
    → IsBounded (2 * depth) ((finalize depth f a).1).unfinalized
unfolding finalize
finalize-IsBounded depth f a (g, k) = elim (Bool-cases (leb (length a.extended) (2 * depth))) [
  | inl e ↦ rw (e) (k (ground arith))
  | inr e ↦
      let long : 2 * depth < length a.extended = ground arith in
      let (finalized, at) =
        get_elem?-some a.extended (length a.extended - 1 - depth) (omega arith) in
      rw (e, at) (collect-IsBounded (2 * depth) finalized a.chains [] g)
]

-- If no chain of the finalizer is empty or has more than `2 * depth` blocks, that holds after the
-- import of any block.
pub on_block_imported-IsBounded :
    (depth : ℕ) (parent_of : Hash → Option Hash) (f : Finalizer) (header : Hash)
    → IsBounded (2 * depth) f.unfinalized
    → IsBounded (2 * depth) ((on_block_imported depth parent_of f header).1).unfinalized
unfolding on_block_imported
on_block_imported-IsBounded depth parent_of f header b = elim (Option-cases (parent_of header)) [
  | inl e ↦ rw (e, on_block_imported) b
  | inr (parent, e) ↦ elim (Option-cases (attach f parent header)) [
    | inl g ↦ rw (e, g, on_block_imported) b
    | inr (a, g) ↦
        rw (e, g, on_block_imported)
          (finalize-IsBounded depth f a
            (subst (GrownIf (2 * depth)) g (attach-Grown (2 * depth) f parent header b)))
  ]
]
