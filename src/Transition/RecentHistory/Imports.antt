-- ===== src/Transition/RecentHistory/Imports.antt =====
-- Importing blocks one after the other.
use typeberry.Base.{
  suc, ◌+◌, ◌-◌, ◌^◌, ◌≤◌, ◌<◌, ◌≡◌, refl, sym, ap, ◌∙◌, arith, List, [], ◌∷◌, ◌++◌, length,
  drop-append_le, drop-drop, map-append, map-drop, length-append, length-drop, length-map, drop,
  map, Option, some, append-nil, append_assoc,
}
use typeberry.Mmr.{MmrHasher, from_peaks}
use typeberry.Mmr.Leaves.{Range}
use typeberry.Transition.RecentHistory.{
  BlockState, RecentBlocks, Import, max_recent_history, set_last_root, partial_transition,
  import_block, import_blocks,
}
use typeberry.Transition.RecentHistory.Log.{transition-Appended}

-- The last eight of a list.
abbrev pub recent {ℓ} : {A : Type ℓ} → List A → List A
recent xs = drop (length xs - max_recent_history) xs

-- Forgetting early what is forgotten later anyway.
recent-recent {ℓ} : {A : Type ℓ} (xs ys : List A) → recent (recent xs ++ ys) ≡ recent (xs ++ ys)
recent-recent xs ys =
    let gone = length xs - 8 in
    let n : length (recent xs ++ ys) ≡ length xs - gone + length ys =
      length-append (recent xs) ys ∙ ap (λ z. z + length ys) (length-drop gone xs) in
    let m : length (xs ++ ys) ≡ length xs + length ys = length-append xs ys in
    ap (λ z. drop (length (recent xs ++ ys) - 8) z) (sym (drop-append_le gone xs ys (omega arith)))
    ∙ drop-drop gone (length (recent xs ++ ys) - 8) (xs ++ ys)
    ∙ ap (λ z. drop z (xs ++ ys)) (omega (arith, n, m))

recent_short {ℓ} : {A : Type ℓ} (xs : List A) → length xs ≤ max_recent_history → recent xs ≡ xs
recent_short xs h = let none_over : length xs - 8 ≡ 0 = omega arith in rw (none_over) refl

length-recent {ℓ} : {A : Type ℓ} (xs : List A) → length (recent xs) ≤ max_recent_history
length-recent xs = omega (arith, length-drop (length xs - 8) xs)

recent_snoc {ℓ} :
    {A : Type ℓ} (xs : List A) (y : A)
    → drop (length xs - 7) xs ++ (y ∷ []) ≡ recent (xs ++ (y ∷ []))
recent_snoc xs y =
    sym (drop-append_le (length xs - 7) xs (y ∷ []) (omega arith))
    ∙ ap (λ z. drop z (xs ++ (y ∷ []))) (omega (arith, length-append xs (y ∷ [])))

module _ {H W : Type 0} where
  abbrev pub header_hashes : List (BlockState H W) → List H
  header_hashes blocks = map (λ b. b.header_hash) blocks

  abbrev pub import_hashes : List (Import H W) → List H
  import_hashes imports = map (λ i. i.header_hash) imports

  abbrev pub import_roots : List (Import H W) → List H
  import_roots imports = map (λ i. i.accumulate_root) imports

  header_hashes-set_last_root :
      (root : H) (blocks : List (BlockState H W))
      → header_hashes (set_last_root root blocks) ≡ header_hashes blocks
  unfolding set_last_root
  header_hashes-set_last_root root [] = refl
  header_hashes-set_last_root root (b ∷ []) = refl
  header_hashes-set_last_root root (b ∷ c ∷ blocks) =
      ap (◌∷◌ b.header_hash) (header_hashes-set_last_root root (c ∷ blocks))

  length-set_last_root :
      (root : H) (blocks : List (BlockState H W))
      → length (set_last_root root blocks) ≡ length blocks
  length-set_last_root root blocks =
      sym (length-map (set_last_root root blocks) (λ b. b.header_hash))
      ∙ ap length (header_hashes-set_last_root root blocks)
      ∙ length-map blocks (λ b. b.header_hash)

  header_hashes-snoc :
      (root : H) (blocks : List (BlockState H W)) (b : BlockState H W)
      → header_hashes
          (drop (length (set_last_root root blocks) - 7) (set_last_root root blocks) ++ (b ∷ []))
        ≡ recent (header_hashes blocks ++ (b.header_hash ∷ []))
  header_hashes-snoc root blocks b =
      let kept = header_hashes-set_last_root root blocks in
      let all = set_last_root root blocks in
      map-append (λ b. b.header_hash) (drop (length all - 7) all) (b ∷ [])
      ∙ ap (λ z. z ++ (b.header_hash ∷ []))
          (map-drop (λ b. b.header_hash) (length all - 7) all
            ∙ ap (λ z. drop (z - 7) (header_hashes all))
                (sym (length-map all (λ b. b.header_hash))))
      ∙ recent_snoc (header_hashes all) b.header_hash
      ∙ ap (λ z. recent (z ++ (b.header_hash ∷ []))) kept

  module _ (hasher : MmrHasher H) (zero_root : H) where
    -- Reads a state after imports: its blocks are the last eight of `hashes`, its log is a range
    -- over `leaves`.
    abbrev pub Imported : List H → List H → Option (RecentBlocks H W) → Type 0
    Imported hashes leaves o =
        (after : RecentBlocks H W) × (o ≡ some after)
        × Range hasher 0 (from_peaks after.accumulation_log) leaves
        × (header_hashes after.blocks ≡ recent hashes)

    Imported-one :
        (i : Import H W) (state : RecentBlocks H W) (leaves : List H)
        → Range hasher 0 (from_peaks state.accumulation_log) leaves
        → suc (length leaves) < 2 ^ 31
        → length state.blocks ≤ max_recent_history
        → Imported
            (header_hashes state.blocks ++ (i.header_hash ∷ []))
            (leaves ++ (i.accumulate_root ∷ []))
            (import_block hasher zero_root 32 i state)
    unfolding import_block partial_transition
    Imported-one i state leaves r s h =
        let root = i.prior_state_root in
        let kept = length-set_last_root root state.blocks in
        let updated : RecentBlocks H W = record {
          blocks = set_last_root root state.blocks;
          accumulation_log = state.accumulation_log;
        } in
        let (after, e, range, blocks) =
          transition-Appended hasher zero_root
            (record {
              partial = updated;
              header_hash = i.header_hash;
              accumulate_root = i.accumulate_root;
              work_packages = i.work_packages;
            })
            updated leaves r s (omega (arith, kept)) in
        (after, e, range, ap header_hashes blocks ∙ header_hashes-snoc root state.blocks _)

    -- If the state's log is the peaks of a range over some leaves and the state has at most eight
    -- blocks, then the import of any number of blocks ends, as long as there are fewer than `2 ^ 31`
    -- leaves with the new ones. It leaves a range over the leaves and the accumulation roots of the
    -- imported blocks in order, and the last eight header hashes of all.
    pub import_blocks-Imported :
        (imports : List (Import H W)) (state : RecentBlocks H W) (leaves : List H)
        → Range hasher 0 (from_peaks state.accumulation_log) leaves
        → length leaves + length imports < 2 ^ 31
        → length state.blocks ≤ max_recent_history
        → Imported
            (header_hashes state.blocks ++ import_hashes imports)
            (leaves ++ import_roots imports)
            (import_blocks hasher zero_root 32 imports state)
    unfolding import_blocks
    import_blocks-Imported [] state leaves r s h = (
      state,
      refl,
      rw (append-nil leaves) r,
      (rw (append-nil (header_hashes state.blocks)) (
          sym (
            recent_short (header_hashes state.blocks)
              (omega (arith, length-map state.blocks (λ b. b.header_hash)))))),
    )
    import_blocks-Imported (i ∷ imports) state leaves r s h =
        let (one, e, range, blocks) = Imported-one i state leaves r (omega arith) h in
        let root = i.accumulate_root in
        let hashes = header_hashes state.blocks ++ (i.header_hash ∷ []) in
        let grown : length (leaves ++ (root ∷ [])) ≡ length leaves + 1 =
          length-append leaves (root ∷ []) in
        let few : length one.blocks ≤ max_recent_history = omega (
          arith,
          length-map one.blocks (λ b. b.header_hash),
          ap length blocks,
          length-recent hashes,
        ) in
        let (after, f, all, last) =
          import_blocks-Imported imports one (leaves ++ (root ∷ [])) range (omega arith) few in
        rw (e) (
          after,
          f,
          rw (sym (append_assoc leaves (root ∷ []) (import_roots imports))) all,
          last
              ∙ ap (λ z. recent (z ++ import_hashes imports)) blocks
              ∙ recent-recent hashes (import_hashes imports)
              ∙ ap recent (
                  append_assoc (header_hashes state.blocks) (i.header_hash ∷ [])
                    (import_hashes imports)),
        )
