-- ===== src/Mmr.antt =====
-- packages/core/mmr/index.ts: Merkle mountain ranges. The array of mountains is a list from the
-- array's end on, so its smallest mountain first.
pub mod Leaves
pub mod Peaks
pub mod Sizes
use typeberry.Base.{
  ℕ, zero, suc, ◌+◌, ◌*◌, ◌%◌, ◌^◌, Bool, true, false, ltb, leb, ◌==◌, ◌&&◌, List, [], ◌∷◌, Option,
  none, some, if◌then◌else◌,
}

pub record Mountain (H : Type 0) : Type 0 where
  pub peak : H
  pub size : ℕ

-- The hash functions that a range is given.
pub record MmrHasher (H : Type 0) : Type 0 where
  pub hash_concat : H → H → H
  -- With the bytes of "peak" in front.
  pub hash_concat_peak : H → H → H
  pub zero_hash : H

module _ {H : Type 0} (hasher : MmrHasher H) where
  abbrev pub merge_with : Mountain H → Mountain H → Mountain H
  merge_with left right = record {
    peak = hasher.hash_concat left.peak right.peak;
    size = left.size + right.size;
  }

  -- The `for (;;)` of `append`, which pops a mountain each turn.
  unfoldable pub append_loop : Mountain H → List (Mountain H) → List (Mountain H)
  append_loop new [] = new ∷ []
  append_loop new (last ∷ mountains) =
      let rest = append_loop (merge_with last new) mountains in
      if last.size == new.size then rest else new ∷ last ∷ mountains

  unfoldable pub append : H → List (Mountain H) → List (Mountain H)
  append hash mountains = append_loop (record { peak = hash; size = 1 }) mountains

  unfoldable pub super_peak_loop : H → List (Mountain H) → H
  super_peak_loop last [] = last
  super_peak_loop last (m ∷ mountains) =
      super_peak_loop (hasher.hash_concat_peak last m.peak) mountains

  unfoldable pub get_super_peak_hash : List (Mountain H) → H
  get_super_peak_hash [] = hasher.zero_hash
  get_super_peak_hash (m ∷ mountains) = super_peak_loop m.peak mountains

-- `currentSize << 1` on a 32-bit integer; from `2 ^ 31` on the number stands for a negative one.
abbrev pub shift_size : ℕ → ℕ
shift_size current = (2 * current) % 2 ^ 32

abbrev pub has_size : ℕ → ℕ → Bool
has_size size current = ltb current (2 ^ 31) && (leb current size && ltb size (2 * current))

abbrev pub put {ℓ} : {A : Type ℓ} → A → Option (List A) → Option (List A)
put a none = none
put a (some as_) = some (a ∷ as_)

module _ {H : Type 0} where
  -- The first `reduce` of `fromPeaks`, from an index on; the `reverse` is the order of the list.
  unfoldable pub from_peaks_loop : ℕ → List (Option H) → List (Mountain H)
  from_peaks_loop index [] = []
  from_peaks_loop index (none ∷ peaks) = from_peaks_loop (suc index) peaks
  from_peaks_loop index (some peak ∷ peaks) =
      record { peak = peak; size = 2 ^ index } ∷ from_peaks_loop (suc index) peaks

  unfoldable pub from_peaks : List (Option H) → List (Mountain H)
  from_peaks peaks = from_peaks_loop 0 peaks

  -- The `while` of `getPeaks`, on fuel: `none` is out of fuel.
  unfoldable pub peaks_loop : ℕ → ℕ → List (Mountain H) → Option (List (Option H))
  peaks_loop zero current mountains = none
  peaks_loop (suc fuel) current [] = some []
  peaks_loop (suc fuel) current (m ∷ mountains) =
      let found = peaks_loop fuel (shift_size current) mountains in
      let missed = peaks_loop fuel (shift_size current) (m ∷ mountains) in
      if has_size m.size current then put (some m.peak) found else put none missed

  unfoldable pub get_peaks : ℕ → List (Mountain H) → Option (List (Option H))
  get_peaks fuel mountains = peaks_loop fuel 1 mountains
