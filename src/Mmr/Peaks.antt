-- ===== src/Mmr/Peaks.antt =====
-- The peaks that a range is stored as, and the range read back from them.
use typeberry.Base.{
  ℕ, zero, suc, ◌+◌, ◌^◌, ◌≤◌, ◌<◌, ◌≡◌, refl, sym, ap, ◌∙◌, arith, Bool-cases, true, false, ◌==◌,
  List, [], ◌∷◌, inl, inr, ==_iff, Option, none, some, All,
}
use typeberry.Base.Powers.{double, pow_mono, pow_strict, pow_positive, pow_lt}
use typeberry.Mmr.{
  Mountain, MmrHasher, from_peaks_loop, from_peaks, shift_size, has_size, put, peaks_loop,
  get_peaks,
}
use typeberry.Mmr.Leaves.{Range}

shift_pow : (k : ℕ) → k ≤ 30 → shift_size (2 ^ k) ≡ 2 ^ suc k
shift_pow k l = omega (arith, double k, pow_mono (suc k) 31 (omega arith))

found_size : (s j : ℕ) → s ≡ 2 ^ j → j ≤ 30 → has_size s (2 ^ j) ≡ true
found_size s j e l = ground (arith, pow_strict j 31 (omega arith), pow_positive j)

missed_size : (s j k : ℕ) → s ≡ 2 ^ j → k < j → has_size s (2 ^ k) ≡ false
missed_size s j k e l = ground (arith, pow_strict k j l)

module _ {H : Type 0} (hasher : MmrHasher H) where
  found_turn :
      (fuel k : ℕ) (m : Mountain H) (ms : List (Mountain H)) (peaks : List (Option H))
      → m.size ≡ 2 ^ k
      → k ≤ 30
      → peaks_loop fuel (2 ^ suc k) ms ≡ some peaks
      → peaks_loop (suc fuel) (2 ^ k) (m ∷ ms) ≡ some (some m.peak ∷ peaks)
  unfolding peaks_loop
  found_turn fuel k m ms peaks s l e =
      rw (found_size m.size k s l, shift_pow k l) (ap (put (some m.peak)) e)

  missed_turn :
      (fuel j k : ℕ) (m : Mountain H) (ms : List (Mountain H)) (peaks : List (Option H))
      → m.size ≡ 2 ^ j
      → k < j
      → k ≤ 30
      → peaks_loop fuel (2 ^ suc k) (m ∷ ms) ≡ some peaks
      → peaks_loop (suc fuel) (2 ^ k) (m ∷ ms) ≡ some (none ∷ peaks)
  unfolding peaks_loop
  missed_turn fuel j k m ms peaks s g l e =
      rw (missed_size m.size j k s g, shift_pow k l) (ap (put none) e)

  Mountain-eq :
      (m : Mountain H) (k : ℕ) → m.size ≡ 2 ^ k → record { peak = m.peak; size = 2 ^ k } ≡ m
  Mountain-eq m k s = ap (λ z. record { peak = m.peak; size = z }) (sym s)

  loop_restores :
      (fuel k : ℕ) (ms : List (Mountain H)) (ls : List H)
      → 32 ≤ fuel + k
      → k ≤ 31
      → Range hasher k ms ls
      → All (λ m. m.size < 2 ^ 31) ms
      → (peaks : List (Option H)) × (peaks_loop fuel (2 ^ k) ms ≡ some peaks)
        × (from_peaks_loop k peaks ≡ ms)
  unfolding peaks_loop from_peaks_loop
  loop_restores zero k ms ls f l r b = absurd (omega arith)
  loop_restores (suc fuel) k [] ls f l r b = ([], refl, refl)
  loop_restores (suc fuel) k (m ∷ ms) ls f l (j, xs, ys, low, s, p, r, e) b =
      let height : j < 31 = pow_lt j 31 (omega (arith, b.0)) in
      elim (Bool-cases (k == j)) [
        | inl here ↦
            let same : k ≡ j = (==_iff k j).0 here in
            let size : m.size ≡ 2 ^ k = s ∙ ap (λ z. 2 ^ z) (sym same) in
            let (peaks, pe, back) =
              loop_restores fuel (suc k) ms xs (omega arith) (omega arith) (rw (same) r) b.1 in
            (
              some m.peak ∷ peaks,
              found_turn fuel k m ms peaks size (omega arith) pe,
              ap (◌∷◌ (record { peak = m.peak; size = 2 ^ k })) back
                  ∙ ap (λ z. z ∷ ms) (Mountain-eq m k size),
            )
        | inr above ↦
            let higher : k < j = ground arith in
            let (peaks, pe, back) =
              loop_restores fuel (suc k) (m ∷ ms) ls (omega arith) (omega arith)
                (j, xs, ys, omega arith, s, p, r, e) b in
            (none ∷ peaks, missed_turn fuel j k m ms peaks s higher (omega arith) pe, back)
      ]

  -- The peaks of a range whose mountains are smaller than `2 ^ 31` are given with 32 turns of the
  -- loop, and reading them gives back the range.
  pub from_peaks-get_peaks :
      (ms : List (Mountain H)) (leaves : List H)
      → Range hasher 0 ms leaves
      → All (λ m. m.size < 2 ^ 31) ms
      → (peaks : List (Option H)) × (get_peaks 32 ms ≡ some peaks) × (from_peaks peaks ≡ ms)
  unfolding get_peaks from_peaks
  from_peaks-get_peaks ms leaves r b = loop_restores 32 0 ms leaves (omega arith) (omega arith) r b

module _ {H : Type 0} where
  -- With a mountain of `2 ^ 31` or more in front, each turn of the loop misses it.
  stuck_turn :
      (fuel current : ℕ) (m : Mountain H) (ms : List (Mountain H))
      → has_size m.size current ≡ false
      → peaks_loop fuel (shift_size current) (m ∷ ms) ≡ none
      → peaks_loop (suc fuel) current (m ∷ ms) ≡ none
  unfolding peaks_loop
  stuck_turn fuel current m ms h e = rw (h, e) refl

  stuck_zero :
      (fuel : ℕ) (m : Mountain H) (ms : List (Mountain H))
      → 2 ^ 31 ≤ m.size
      → peaks_loop fuel 0 (m ∷ ms) ≡ none
  stuck_zero zero m ms h = unfold peaks_loop in refl
  stuck_zero (suc fuel) m ms h = stuck_turn fuel 0 m ms (ground arith) (stuck_zero fuel m ms h)

  stuck_pow :
      (fuel k : ℕ) (m : Mountain H) (ms : List (Mountain H))
      → k ≤ 31
      → 2 ^ 31 ≤ m.size
      → peaks_loop fuel (2 ^ k) (m ∷ ms) ≡ none
  stuck_pow zero k m ms l h = unfold peaks_loop in refl
  stuck_pow (suc fuel) k m ms l h = elim (Bool-cases (k == 31)) [
    | inl e ↦
        let top : k ≡ 31 = (==_iff k 31).0 e in
        rw (top) (stuck_turn fuel (2 ^ 31) m ms (ground arith) (stuck_zero fuel m ms h))
    | inr e ↦
        let low : k ≤ 30 = ground arith in
        stuck_turn fuel (2 ^ k) m ms (ground (arith, pow_mono (suc k) 31 (omega arith), double k))
          (rw (shift_pow k low) (stuck_pow fuel (suc k) m ms (omega arith) h))
  ]

  -- If the smallest mountain has `2 ^ 31` hashes or more, no number of turns gives the peaks.
  pub get_peaks-stuck :
      (fuel : ℕ) (m : Mountain H) (ms : List (Mountain H))
      → 2 ^ 31 ≤ m.size
      → get_peaks fuel (m ∷ ms) ≡ none
  unfolding get_peaks
  get_peaks-stuck fuel m ms h = stuck_pow fuel 0 m ms (omega arith) h
