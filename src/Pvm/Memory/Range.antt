-- ===== src/Pvm/Memory/Range.antt =====
-- The pages of a range of bytes: consecutive, distinct, and enough.
use typeberry.Base.{
  ℕ, zero, suc, ◌+◌, ◌-◌, ◌*◌, ◌%◌, ◌^◌, ◌≤◌, ◌<◌, ◌≡◌, refl, sym, ap, ◌∙◌, arith, Bool-cases, ◌==◌,
  ==_iff, List, [], ◌∷◌, length, All, inl, inr, true, false,
}
use typeberry.Pvm.Memory.{
  page_size, max_number_of_pages, memory_size, get_next_page_number, get_page_number,
  from_memory_range, pages_loop, page_numbers,
}

-- `n` pages from `i` on.
abbrev pub consecutive : ℕ → ℕ → List ℕ
consecutive zero i = []
consecutive (suc n) i = i ∷ consecutive n (get_next_page_number i)

pub length-consecutive : (n i : ℕ) → length (consecutive n i) ≡ n
length-consecutive zero i = refl
length-consecutive (suc n) i = ap suc (length-consecutive n (get_next_page_number i))

next_mod : (i : ℕ) → i < 2 ^ 20 → get_next_page_number i ≡ (i + 1) % 2 ^ 20
next_mod i h = ground arith

next_small : (i : ℕ) → i < 2 ^ 20 → get_next_page_number i < 2 ^ 20
next_small i h = ground arith

not_equal : (a b : ℕ) → (¬ (a ≡ b)) → (a == b) ≡ false
not_equal a b h = elim (Bool-cases (a == b)) [ inl e ↦ absurd (h ((==_iff a b).0 e)) | inr e ↦ e ]

-- With a turn for each page the loop gives them all.
pages_loop-consecutive :
    (fuel n i end : ℕ)
    → suc n ≤ fuel
    → suc n ≤ 2 ^ 20
    → i < 2 ^ 20
    → end ≡ (i + suc n) % 2 ^ 20
    → pages_loop fuel i end ≡ consecutive (suc n) i
unfolding pages_loop
pages_loop-consecutive zero n i end f m l e = absurd (omega arith)
pages_loop-consecutive (suc fuel) zero i end f m l e =
    let here : (get_next_page_number i == end) ≡ true =
      (==_iff (get_next_page_number i) end).1 (next_mod i l ∙ sym e) in
    rw (here) refl
pages_loop-consecutive (suc fuel) (suc n) i end f m l e =
    let next = next_mod i l in
    let there : (get_next_page_number i == end) ≡ false =
      not_equal (get_next_page_number i) end (λ q. omega (arith, next, e, q)) in
    rw (there) (
      ap (◌∷◌ i) (
        pages_loop-consecutive fuel n (get_next_page_number i) end (omega arith) (omega arith)
          (next_small i l) (omega (arith, next, e))))

-- A page that is not reached in fewer than `n` steps from `i` is not among `n` pages.
consecutive-All :
    (n i x : ℕ)
    → i < 2 ^ 20
    → x < 2 ^ 20
    → n ≤ (x + 2 ^ 20 - i) % 2 ^ 20
    → All (λ m. (x == m) ≡ false) (consecutive n i)
consecutive-All zero i x hi hx h = tt
consecutive-All (suc n) i x hi hx h = (
  not_equal x i (λ q. omega (arith, q)),
  consecutive-All n (get_next_page_number i) x (next_small i hi) hx (omega (arith, next_mod i hi)),
)

abbrev pub DistinctPages : List ℕ → Type 0
DistinctPages [] = Unit
DistinctPages (x ∷ xs) = All (λ m. (x == m) ≡ false) xs × DistinctPages xs

pub consecutive-DistinctPages :
    (n i : ℕ) → i < 2 ^ 20 → n ≤ 2 ^ 20 → DistinctPages (consecutive n i)
consecutive-DistinctPages zero i hi h = tt
consecutive-DistinctPages (suc n) i hi h = (
  consecutive-All n (get_next_page_number i) i (next_small i hi) hi (omega (arith, next_mod i hi)),
  consecutive-DistinctPages n (get_next_page_number i) (next_small i hi) (omega arith),
)

-- Bytes that the pages hold from a position on.
abbrev pub room : List ℕ → ℕ → ℕ
room [] position = 0
room (number ∷ numbers) position = page_size - position % page_size + page_size * length numbers

abbrev pub page_count : ℕ → ℕ → ℕ
page_count start n = (from_memory_range start n).length

-- How many pages there are: at least one, no more than the memory has, and enough for the bytes.
count_facts :
    (start n : ℕ)
    → start < memory_size
    → 0 < n
    → n ≤ memory_size - page_size
    → (0 < page_count start n)
      × (page_count start n ≤ 2 ^ 20)
      × (start % page_size + n ≤ page_size * page_count start n)
unfolding from_memory_range
count_facts start n hs hn h = ground arith

-- With enough turns, a range whose end is `n` pages behind its start has these pages.
pub all_pages :
    (fuel n i : ℕ)
    → 0 < n
    → n ≤ fuel
    → n ≤ 2 ^ 20
    → i < 2 ^ 20
    → pages_loop fuel i ((i + n) % 2 ^ 20) ≡ consecutive n i
all_pages fuel zero i some_page f h l = absurd (omega arith)
all_pages fuel (suc n) i some_page f h l =
    pages_loop-consecutive fuel n i ((i + suc n) % 2 ^ 20) f h l refl

room-consecutive :
    (n i position : ℕ)
    → 0 < n
    → room (consecutive n i) position ≡ page_size - position % page_size + page_size * (n - 1)
room-consecutive zero i position h = absurd (omega arith)
room-consecutive (suc n) i position h = omega (arith, length-consecutive n (get_next_page_number i))

from_memory_range-start : (start n : ℕ) → (from_memory_range start n).start ≡ get_page_number start
unfolding from_memory_range
from_memory_range-start start n = ground arith

-- The pages of a range of bytes that is neither empty nor within a page of the whole memory are
-- distinct, and have room for the bytes.
pub page_numbers-DistinctPages :
    (start n : ℕ)
    → start < memory_size
    → 0 < n
    → n ≤ memory_size - page_size
    → DistinctPages (page_numbers (from_memory_range start n))
      × (n ≤ room (page_numbers (from_memory_range start n)) start)
unfolding page_numbers
page_numbers-DistinctPages start n hs hn h =
    let count = page_count start n in
    let (some_page, few, enough) = count_facts start n hs hn h in
    let first = get_page_number start in
    let small : first < 2 ^ 20 = omega arith in
    let begins = from_memory_range-start start n in
    let some_pages : (count == 0) ≡ false = not_equal count 0 (λ q. omega (arith, q)) in
    let all : pages_loop max_number_of_pages first ((first + count) % 2 ^ 20)
        ≡ consecutive count first =
      all_pages max_number_of_pages count first some_page few few small in
    rw (some_pages, begins, all)
      (
        consecutive-DistinctPages count first small few,
        omega (arith, room-consecutive count first start some_page),
      )
