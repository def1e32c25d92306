-- ===== src/Pvm/Memory/Heap/Growth.antt =====
-- What `sbrk` gives can be written.
use typeberry.Base.{
  ℕ, zero, suc, ◌+◌, ◌-◌, ◌/◌, ◌%◌, ◌^◌, ◌≤◌, ◌<◌, ◌≡◌, ◌⊎◌, refl, arith, Bool-cases, true, false,
  ltb, leb, leb→le, ltb→ge, ltb→lt, ◌==◌, ◌||◌, List, [], ◌∷◌, some, inl, inr,
}
use typeberry.Pvm.Memory.{
  MemoryPage, Pages, set_page, page_size, max_number_of_pages, memory_size, page_numbers,
  get_next_page_number,
}
use typeberry.Pvm.Memory.Range.{consecutive, all_pages}
use typeberry.Pvm.Memory.Heap.{
  Memory, new_page, allocate, align_to_page_size, range_to_allocate, Sbrk, grown, out_of_memory,
  type_error, sbrk,
}

abbrev pub IsWriteable : Pages → ℕ → Type 0
IsWriteable pages number =
    (page : MemoryPage) × (pages number ≡ some page) × (page.is_writeable ≡ true)

set_page-IsWriteable :
    (pages : Pages) (number x : ℕ)
    → IsWriteable pages x
    → IsWriteable (set_page pages number new_page) x
set_page-IsWriteable pages number x (page, e, w) = elim (Bool-cases (x == number)) [
  | inl same ↦ (new_page, rw (same) refl, refl)
  | inr other ↦ (page, rw (other) e, w)
]

allocate-IsWriteable :
    (numbers : List ℕ) (pages : Pages) (x : ℕ)
    → IsWriteable pages x
    → IsWriteable (allocate numbers pages) x
unfolding allocate
allocate-IsWriteable [] pages x h = h
allocate-IsWriteable (number ∷ numbers) pages x h =
    allocate-IsWriteable numbers (set_page pages number new_page) x
      (set_page-IsWriteable pages number x h)

next_below : (i x : ℕ) → i < x → x < 2 ^ 20 → get_next_page_number i ≡ suc i
next_below i x h l = ground arith

allocate-consecutive :
    (n i : ℕ) (pages : Pages) (x : ℕ)
    → i + n ≤ 2 ^ 20
    → i ≤ x
    → x < i + n
    → IsWriteable (allocate (consecutive n i) pages) x
unfolding allocate
allocate-consecutive zero i pages x f l h = absurd (omega arith)
allocate-consecutive (suc n) i pages x f l h = elim (Bool-cases (x == i)) [
  | inl same ↦
      allocate-IsWriteable (consecutive n (get_next_page_number i)) (set_page pages i new_page) x
        (new_page, rw (same) refl, refl)
  | inr other ↦
      let above : i < x = ground arith in
      rw (next_below i x above (omega arith)) (
        allocate-consecutive n (suc i) (set_page pages i new_page) x (omega arith) (omega arith)
          (omega arith))
]

-- The heap from `start` on: it ends at the end of a page, what was given lies in it, and all its
-- pages can be written.
abbrev pub IsHeap : ℕ → Memory → Type 0
IsHeap start m =
    (m.sbrk_index % page_size ≡ 0)
    × (m.sbrk_index ≤ memory_size)
    × (m.virtual_sbrk_index ≤ m.sbrk_index)
    × ((number : ℕ)
        → start / page_size ≤ number
        → number < m.sbrk_index / page_size
        → IsWriteable m.memory number)

-- What `sbrk` does: the old end of what was given is returned, the new end lies behind it by the
-- length, and the heap is one. Else the new end is not an index of the memory, or lies behind the end
-- of the heap.
abbrev pub Grown : ℕ → ℕ → Memory → Sbrk → Type 0
Grown start length m (grown after index) =
    (index ≡ m.virtual_sbrk_index)
    × (after.virtual_sbrk_index ≡ m.virtual_sbrk_index + length)
    × (after.virtual_sbrk_index < memory_size)
    × (after.virtual_sbrk_index ≤ m.end_heap_index)
    × (after.end_heap_index ≡ m.end_heap_index)
    × IsHeap start after
Grown start length m out_of_memory =
    (memory_size ≤ m.virtual_sbrk_index + length)
    ⊎ (m.end_heap_index < m.virtual_sbrk_index + length)
Grown start length m type_error = ⊥

-- The indices of pages that lie between two ends of pages.
allocated_range :
    (current new : ℕ)
    → current % page_size ≡ 0
    → new % page_size ≡ 0
    → current < new
    → new ≤ memory_size
    → range_to_allocate current new
      ≡ some (record { start = current / page_size; length = (new - current) / page_size })
allocated_range current new a b l h =
    let first : current % 2 ^ 32 / page_size ≡ current / page_size = omega arith in
    let whole : (new - current) % page_size ≡ 0 = omega arith in
    let few : leb ((new - current) / page_size) max_number_of_pages ≡ true = ground arith in
    rw (first, whole, few) refl

allocated_pages :
    (current new : ℕ)
    → current % page_size ≡ 0
    → new % page_size ≡ 0
    → current < new
    → new ≤ memory_size
    → page_numbers (record { start = current / page_size; length = (new - current) / page_size })
      ≡ consecutive ((new - current) / page_size) (current / page_size)
unfolding page_numbers
allocated_pages current new a b l h =
    let count = (new - current) / page_size in
    let some_pages : (count == 0) ≡ false = ground arith in
    rw (some_pages) (
      all_pages max_number_of_pages count (current / page_size) (omega arith) (omega arith)
        (omega arith) (omega arith))

ltb-leb : (a b : ℕ) → leb a b ≡ false → b < a
ltb-leb a b h = ground arith

grown_pages :
    (start current new : ℕ) (pages : Pages)
    → current % page_size ≡ 0
    → new % page_size ≡ 0
    → current < new
    → new ≤ memory_size
    → ((number : ℕ)
        → start / page_size ≤ number
        → number < current / page_size
        → IsWriteable pages number)
    → (number : ℕ) → start / page_size ≤ number
    → number < new / page_size
    → IsWriteable
        (allocate (consecutive ((new - current) / page_size) (current / page_size)) pages)
        number
grown_pages start current new pages a b l h old number from below =
    let count = (new - current) / page_size in
    elim (Bool-cases (ltb number (current / page_size))) [
      | inl before ↦
          allocate-IsWriteable (consecutive count (current / page_size)) pages number
            (old number from (ltb→lt number (current / page_size) before))
      | inr behind ↦
          allocate-consecutive count (current / page_size) pages number (omega arith)
            (ltb→ge number (current / page_size) behind) (omega arith)
    ]

-- If what was given of a heap lies below its end, which is the end of a page in the memory, and
-- its pages can be written, then `sbrk` throws no error but out of memory, and this one exactly if
-- the new end would be `2 ^ 32` or more or lie behind the end of the heap. Else it returns the old end
-- and moves it by the length, and the heap is as before, with every page up to its new end there to
-- be written.
pub sbrk-Grown :
    (start length : ℕ) (m : Memory) → IsHeap start m → Grown start length m (sbrk length m)
unfolding sbrk
sbrk-Grown start length m (aligned, small, inside, writeable) =
    let new_virtual = m.virtual_sbrk_index + length in
    let new_index = align_to_page_size new_virtual in
    elim (Bool-cases (ltb (memory_size - 1) new_virtual || ltb m.end_heap_index new_virtual)) [
      | inl over ↦ rw (over) (ground arith)
      | inr fits ↦
          let top : new_virtual < memory_size = ground arith in
          let heap : new_virtual ≤ m.end_heap_index = ground arith in
          elim (Bool-cases (leb new_virtual m.sbrk_index)) [
            | inl enough ↦
                rw (fits, enough)
                  (
                    refl,
                    refl,
                    top,
                    heap,
                    refl,
                    (aligned, small, leb→le new_virtual m.sbrk_index enough, writeable),
                  )
            | inr short ↦
                let longer : m.sbrk_index < new_virtual = ltb-leb new_virtual m.sbrk_index short in
                let whole : new_index % page_size ≡ 0 = omega arith in
                let bound : new_index ≤ memory_size = omega arith in
                let covers : new_virtual ≤ new_index = omega arith in
                rw
                  (
                    fits,
                    short,
                    allocated_range m.sbrk_index new_index aligned whole (omega arith) bound,
                    allocated_pages m.sbrk_index new_index aligned whole (omega arith) bound,
                  )
                  (
                    refl,
                    refl,
                    top,
                    heap,
                    refl,
                    (
                      whole,
                      bound,
                      covers,
                      grown_pages start m.sbrk_index new_index m.memory aligned whole (omega arith)
                          bound writeable,
                    ),
                  )
          ]
    ]
