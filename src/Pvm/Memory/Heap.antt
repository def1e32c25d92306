-- ===== src/Pvm/Memory/Heap.antt =====
-- packages/core/pvm-interpreter/memory/memory.ts: the heap, which `sbrk` grows.
pub mod Growth
use typeberry.Base.{
  ℕ, zero, suc, ◌+◌, ◌-◌, ◌*◌, ◌/◌, ◌%◌, ◌^◌, Bool, true, false, ltb, leb, ◌||◌, List, [], ◌∷◌,
  replicate, Option, none, some, ◌==◌, ◌&&◌, if◌then◌else◌,
}
use typeberry.Pvm.Memory.{
  MemoryPage, Pages, set_page, page_size, min_allocation_length, memory_size, max_number_of_pages,
  PageRange, page_numbers,
}

pub record Memory : Type 0 where
  pub sbrk_index : ℕ
  pub virtual_sbrk_index : ℕ
  pub end_heap_index : ℕ
  pub memory : Pages

-- `WriteablePage.new` without data.
abbrev pub new_page : MemoryPage
new_page = record { is_writeable = true; view = replicate min_allocation_length 0 }

unfoldable pub allocate : List ℕ → Pages → Pages
allocate [] pages = pages
allocate (number ∷ numbers) pages = allocate numbers (set_page pages number new_page)

abbrev pub align_to_page_size : ℕ → ℕ
align_to_page_size length = page_size * ((length + (page_size - 1)) / page_size)

-- The pages from the index on to the new one, which is not smaller; `>>> 12` is on 32 bits. `none` is
-- the `TypeError` of `fromStartAndLength`, when the number of pages is no integer or too large.
abbrev pub range_to_allocate : ℕ → ℕ → Option PageRange
range_to_allocate current new =
    let pages_to_allocate = (new - current) / page_size in
    if (new - current) % page_size == 0 && leb pages_to_allocate max_number_of_pages
    then some (record { start = current % 2 ^ 32 / page_size; length = pages_to_allocate })
    else none

-- The memory after `sbrk` with the index that is returned, or the exception, with the memory as it was.
pub data Sbrk : Type 0 where
  grown : Memory → ℕ → Sbrk
  out_of_memory : Sbrk
  type_error : Sbrk

abbrev pub allocate_range : Option PageRange → Pages → (Pages → Sbrk) → Sbrk
allocate_range none pages f = type_error
allocate_range (some range) pages f = f (allocate (page_numbers range) pages)

unfoldable pub sbrk : ℕ → Memory → Sbrk
sbrk length m =
    let new_virtual = m.virtual_sbrk_index + length in
    let new_index = align_to_page_size new_virtual in
    let moved : ℕ → Pages → Sbrk = λ index pages.
      grown
        (record {
          sbrk_index = index;
          virtual_sbrk_index = new_virtual;
          end_heap_index = m.end_heap_index;
          memory = pages;
        })
        m.virtual_sbrk_index in
    if ltb (memory_size - 1) new_virtual || ltb m.end_heap_index new_virtual
    then out_of_memory
    else if leb new_virtual m.sbrk_index
    then moved m.sbrk_index m.memory
    else allocate_range (range_to_allocate m.sbrk_index new_index) m.memory (moved new_index)
