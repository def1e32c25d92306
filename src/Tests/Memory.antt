-- ===== src/Tests/Memory.antt =====
-- Runs of the memory.
use typeberry.Base.{ℕ, ◌+◌, ◌-◌, ◌*◌, ◌^◌, ◌≡◌, refl, arith, true, false, [], ◌∷◌, none}
use typeberry.Pvm.Memory.{
  Pages, set_page, from_memory_range, pages_loop, page_numbers, ok, error, get_pages_loop,
  get_pages, store_loop, store_from, load_into,
}
use typeberry.Pvm.Memory.RoundTrip.{load_into-store_from}
use typeberry.Pvm.Memory.Heap.{Memory, new_page, out_of_memory, type_error, sbrk}
use typeberry.Pvm.Memory.Heap.Growth.{IsHeap, Grown, sbrk-Grown}

-- Page 16 can be written, page 17 too, page 18 only be read.
abbrev pages : Pages
pages =
    set_page (set_page (set_page (λ _. none) 16 new_page) 17 new_page) 18
      (record { is_writeable = false; view = 9 ∷ [] })

-- Two bytes on page 16, one on page 17.
abbrev address : ℕ
address = 16 * 4096 + 4094

abbrev after : Pages
after = store_loop (16 ∷ 17 ∷ []) address (1 ∷ 2 ∷ 3 ∷ []) pages

stored : store_from address (1 ∷ 2 ∷ 3 ∷ []) pages ≡ ok after
unfolding store_from get_pages get_pages_loop page_numbers pages_loop from_memory_range
stored = refl

load_into-store_from_example : load_into address 3 after ≡ ok (1 ∷ 2 ∷ 3 ∷ [])
load_into-store_from_example =
    load_into-store_from address (1 ∷ 2 ∷ 3 ∷ []) pages after (omega arith) (omega arith) stored

read_only :
    store_from (17 * 4096 + 4095) (1 ∷ 2 ∷ []) pages
    ≡ error (record { address = 18 * 4096; is_access_fault = true })
unfolding store_from get_pages get_pages_loop page_numbers pages_loop from_memory_range
read_only = refl

-- The range runs around the end of the memory into the reserved pages, which are met second.
around :
    load_into (1048575 * 4096 + 4095) 2 pages
    ≡ error (record { address = 1048575 * 4096; is_access_fault = false })
unfolding load_into get_pages get_pages_loop page_numbers pages_loop from_memory_range
around = refl

-- A heap that is given up to the end of page 17.
abbrev heap : Memory
heap = record {
  sbrk_index = 18 * 4096;
  virtual_sbrk_index = 18 * 4096;
  end_heap_index = 40 * 4096;
  memory = set_page (set_page (λ _. none) 16 new_page) 17 new_page;
}

heap-IsHeap : IsHeap (17 * 4096) heap
heap-IsHeap = (
  refl,
  omega arith,
  omega arith,
  λ number from below.
      let only : number ≡ 17 = omega (arith, from, below) in rw (only) (new_page, refl, refl),
)

-- The last index of the memory may be the new end, the one behind it may not.
abbrev whole : Memory
whole = record {
  sbrk_index = 18 * 4096;
  virtual_sbrk_index = 18 * 4096;
  end_heap_index = 2 ^ 32;
  memory = λ _. none;
}

all_of_memory : sbrk (2 ^ 32 - 18 * 4096) whole ≡ out_of_memory
unfolding sbrk
all_of_memory = refl

-- An end of the heap that is not the end of a page leaves no whole number of pages.
abbrev unaligned : Memory
unaligned = record {
  sbrk_index = 18 * 4096 + 1;
  virtual_sbrk_index = 18 * 4096;
  end_heap_index = 40 * 4096;
  memory = λ _. none;
}

no_whole_pages : sbrk 5000 unaligned ≡ type_error
unfolding sbrk
no_whole_pages = refl

sbrk-Grown_example : Grown (17 * 4096) 5000 heap (sbrk 5000 heap)
sbrk-Grown_example = sbrk-Grown (17 * 4096) 5000 heap heap-IsHeap
