-- ===== src/Pvm/Memory.antt =====
-- packages/core/pvm-interpreter/memory: pages of bytes with access rights, and ranges of bytes over
-- them. Sizes and numbers of pages are of a memory of 2 ^ 32 bytes.
pub mod Page
pub mod Range
pub mod Loops
pub mod RoundTrip
pub mod Heap
use typeberry.Base.{
  ℕ, zero, suc, ◌+◌, ◌-◌, ◌*◌, ◌/◌, ◌%◌, ◌^◌, min, max, Bool, true, false, ltb, ◌==◌, ◌&&◌, ◌||◌,
  not, List, [], ◌∷◌, ◌++◌, length, take, drop, replicate, Option, none, some, if◌then◌else◌,
}

-- memory-consts.ts
abbrev pub page_size : ℕ
page_size = 4096

abbrev pub min_allocation_length : ℕ
min_allocation_length = 32

abbrev pub reserved_number_of_pages : ℕ
reserved_number_of_pages = 16

abbrev pub max_number_of_pages : ℕ
max_number_of_pages = 2 ^ 20

abbrev pub memory_size : ℕ
memory_size = 2 ^ 32

-- A page is a `WriteablePage` or a `ReadablePage`; bytes behind its view are zero.
pub record MemoryPage : Type 0 where
  pub is_writeable : Bool
  pub view : List ℕ

-- The bytes that `loadInto` of a page writes; none if it faults.
unfoldable pub load_page : MemoryPage → ℕ → ℕ → List ℕ
load_page page start n =
    let bytes = take n (drop start page.view) in
    if ltb page_size (start + n) then [] else bytes ++ replicate (n - length bytes) 0

-- `resize` of the buffer of a page, which is filled up with zeros.
abbrev pub resize : ℕ → List ℕ → List ℕ
resize n view = view ++ replicate (n - length view) 0

abbrev pub grown : ℕ → List ℕ → List ℕ
grown end view =
    if ltb (length view) end && ltb (length view) page_size
    then resize (min page_size (max min_allocation_length end)) view
    else view

-- `storeFrom` of a writeable page.
unfoldable pub store_page : MemoryPage → ℕ → List ℕ → MemoryPage
store_page page start bytes =
    let view = grown (start + length bytes) page.view in
    record {
      is_writeable = page.is_writeable;
      view = take start view ++ (bytes ++ drop (start + length bytes) view);
    }

-- The `Map` from page numbers to pages.
abbrev pub Pages : Type 0
Pages = ℕ → Option MemoryPage

abbrev pub set_page : Pages → ℕ → MemoryPage → Pages
set_page pages number page m = if m == number then some page else pages m

-- page-utils.ts, memory-utils.ts
abbrev pub get_next_page_number : ℕ → ℕ
get_next_page_number number = if number == max_number_of_pages - 1 then 0 else number + 1

abbrev pub get_page_number : ℕ → ℕ
get_page_number address = address / page_size

-- page-range.ts
pub record PageRange : Type 0 where
  pub start : ℕ
  pub length : ℕ

abbrev pub end_of : PageRange → ℕ
end_of range = (range.start + range.length) % max_number_of_pages

-- `fromMemoryRange` of the range of `length` bytes from `start` on.
unfoldable pub from_memory_range : ℕ → ℕ → PageRange
from_memory_range start length =
    let end = (start + length) % memory_size in
    let last_index = (end + memory_size - 1) % memory_size in
    let start_page = get_page_number start in
    let last_page = get_page_number last_index in
    let end_page = get_next_page_number last_page in
    if length == 0
    then record { start = start_page; length = 0 }
    else if (start_page == end_page || start_page == last_page) && ltb page_size length
    then record { start = start_page; length = max_number_of_pages }
    else record {
      start = start_page;
      length =
          if ltb start_page end_page
          then end_page - start_page
          else max_number_of_pages - start_page + end_page;
    }

-- The `do ... while (i !== end)` of the iterator, on fuel.
unfoldable pub pages_loop : ℕ → ℕ → ℕ → List ℕ
pages_loop zero i end = []
pages_loop (suc fuel) i end =
    let next = get_next_page_number i in
    let rest = pages_loop fuel next end in if next == end then i ∷ [] else i ∷ rest

unfoldable pub page_numbers : PageRange → List ℕ
page_numbers range =
    if range.length == 0 then [] else pages_loop max_number_of_pages range.start (end_of range)

-- errors.ts: the address of the faulting page, and whether its access is at fault.
pub record PageFault : Type 0 where
  pub address : ℕ
  pub is_access_fault : Bool

pub data Result (A : Type 0) : Type 0 where
  ok : A → Result A
  error : PageFault → Result A

-- `(pageNumber << 12) >>> 0`
abbrev pub fault : ℕ → Bool → PageFault
fault number is_access_fault = record {
  address = number * page_size % 2 ^ 32;
  is_access_fault = is_access_fault;
}

-- memory.ts
abbrev pub check_page : Bool → ℕ → Option MemoryPage → Result (List ℕ) → Result (List ℕ)
check_page write number none rest = error (fault number false)
check_page write number (some page) (error e) =
    if write && not page.is_writeable then error (fault number true) else error e
check_page write number (some page) (ok numbers) =
    if write && not page.is_writeable then error (fault number true) else ok (number ∷ numbers)

-- The loop of `getPages`, with the numbers of the pages in place of the page objects.
unfoldable pub get_pages_loop : Bool → List ℕ → Pages → Result (List ℕ)
get_pages_loop write [] pages = ok []
get_pages_loop write (number ∷ numbers) pages =
    let rest = get_pages_loop write numbers pages in
    if ltb number reserved_number_of_pages
    then error (fault number true)
    else check_page write number (pages number) rest

unfoldable pub get_pages : Bool → ℕ → ℕ → Pages → Result (List ℕ)
get_pages write start length pages =
    if length == 0
    then ok []
    else get_pages_loop write (page_numbers (from_memory_range start length)) pages

abbrev pub store_into : Option MemoryPage → ℕ → ℕ → List ℕ → Pages → Pages
store_into none number start bytes pages = pages
store_into (some page) number start bytes pages =
    set_page pages number (store_page page start bytes)

-- The loop of `storeFrom`; `bytes` are those from the current position on.
unfoldable pub store_loop : List ℕ → ℕ → List ℕ → Pages → Pages
store_loop [] position bytes pages = pages
store_loop (number ∷ numbers) position bytes pages =
    let start = position % page_size in
    let n = min (page_size - start) (length bytes) in
    store_loop numbers (position + n) (drop n bytes)
      (store_into (pages number) number start (take n bytes) pages)

abbrev pub load_from : Option MemoryPage → ℕ → ℕ → List ℕ
load_from none start n = []
load_from (some page) start n = load_page page start n

-- The loop of `loadInto`; what it writes, one page behind the other.
unfoldable pub load_loop : List ℕ → ℕ → ℕ → Pages → List ℕ
load_loop [] position left pages = []
load_loop (number ∷ numbers) position left pages =
    let start = position % page_size in
    let n = min (page_size - start) left in
    load_from (pages number) start n ++ load_loop numbers (position + n) (left - n) pages

abbrev pub on_ok : {A : Type 0} → Result (List ℕ) → (List ℕ → A) → Result A
on_ok (error e) f = error e
on_ok (ok numbers) f = ok (f numbers)

-- The pages after `storeFrom`.
unfoldable pub store_from : ℕ → List ℕ → Pages → Result Pages
store_from address bytes pages =
    if length bytes == 0
    then ok pages
    else on_ok (get_pages true address (length bytes) pages)
        (λ numbers. store_loop numbers address bytes pages)

-- The bytes that `loadInto` gives for a buffer of `n` bytes.
unfoldable pub load_into : ℕ → ℕ → Pages → Result (List ℕ)
load_into address n pages =
    if n == 0
    then ok []
    else on_ok (get_pages false address n pages) (λ numbers. load_loop numbers address n pages)
