-- ===== src/Pvm/Memory/Loops.antt =====
-- The loops of storing and loading over the same pages.
use typeberry.Base.{
  ℕ, ◌+◌, ◌-◌, ◌*◌, ◌%◌, ◌≤◌, ◌≡◌, refl, sym, ap, ◌∙◌, arith, min, ◌==◌, ==_refl, List, [], ◌∷◌,
  ◌++◌, length, length-take, length-drop, take, drop, take-append-drop, All, Option, none, some,
  false,
}
use typeberry.Pvm.Memory.{
  MemoryPage, Pages, page_size, load_page, store_page, store_into, store_loop, load_loop,
}
use typeberry.Pvm.Memory.Page.{load_page-store_page}
use typeberry.Pvm.Memory.Range.{DistinctPages, room}

abbrev pub Allocated : List ℕ → Pages → Type 0
Allocated numbers pages = All (λ m. (page : MemoryPage) × (pages m ≡ some page)) numbers

same_sym : (a b : ℕ) → (a == b) ≡ (b == a)
same_sym a b = ground arith

store_into-ne :
    (found : Option MemoryPage) (number start x : ℕ) (bytes : List ℕ) (pages : Pages)
    → (x == number) ≡ false
    → store_into found number start bytes pages x ≡ pages x
store_into-ne none number start x bytes pages h = refl
store_into-ne (some page) number start x bytes pages h = rw (h) refl

store_into_self :
    (page : MemoryPage) (number start : ℕ) (bytes : List ℕ) (pages : Pages)
    → store_into (some page) number start bytes pages number ≡ some (store_page page start bytes)
store_into_self page number start bytes pages = rw (==_refl number) refl

-- The loop leaves the other pages alone.
store_loop-ne :
    (numbers : List ℕ) (position x : ℕ) (bytes : List ℕ) (pages : Pages)
    → All (λ m. (x == m) ≡ false) numbers
    → store_loop numbers position bytes pages x ≡ pages x
unfolding store_loop
store_loop-ne [] position x bytes pages h = refl
store_loop-ne (number ∷ numbers) position x bytes pages h =
    let start = position % page_size in
    let n = min (page_size - start) (length bytes) in
    store_loop-ne numbers (position + n) x (drop n bytes)
      (store_into (pages number) number start (take n bytes) pages) h.1
    ∙ store_into-ne (pages number) number start x (take n bytes) pages h.0

Allocated-store_into :
    (numbers : List ℕ) (found : Option MemoryPage) (number start : ℕ) (bytes : List ℕ)
    (pages : Pages)
    → All (λ m. (number == m) ≡ false) numbers
    → Allocated numbers pages
    → Allocated numbers (store_into found number start bytes pages)
Allocated-store_into [] found number start bytes pages h a = tt
Allocated-store_into (m ∷ numbers) found number start bytes pages h ((page, e), a) = (
  (page, store_into-ne found number start m bytes pages (same_sym m number ∙ h.0) ∙ e),
  Allocated-store_into numbers found number start bytes pages h.1 a,
)

room_left :
    (numbers : List ℕ) (position n : ℕ)
    → n ≤ page_size - position % page_size + page_size * length numbers
    → n - min (page_size - position % page_size) n
      ≤ room numbers (position + min (page_size - position % page_size) n)
room_left [] position n h = ground arith
room_left (number ∷ numbers) position n h = ground arith

joined :
    (n : ℕ) (bytes : List ℕ) {front back : List ℕ}
    → front ≡ take n bytes
    → back ≡ drop n bytes
    → front ++ back ≡ bytes
joined n bytes e f = rw (e, f) (take-append-drop n bytes)

-- If the pages are distinct and have room, the loop of loading reads what that of storing wrote.
pub load_loop-store_loop :
    (numbers : List ℕ) (position : ℕ) (bytes : List ℕ) (pages : Pages)
    → DistinctPages numbers
    → Allocated numbers pages
    → length bytes ≤ room numbers position
    → load_loop numbers position (length bytes) (store_loop numbers position bytes pages) ≡ bytes
unfolding load_loop store_loop
load_loop-store_loop [] position [] pages d a h = refl
load_loop-store_loop [] position (b ∷ bytes) pages d a h = absurd (omega arith)
load_loop-store_loop (number ∷ numbers) position bytes pages d ((page, e), a) h =
    let start = position % page_size in
    let n = min (page_size - start) (length bytes) in
    let stored = store_into (pages number) number start (take n bytes) pages in
    let taken : length (take n bytes) ≡ n = omega (arith, length-take n bytes) in
    let kept : store_loop numbers (position + n) (drop n bytes) stored number
        ≡ some (store_page page start (take n bytes)) =
      store_loop-ne numbers (position + n) number (drop n bytes) stored d.0
      ∙ rw (e) (store_into_self page number start (take n bytes) pages) in
    let here : load_page (store_page page start (take n bytes)) start n ≡ take n bytes =
      ap (load_page (store_page page start (take n bytes)) start) (sym taken)
      ∙ load_page-store_page page start (take n bytes) (omega (arith, taken)) in
    let rest : load_loop numbers (position + n) (length bytes - n)
          (store_loop numbers (position + n) (drop n bytes) stored)
        ≡ drop n bytes =
      ap
        (λ z.
          load_loop numbers (position + n) z
            (store_loop numbers (position + n) (drop n bytes) stored))
        (sym (length-drop n bytes))
      ∙ load_loop-store_loop numbers (position + n) (drop n bytes) stored d.1
          (Allocated-store_into numbers (pages number) number start (take n bytes) pages d.0 a)
          (omega (arith, length-drop n bytes, room_left numbers position (length bytes) h)) in
    rw (kept) (joined n bytes here rest)
