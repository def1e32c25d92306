-- ===== src/Pvm/Memory/RoundTrip.antt =====
-- Bytes that were stored over several pages are loaded back.
use typeberry.Base.{
  ℕ, suc, ◌+◌, ◌-◌, ◌%◌, ◌≤◌, ◌<◌, ◌≡◌, refl, ap, ◌∙◌, arith, min, Bool, Bool-cases, ltb, ◌==◌,
  List, [], ◌∷◌, length, take, drop, All, Option, none, some, inl, inr, true, false, not, ◌&&◌,
}
use typeberry.Pvm.Memory.{
  MemoryPage, Pages, page_size, memory_size, reserved_number_of_pages, store_page, store_into,
  store_loop, from_memory_range, page_numbers, Result, ok, error, get_pages, get_pages_loop,
  store_from, load_into, check_page, on_ok,
}
use typeberry.Pvm.Memory.Range.{page_numbers-DistinctPages}
use typeberry.Pvm.Memory.Loops.{Allocated, load_loop-store_loop}

-- Pages that may be read: none of them is reserved, and all are there.
abbrev Readable : List ℕ → Pages → Type 0
Readable numbers pages =
    All (λ m. ltb m reserved_number_of_pages ≡ false) numbers × Allocated numbers pages

check_page-ok :
    (write : Bool) (number : ℕ) (found : Option MemoryPage) (rest : Result (List ℕ)) (xs : List ℕ)
    → check_page write number found rest ≡ ok xs
    → (page : MemoryPage) × (ys : List ℕ) × (found ≡ some page)
      × (rest ≡ ok ys)
      × (xs ≡ (number ∷ ys))
check_page-ok write number none rest xs h = cc
check_page-ok write number (some page) (error e) xs h =
    elim (Bool-cases (write && not page.is_writeable)) [
      | inl no_right ↦ (let bad = rw (no_right) at h in cc)
      | inr right ↦ (let bad = rw (right) at h in cc)
    ]
check_page-ok write number (some page) (ok ys) xs h =
    elim (Bool-cases (write && not page.is_writeable)) [
      | inl no_right ↦ (let bad = rw (no_right) at h in cc)
      | inr right ↦ (page, ys, refl, refl, (let same = rw (right) at h in cc))
    ]

-- The pages that `getPages` gives are all those asked for.
get_pages_loop-Readable :
    (write : Bool) (numbers xs : List ℕ) (pages : Pages)
    → get_pages_loop write numbers pages ≡ ok xs
    → (xs ≡ numbers) × Readable numbers pages
unfolding get_pages_loop
get_pages_loop-Readable write [] xs pages h = (cc, (tt, tt))
get_pages_loop-Readable write (number ∷ numbers) xs pages h =
    elim (Bool-cases (ltb number reserved_number_of_pages)) [
      | inl low ↦ (let bad = rw (low) at h in cc)
      | inr high ↦
          let (page, ys, found, rest, e) =
            check_page-ok write number (pages number) (get_pages_loop write numbers pages) xs
              (rw (high) at h) in
          let (same, (free, there)) = get_pages_loop-Readable write numbers ys pages rest in
          (e ∙ ap (◌∷◌ number) same, ((high, free), ((page, found), there)))
    ]

-- Readable pages are given.
Readable-get_pages_loop :
    (numbers : List ℕ) (pages : Pages)
    → Readable numbers pages
    → get_pages_loop false numbers pages ≡ ok numbers
unfolding get_pages_loop
Readable-get_pages_loop [] pages r = refl
Readable-get_pages_loop (number ∷ numbers) pages ((high, free), ((page, found), there)) =
    rw (high, found, Readable-get_pages_loop numbers pages (free, there)) refl

store_into-some :
    (found : Option MemoryPage) (number start m : ℕ) (bytes : List ℕ) (pages : Pages)
    → (page : MemoryPage) × (pages m ≡ some page)
    → (page : MemoryPage) × (store_into found number start bytes pages m ≡ some page)
store_into-some none number start m bytes pages h = h
store_into-some (some page) number start m bytes pages h = elim (Bool-cases (m == number)) [
  | inl e ↦ (store_page page start bytes, rw (e) refl)
  | inr e ↦ (h.0, rw (e) (h.1))
]

-- Storing takes no page away.
store_loop-some :
    (numbers : List ℕ) (position m : ℕ) (bytes : List ℕ) (pages : Pages)
    → (page : MemoryPage) × (pages m ≡ some page)
    → (page : MemoryPage) × (store_loop numbers position bytes pages m ≡ some page)
unfolding store_loop
store_loop-some [] position m bytes pages h = h
store_loop-some (number ∷ numbers) position m bytes pages h =
    let start = position % page_size in
    let n = min (page_size - start) (length bytes) in
    store_loop-some numbers (position + n) m (drop n bytes) _
      (store_into-some (pages number) number start m (take n bytes) pages h)

Allocated-store_loop :
    (ms numbers : List ℕ) (position : ℕ) (bytes : List ℕ) (pages : Pages)
    → Allocated ms pages
    → Allocated ms (store_loop numbers position bytes pages)
Allocated-store_loop [] numbers position bytes pages a = tt
Allocated-store_loop (m ∷ ms) numbers position bytes pages (h, a) = (
  store_loop-some numbers position m bytes pages h,
  Allocated-store_loop ms numbers position bytes pages a,
)

on_ok-ok :
    {A : Type 0} (r : Result (List ℕ)) (f : List ℕ → A) (a : A)
    → on_ok r f ≡ ok a
    → (xs : List ℕ) × (r ≡ ok xs) × (a ≡ f xs)
on_ok-ok (error e) f a h = cc
on_ok-ok (ok xs) f a h = (xs, refl, cc)

some_bytes : (n : ℕ) → (suc n == 0) ≡ false
some_bytes n = ground arith

-- If bytes are stored at an address without a fault, then as many bytes are loaded from there without
-- a fault, and they are the bytes that were stored. This holds over any number of pages, for up to a
-- page less bytes than the memory has.
pub load_into-store_from :
    (address : ℕ) (bytes : List ℕ) (pages after : Pages)
    → address < memory_size
    → length bytes ≤ memory_size - page_size
    → store_from address bytes pages ≡ ok after
    → load_into address (length bytes) after ≡ ok bytes
unfolding load_into store_from get_pages
load_into-store_from address [] pages after l h e = refl
load_into-store_from address (b ∷ bytes) pages after l h e =
    let all = page_numbers (from_memory_range address (length (b ∷ bytes))) in
    let (xs, got, stored) =
      on_ok-ok (get_pages_loop true all pages) _ after (rw (some_bytes (length bytes)) at e) in
    let (same, (free, there)) = get_pages_loop-Readable true all xs pages got in
    let (distinct, enough) =
      page_numbers-DistinctPages address (length (b ∷ bytes)) l (omega arith) h in
    let written : after ≡ store_loop all address (b ∷ bytes) pages =
      stored ∙ ap (λ z. store_loop z address (b ∷ bytes) pages) same in
    let readable : Readable all (store_loop all address (b ∷ bytes) pages) =
      (free, Allocated-store_loop all all address (b ∷ bytes) pages there) in
    rw
      (
        some_bytes (length bytes),
        written,
        Readable-get_pages_loop all (store_loop all address (b ∷ bytes) pages) readable,
      )
      (ap ok (load_loop-store_loop all address (b ∷ bytes) pages distinct there enough))
