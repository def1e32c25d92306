-- ===== src/Pvm/Memory/Page.antt =====
-- One page: what was stored is loaded.
use typeberry.Base.{
  ℕ, ◌+◌, ◌-◌, ◌≤◌, ◌≡◌, sym, arith, min, max, Bool-cases, ltb, ge→ltb, ltb→ge, List, ◌++◌, length,
  length-append, length-take, length-replicate, take, drop, take-append, drop-append, replicate,
  append-nil, inl, inr,
}
use typeberry.Pvm.Memory.{
  MemoryPage, page_size, min_allocation_length, grown, load_page, store_page,
}

length-grown : (end : ℕ) (view : List ℕ) → end ≤ page_size → end ≤ length (grown end view)
length-grown end view h = elim (Bool-cases (ltb (length view) end)) [
  | inl short ↦ elim (Bool-cases (ltb (length view) page_size)) [
    | inl small ↦
        rw (short, small)
          (omega (
            arith,
            length-append view
                (replicate (min page_size (max min_allocation_length end) - length view) 0),
            length-replicate {A = ℕ} (min page_size (max min_allocation_length end) - length view)
                0,
          ))
    | inr full ↦ rw (short, full) (omega (arith, ltb→ge (length view) page_size full))
  ]
  | inr long ↦ rw (long) (omega (arith, ltb→ge (length view) end long))
]

drop-exact : (n : ℕ) (xs ys : List ℕ) → length xs ≡ n → drop n (xs ++ ys) ≡ ys
drop-exact n xs ys h = rw (sym h) (drop-append xs ys)

-- Bytes that fit a page are loaded from where they were stored.
pub load_page-store_page :
    (page : MemoryPage) (start : ℕ) (bytes : List ℕ)
    → start + length bytes ≤ page_size
    → load_page (store_page page start bytes) start (length bytes) ≡ bytes
unfolding load_page store_page
load_page-store_page page start bytes h =
    let view = grown (start + length bytes) page.view in
    let rest = drop (start + length bytes) view in
    let front : length (take start view) ≡ start =
      omega (arith, length-take start view, length-grown (start + length bytes) page.view h) in
    let none_left : length bytes - length bytes ≡ 0 = omega arith in
    rw
      (
        ge→ltb page_size (start + length bytes) h,
        drop-exact start (take start view) (bytes ++ rest) front,
        take-append bytes rest,
        none_left,
      )
      (append-nil bytes)
