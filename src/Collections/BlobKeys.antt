-- ===== src/Collections/BlobKeys.antt =====
-- packages/core/collections/blob-dictionary.ts and packages/core/bytes/bytes.ts: keys, their chunks,
-- and the numbers of chunks.
pub mod Injective
pub mod Equality
pub mod Sized
use typeberry.Base.{
  ℕ, zero, suc, ◌+◌, ◌-◌, ◌*◌, ◌^◌, Bool, true, false, ◌&&◌, ltb, ◌==◌, bit_or, List, [], ◌∷◌,
  length, get_or, take, drop,
}
use typeberry.Base.Int.{ℤ, pos, negsuc, signed}

abbrev pub Key : Type 0
Key = List ℕ

-- `isEqualTo`
unfoldable pub is_equal_to : Key → Key → Bool
is_equal_to [] [] = true
is_equal_to [] (y ∷ ys) = false
is_equal_to (x ∷ xs) [] = false
is_equal_to (x ∷ xs) (y ∷ ys) = x == y && is_equal_to xs ys

abbrev pub chunk_size : ℕ
chunk_size = 6

-- `v * base + digit` for a digit below the base.
abbrev pub shift_in : ℕ → ℤ → ℕ → ℤ
shift_in base (pos n) digit = pos (base * n + digit)
shift_in base (negsuc n) digit = negsuc (base * n + (base - suc digit))

-- The loop over the bytes from index 4 on.
abbrev pub more_bytes : ℤ → List ℕ → ℤ
more_bytes value [] = value
more_bytes value (b ∷ bytes) = more_bytes (shift_in 256 value b) bytes

-- `bytes[3] | (bytes[2] << 8) | (bytes[1] << 16) | (bytes[0] << 24)`, a signed number of 32 bits in
-- which a byte that is not there counts as 0.
abbrev pub first_bytes : List ℕ → ℤ
first_bytes bytes = signed (2 ^ 31) (
    bit_or
      (bit_or (bit_or (get_or bytes 3 0) (get_or bytes 2 0 * 2 ^ 8)) (get_or bytes 1 0 * 2 ^ 16))
      (get_or bytes 0 0 * 2 ^ 24))

-- For at most `chunk_size` bytes, which the source checks.
unfoldable pub bytes_as_u48 : List ℕ → ℤ
bytes_as_u48 bytes = shift_in 8 (more_bytes (first_bytes bytes) (drop 4 bytes)) (length bytes)

abbrev pub eq_ℤ : ℤ → ℤ → Bool
eq_ℤ (pos m) (pos n) = m == n
eq_ℤ (pos m) (negsuc n) = false
eq_ℤ (negsuc m) (pos n) = false
eq_ℤ (negsuc m) (negsuc n) = m == n

-- `chunks(CHUNK_SIZE)` of `BytesBlob`; a turn for each byte is enough.
abbrev pub chunks_loop : ℕ → Key → List Key
chunks_loop zero key = []
chunks_loop (suc fuel) [] = []
chunks_loop (suc fuel) (b ∷ key) =
    take chunk_size (b ∷ key) ∷ chunks_loop fuel (drop chunk_size (b ∷ key))

abbrev pub chunks : Key → List Key
chunks key = chunks_loop (length key) key

abbrev pub chunk_of : Key → ℤ
chunk_of key = bytes_as_u48 (take chunk_size key)
