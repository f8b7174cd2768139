-- ===== src/Buffer.antt =====
-- meinheld/server/buffer.c and buffer.h: the growing byte buffer.
pub mod Append
mod Tests
use meinheld.Base.{
  ℕ, ◌+◌, ◌-◌, ◌*◌, ◌%◌, ◌^◌, Bool, true, false, Option, none, some, List, [], ◌++◌, ltb, leb,
  if◌then◌else◌, length, take,
}

-- `buffer_result`
pub data WriteResult : Type 0 where
  write_ok memory_error limit_over : WriteResult

-- `buffer_t`. `bytes` are the first `len` bytes of the block behind `buf`; `is_null` is `buf == 0`.
pub record Buffer : Type 0 where
  pub bytes : List ℕ
  pub is_null : Bool
  pub buf_size : ℕ
  pub len : ℕ
  pub limit : ℕ

-- LIMIT_MAX
abbrev pub limit_max : ℕ
limit_max = 1024 * 1024 * 1024

-- `size_t` arithmetic
abbrev pub size_mod : ℕ
size_mod = 2 ^ 64

-- `(int)n` for a `size_t` n, converted back to `size_t`
unfoldable pub int_cast : ℕ → ℕ
int_cast n = let m = n % 2 ^ 32 in if ltb m (2 ^ 31) then m else m + (2 ^ 64 - 2 ^ 32)

-- A limit of 0 stands for LIMIT_MAX.
unfoldable pub new_buffer : ℕ → ℕ → Buffer
new_buffer size limit = record {
  bytes = [];
  is_null = false;
  buf_size = size;
  len = 0;
  limit = if ltb 0 limit then limit else limit_max;
}

-- The new `buf_size` for a block that is to hold `newl` bytes and a terminator.
unfoldable pub grown_size : Buffer → ℕ → ℕ
grown_size b newl =
    let doubled = b.buf_size * 2 % size_mod in
    let enough = if leb doubled newl then int_cast ((newl + 1) % size_mod) else doubled in
    if ltb b.limit enough then (b.limit + 1) % size_mod else enough

-- The copy at the end of `write2buf`: `l` is cut where the block is too small.
unfoldable pub copy_in : Buffer → List ℕ → ℕ → WriteResult × Buffer
copy_in b c newl =
    let over = leb b.buf_size newl in
    let l = if over then (b.buf_size + 2 * size_mod - b.len - 1) % size_mod else length c in
    let grown = record b {
      bytes = take b.len b.bytes ++ take l c;
      len = (b.len + int_cast l) % size_mod;
    } in
    (if over then limit_over else write_ok, grown)

-- The first argument says whether `PyMem_Realloc` has memory, should it be called.
unfoldable pub write2buf : Bool → Buffer → List ℕ → WriteResult × Buffer
write2buf has_memory b c =
    let newl = (b.len + length c) % size_mod in
    let lost = record b { bytes = []; is_null = true; buf_size = 0; len = 0 } in
    let bigger = record b { buf_size = grown_size b newl } in
    if leb b.buf_size newl
    then (if has_memory then copy_in bigger c newl else (memory_error, lost))
    else copy_in b c newl

-- `getPyString`, without the release of the block
unfoldable pub py_string : Buffer → List ℕ
py_string b = take b.len b.bytes

-- `getString`, which stores a NUL behind the bytes: `none` is a store outside the block.
unfoldable pub get_string : Buffer → Option (List ℕ)
get_string b = if ltb b.len b.buf_size then some (take b.len b.bytes) else none
