-- ===== src/Buffer/Append.antt =====
-- What a write to a well-formed buffer does, and what a sequence of writes does.
use meinheld.Base.{
  ℕ, ◌+◌, ◌-◌, ◌*◌, ◌%◌, ◌^◌, ◌≤◌, ◌<◌, ◌≡◌, refl, sym, ◌⊎◌, inl, inr, true, false, some, List, [],
  ◌++◌, arith, leb, if◌then◌else◌, Bool-cases, length, take, length-append, length-take, take_all,
  take-append,
}
use meinheld.Buffer.{
  Buffer, WriteResult, write_ok, memory_error, limit_over, limit_max, size_mod, int_cast,
  new_buffer, grown_size, copy_in, write2buf, get_string,
}

-- The block is there, holds `len` bytes with room for a terminator once it is not empty, and is
-- at most one byte longer than the limit.
pub record IsValid (b : Buffer) : Type 0 where
  pub allocated : b.is_null ≡ false
  pub counted : b.len ≡ length b.bytes
  pub room : b.len ≤ b.buf_size - 1
  pub capped : b.buf_size ≤ b.limit + 1
  pub bounded : b.limit ≤ limit_max

int_cast_small : (n : ℕ) → n < 2 ^ 31 → int_cast n ≡ n
unfolding int_cast
int_cast_small n h = ground arith

grown_size_bounds :
    (b : Buffer) (newl : ℕ)
    → IsValid b
    → newl + 1 < 2 ^ 31
    → (grown_size b newl ≤ b.limit + 1)
      × (b.limit < newl → grown_size b newl ≡ b.limit + 1)
      × (newl ≤ b.limit → newl < grown_size b newl)
unfolding grown_size
grown_size_bounds b newl v h = ground (arith, int_cast_small (newl + 1))

pub new_buffer-IsValid :
    (size limit : ℕ)
    → size ≤ limit + 1
    → 0 < limit
    → limit ≤ limit_max
    → IsValid (new_buffer size limit)
unfolding new_buffer
new_buffer-IsValid size limit h p q = ground arith

copy_in_fits :
    (b : Buffer) (c : List ℕ)
    → IsValid b
    → b.len + length c < b.buf_size
    → copy_in b c (b.len + length c)
      ≡ (write_ok, record b { bytes = b.bytes ++ c; len = b.len + length c })
unfolding copy_in
copy_in_fits b c v h =
    ground (arith, int_cast_small (length c), take_all b.len b.bytes, take_all (length c) c)

copy_in_cut :
    (b : Buffer) (c : List ℕ)
    → IsValid b
    → b.buf_size ≡ b.limit + 1
    → b.limit < b.len + length c
    → copy_in b c (b.len + length c)
      ≡ (limit_over, record b { bytes = b.bytes ++ take (b.limit - b.len) c; len = b.limit })
unfolding copy_in
copy_in_cut b c v e h =
    let cut : (b.buf_size + 2 * size_mod - b.len - 1) % size_mod ≡ b.limit - b.len = omega arith in
    ground (arith, cut, int_cast_small (b.limit - b.len), take_all b.len b.bytes)

-- What a write leaves: the bytes up to the limit, and whether the limit was passed.
pub record Written (b : Buffer) (c : List ℕ) (r : WriteResult) (b' : Buffer) : Type 0 where
  pub valid : IsValid b'
  pub kept : b'.bytes ≡ take b.limit (b.bytes ++ c)
  pub same_limit : b'.limit ≡ b.limit
  pub status : r ≡ (if leb (b.len + length c) b.limit then write_ok else limit_over)

copy_in-Written :
    (b : Buffer) (c : List ℕ)
    → IsValid b
    → b.len + length c + 1 < 2 ^ 31
    → (b.len + length c < b.buf_size) ⊎ (b.buf_size ≡ b.limit + 1) × (b.limit < b.len + length c)
    → Written b c (copy_in b c (b.len + length c)).0 (copy_in b c (b.len + length c)).1
copy_in-Written b c v h (inl fits) = rw (copy_in_fits b c v fits) (record {
  valid = ground (arith, length-append b.bytes c);
  kept = sym (take_all b.limit (b.bytes ++ c) (omega (arith, length-append b.bytes c)));
  same_limit = refl;
  status = ground arith;
})
copy_in-Written b c v h (inr (e, over)) = rw (copy_in_cut b c v e over) (record {
  valid =
      ground
        (arith, length-append b.bytes (take (b.limit - b.len) c), length-take (b.limit - b.len) c);
  kept = ground (arith, take-append b.limit b.bytes c);
  same_limit = refl;
  status = ground arith;
})

grown-IsValid :
    (b : Buffer) (newl : ℕ)
    → IsValid b
    → b.len ≤ newl
    → newl + 1 < 2 ^ 31
    → IsValid (record b { buf_size = grown_size b newl })
grown-IsValid b newl v p h = ground (arith, grown_size_bounds b newl v h)

grown_case :
    (b : Buffer) (newl : ℕ)
    → IsValid b
    → newl + 1 < 2 ^ 31
    → (newl < grown_size b newl) ⊎ (grown_size b newl ≡ b.limit + 1) × (b.limit < newl)
grown_case b newl v h = ground (arith, grown_size_bounds b newl v h)

-- A write to a well-formed buffer, with memory at hand and a total below 2^31 - 1, appends the
-- bytes that fit below the limit, answers WRITE_OK exactly if all of them fit and LIMIT_OVER
-- otherwise, and leaves the buffer well formed, with room for the terminator.
pub write2buf_lem :
    (b : Buffer) (c : List ℕ)
    → IsValid b
    → b.len + length c + 1 < 2 ^ 31
    → Written b c (write2buf true b c).0 (write2buf true b c).1
unfolding write2buf
write2buf_lem b c v h =
    let no_wrap : (b.len + length c) % size_mod ≡ b.len + length c = omega arith in
    rw no_wrap (elim (Bool-cases (leb b.buf_size (b.len + length c))) [
      | inl small ↦ rw small (enlarged small)
      | inr big ↦ rw big (copy_in-Written b c v h (inl (ground arith)))
    ])
  where
    b2 : Buffer
    b2 = record b { buf_size = grown_size b (b.len + length c) }

    enlarged :
        leb b.buf_size (b.len + length c) ≡ true
        → Written b c (copy_in b2 c (b.len + length c)).0 (copy_in b2 c (b.len + length c)).1
    enlarged small =
        let w =
          copy_in-Written b2 c (grown-IsValid b (b.len + length c) v (omega arith) h) h
            (grown_case b (b.len + length c) v h) in
        record { valid = w.valid; kept = w.kept; same_limit = w.same_limit; status = w.status }

-- When `PyMem_Realloc` fails, a write that needs a larger block answers MEMORY_ERROR and leaves
-- the empty buffer with no block; a write that fits is not affected.
pub write2buf-no_memory :
    (b : Buffer) (c : List ℕ)
    → IsValid b
    → b.len + length c + 1 < 2 ^ 31
    → write2buf false b c ≡ (
        if leb b.buf_size (b.len + length c)
        then (memory_error, record b { bytes = []; is_null = true; buf_size = 0; len = 0 })
        else (write_ok, record b { bytes = b.bytes ++ c; len = b.len + length c }))
unfolding write2buf
write2buf-no_memory b c v h =
    let no_wrap : (b.len + length c) % size_mod ≡ b.len + length c = omega arith in
    rw no_wrap (ground (arith, copy_in_fits b c v))

-- The NUL of `getString` has its place in every buffer that was not made with size 0.
pub get_string_lem : (b : Buffer) → IsValid b → 0 < b.buf_size → get_string b ≡ some b.bytes
unfolding get_string
get_string_lem b v made =
    let all : take b.len b.bytes ≡ b.bytes = take_all b.len b.bytes (omega (arith, v.counted)) in
    ground (arith, v.room, all)
