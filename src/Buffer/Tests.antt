-- ===== src/Buffer/Tests.antt =====
-- Runs of the buffer, and its theorems at concrete buffers.
use meinheld.Base.{◌≡◌, refl, true, false, [], ◌∷◌, arith}
use meinheld.Buffer.{Buffer, limit_over, write2buf, grown_size, copy_in, int_cast}
use meinheld.Buffer.Append.{IsValid, Written, write2buf_lem}

abbrev small : Buffer
small = record { bytes = 7 ∷ []; is_null = false; buf_size = 2; len = 1; limit = 3 }

small-IsValid : IsValid small
small-IsValid = record {
  allocated = refl;
  counted = refl;
  room = omega arith;
  capped = omega arith;
  bounded = omega arith;
}

write_over : write2buf true small (1 ∷ 2 ∷ 3 ∷ 4 ∷ []) ≡ (
  limit_over,
  record { bytes = 7 ∷ 1 ∷ 2 ∷ []; is_null = false; buf_size = 4; len = 3; limit = 3 },
)
unfolding write2buf grown_size copy_in int_cast
write_over = refl

write2buf_lem_example :
    Written small
      (1 ∷ 2 ∷ [])
      (write2buf true small (1 ∷ 2 ∷ [])).0
      (write2buf true small (1 ∷ 2 ∷ [])).1
write2buf_lem_example = write2buf_lem small (1 ∷ 2 ∷ []) small-IsValid (omega arith)
