-- ===== src/Response/StatusLine.antt =====
-- The status line that `create_status` makes, by what a write to a buffer does.
use meinheld.Base.{
  ℕ, ◌+◌, ◌^◌, ◌≤◌, ◌≡◌, refl, ap, ◌∙◌, inl, inr, true, some, List, [], ◌++◌, arith, ◌==◌,
  if◌then◌else◌, Bool-cases, length, length-append, take_all, codes,
}
use meinheld.Buffer.{
  Buffer, WriteResult, write_ok, memory_error, limit_over, new_buffer, write2buf, py_string,
}
use meinheld.Buffer.Append.{IsValid, write2buf_lem}
use meinheld.Response.{crlf}
use meinheld.Response.Start.{chain_write, status_result, create_status}

-- A buffer that holds these bytes, after writes that were all whole.
record Holds (c : List ℕ) (r : WriteResult × Buffer) : Type 0 where
  status : r.0 ≡ write_ok
  valid : IsValid (r.1)
  bytes : (r.1).bytes ≡ c
  limit : (r.1).limit ≡ 2 ^ 30

write-Holds :
    (b : Buffer) (c d : List ℕ)
    → IsValid b
    → b.bytes ≡ c
    → b.limit ≡ 2 ^ 30
    → length c + length d ≤ 2 ^ 30
    → Holds (c ++ d) (write2buf true b d)
write-Holds b c d v e l h =
    let n : b.len ≡ length c = v.counted ∙ ap length e in
    let w = write2buf_lem b d v (omega (arith, n)) in
    let fits : length (b.bytes ++ d) ≤ b.limit = rw e (omega (arith, length-append c d)) in
    record {
      status = w.status ∙ ground (arith, n);
      valid = w.valid;
      bytes = w.kept ∙ take_all b.limit (b.bytes ++ d) fits ∙ ap (λ t. t ++ d) e;
      limit = w.same_limit ∙ l;
    }

chain_write-Holds :
    (c d : List ℕ) (r : WriteResult × Buffer)
    → Holds c r
    → length c + length d ≤ 2 ^ 30
    → Holds (c ++ d) (chain_write d r)
unfolding chain_write
chain_write-Holds c d (write_ok, b) h l = write-Holds b c d h.valid h.bytes h.limit l
chain_write-Holds c d (memory_error, b) h l = absurd (cc (h.status))
chain_write-Holds c d (limit_over, b) h l = absurd (cc (h.status))

status_result-Holds : (c : List ℕ) (r : WriteResult × Buffer) → Holds c r → status_result r ≡ some c
unfolding status_result py_string
status_result-Holds c (write_ok, b) h =
    ap some (take_all b.len b.bytes (omega (arith, h.valid.counted)) ∙ h.bytes)
status_result-Holds c (memory_error, b) h = absurd (cc (h.status))
status_result-Holds c (limit_over, b) h = absurd (cc (h.status))

abbrev pub version : ℕ → List ℕ
version http_minor = if http_minor == 1 then codes "HTTP/1.1 " else codes "HTTP/1.0 "

length-version : (http_minor : ℕ) → length (version http_minor) ≡ 9
length-version http_minor = elim (Bool-cases (http_minor == 1)) [
  | inl e ↦ rw e refl
  | inr e ↦ rw e refl
]

-- For a status of at most 2^30 - 11 bytes, `create_status` gives the version of the request, the
-- status and CRLF: through the growth of its buffer no byte is lost.
pub create_status_lem :
    (status : List ℕ) (http_minor : ℕ)
    → length status + 11 ≤ 2 ^ 30
    → create_status status http_minor ≡ some ((version http_minor ++ status) ++ crlf)
unfolding create_status new_buffer
create_status_lem status http_minor h =
    let v = version http_minor in
    let n = length-version http_minor in
    let first = write-Holds (new_buffer 256 0) [] v new_valid refl refl (omega (arith, n)) in
    let second = chain_write-Holds v status _ first (omega (arith, n)) in
    let third =
      chain_write-Holds (v ++ status) crlf _ second (omega (arith, n, length-append v status)) in
    status_result-Holds ((v ++ status) ++ crlf) _ third
  where
    new_valid : IsValid (new_buffer 256 0)
    new_valid = record {
      allocated = refl;
      counted = refl;
      room = omega arith;
      capped = omega arith;
      bounded = omega arith;
    }
