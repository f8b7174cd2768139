-- ===== src/Response.antt =====
-- meinheld/server/response.c and response.h: the write bucket and the chunked framing.
pub mod Writev
pub mod Client
pub mod Header
pub mod Body
pub mod Start
pub mod StatusLine
pub mod Once
pub mod Chunk
pub mod Stream
pub mod Suspended
pub mod Uncounted
pub mod Resumed
pub mod Finished
pub mod FileWrapper
pub mod Sendfile
pub mod ErrorPage
pub mod Answered
mod Tests
use meinheld.Base.{
  ℕ, zero, suc, ◌+◌, ◌-◌, ◌*◌, ◌/◌, ◌%◌, ◌^◌, ◌≤◌, ◌<◌, min, max, ◌≡◌, refl, sym, ap, ◌∙◌, ◌≢◌, ◌↔◌,
  ◌⊎◌, inl, inr, Bool, true, false, not, ◌&&◌, ◌||◌, Option, none, some, List, [], ◌∷◌, ◌++◌,
  append-nil, append_assoc, arith, ltb, leb, ◌==◌, if◌then◌else◌, ==_iff, Bool-cases, Option-cases,
  length, get_elem?, get_or, set, take, drop, replicate, All, length-append, length-set,
  length-take, length-drop, take_all, drop_all, take-append, take-append-drop, take-take, drop-drop,
  get_or-set, set-perm, move-perm, set-get_or, set-set, All-append, All-by_index, All-perm,
  length-perm, get_or-append, get_or-take, concat-perm, take-append-last, codes, bytes_eq,
  bytes_eq_iff, take_until, to_upper,
}

-- `write_bucket`. `iov` are the first `iov_cnt` vectors by their bytes, of `iov_size` allocated.
pub record Bucket : Type 0 where
  pub iov : List (List ℕ)
  pub iov_size : ℕ
  pub total : ℕ
  pub total_size : ℕ
  pub sended : Bool

-- `new_write_bucket`, with memory at hand
unfoldable pub new_write_bucket : ℕ → Bucket
new_write_bucket cnt = record {
  iov = [];
  iov_size = cnt;
  total = 0;
  total_size = 0;
  sended = false;
}

abbrev pub u32 : ℕ → ℕ
u32 n = n % 2 ^ 32

-- `set2bucket`
unfoldable pub set2bucket : Bucket → List ℕ → Bucket
set2bucket b buf = record b {
  iov = b.iov ++ buf ∷ [];
  total = u32 (b.total + length buf);
  total_size = u32 (b.total_size + length buf);
}

abbrev pub crlf : List ℕ
crlf = 13 ∷ 10 ∷ []

-- `set_chunked_data`
unfoldable pub set_chunked_data : Bucket → List ℕ → List ℕ → Bucket
unfolding set2bucket
set_chunked_data b lendata buf =
    set2bucket (set2bucket (set2bucket (set2bucket b lendata) crlf) buf) crlf

-- `set_last_chunked_data`
unfoldable pub set_last_chunked_data : Bucket → Bucket
unfolding set2bucket
set_last_chunked_data b = set2bucket (set2bucket (set2bucket b (codes "0")) crlf) crlf

-- `add_header`
unfoldable pub add_header : Bucket → List ℕ → List ℕ → Bucket
unfolding set2bucket
add_header b key val = set2bucket (set2bucket (set2bucket (set2bucket b key) (codes ": ")) val) crlf

-- The lower-case hexadecimal digits of a number, the first argument at most.
unfoldable pub hex_digits : ℕ → ℕ → List ℕ
hex_digits zero n = []
hex_digits (suc fuel) n =
    let d = if ltb (n % 16) 10 then n % 16 + 48 else n % 16 + 87 in
    let more = hex_digits fuel (n / 16) in if ltb n 16 then d ∷ [] else more ++ d ∷ []

-- `get_chunk_data`: a `size_t` has at most 16 digits.
unfoldable pub get_chunk_data : ℕ → List ℕ
unfolding hex_digits
get_chunk_data datalen = hex_digits 16 datalen

-- What a bucket holds, in the order in which it is sent.
unfoldable pub bytes_of : List (List ℕ) → List ℕ
bytes_of [] = []
bytes_of (v ∷ vs) = v ++ bytes_of vs

-- What `writev` answers: it has room for so many bytes and one more and takes what it is given up
-- to that; EAGAIN or EWOULDBLOCK; another error.
pub data Answer : Type 0 where
  room : ℕ → Answer
  again : Answer
  failed : Answer

-- `response_status`, and `endless` for a call that never returns
pub data Status : Type 0 where
  ok suspend error endless : Status

-- What a call leaves: its result, the bucket, the bytes that went out and the answers still to come.
pub record Written : Type 0 where
  pub status : Status
  pub bucket : Bucket
  pub sent : List ℕ
  pub answers : List Answer

-- The loop of `writev_bucket` over the vectors: those that were sent become empty, and the rest of
-- `w` is what it took of the last.
unfoldable pub advance : List (List ℕ) → ℕ → List (List ℕ) × ℕ
advance [] w = ([], w)
advance (v ∷ vs) w =
    let (rest, left) = advance vs (w - length v) in
    if ltb (length v) w then ([] ∷ rest, left) else (drop w v ∷ vs, w)

unfoldable pub prepend : List ℕ → Written → Written
prepend sent r = record r { sent = sent ++ r.sent }

-- `writev_bucket`, with the answers of the kernel's calls in order, and EAGAIN from then on.
unfoldable pub writev_bucket : List Answer → Bucket → Written
writev_bucket [] b = record { status = suspend; bucket = b; sent = []; answers = [] }
writev_bucket (again ∷ answers) b = record {
  status = suspend;
  bucket = b;
  sent = [];
  answers = answers;
}
writev_bucket (failed ∷ answers) b = record {
  status = error;
  bucket = b;
  sent = [];
  answers = answers;
}
writev_bucket (room n ∷ answers) b =
    let w = min (suc n) (length (bytes_of b.iov)) in
    let sent = take w (bytes_of b.iov) in
    let (iov, left) = advance b.iov w in
    let rest = writev_bucket answers (record b { iov = iov; total = b.total - left }) in
    let finished : Written = record {
      status = ok;
      bucket = record b { sended = true };
      sent = sent;
      answers = answers;
    } in
    if w == 0 then finished else if ltb w b.total then prepend sent rest else finished
