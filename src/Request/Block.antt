-- ===== src/Request/Block.antt =====
-- All headers of a request, each in however many pieces the parser hands over, against the same
-- headers as wholes.
use meinheld.Base.{
  ℕ, ◌+◌, ◌≤◌, ◌<◌, ◌≡◌, refl, sym, Bool, true, false, List, [], ◌∷◌, ◌++◌, arith, if◌then◌else◌,
  length, All, codes,
}
use meinheld.Request.{
  limit_request_fields, limit_request_field_size, field, null, Request, key_upper,
  get_http_header_key, flush_header, take_field, append_field, header_field_cb, header_value_cb,
}
use meinheld.Request.Headers.{for_pieces, total, joined_pieces, check_field_name_lem}
use meinheld.Request.Fields.{
  named, valued, next_pieces, first_pieces, first_value_pieces, flushed, length-get_http_header_key,
  key_upper-append, key_of, stored,
}

-- A header as the parser reports it: the pieces of its name, then the pieces of its value, one at
-- least of each.
pub record HeaderPieces : Type 0 where
  pub name : List ℕ
  pub names : List (List ℕ)
  pub value : List ℕ
  pub values : List (List ℕ)

-- The same header as a whole
abbrev pub whole : HeaderPieces → List ℕ × List ℕ
whole h = (joined_pieces (h.name ∷ h.names), joined_pieces (h.value ∷ h.values))

abbrev pub wholes : List HeaderPieces → List (List ℕ × List ℕ)
wholes [] = []
wholes (h ∷ hs) = whole h ∷ wholes hs

-- The calls for a header, up to the first that refuses
abbrev pub read_pieces : Request → HeaderPieces → Bool × Request
read_pieces req h =
    let (ok, after) = for_pieces header_field_cb req (h.name ∷ h.names) in
    if ok then for_pieces header_value_cb after (h.value ∷ h.values) else (false, after)

-- The calls for all headers
unfoldable pub for_headers : Request → List HeaderPieces → Bool × Request
for_headers req [] = (true, req)
for_headers req (h ∷ hs) =
    let (ok, next) = read_pieces req h in
    let rest = for_headers next hs in if ok then rest else (false, next)

-- The calls for all headers, and the flush at their end
abbrev pub read_block : Request → List HeaderPieces → Bool × Request
unfolding for_headers
read_block req hs =
    let (ok, next) = for_headers req hs in if ok then flush_header next else (false, next)

-- The headers as wholes, stored one after the other
abbrev pub store_all : Request → List (List ℕ × List ℕ) → Request
store_all req [] = req
store_all req ((n, v) ∷ headers) = store_all (stored req (codes "HTTP_" ++ key_upper n) v) headers

-- The bounds on a header
abbrev pub Fits : HeaderPieces → Type 0
Fits h =
    (total (h.name ∷ h.names) + 5 ≤ limit_request_field_size)
    × (total (h.value ∷ h.values) ≤ limit_request_field_size)

-- The request between the headers: `k` and `v` wait to be stored.
abbrev pending : Request → List ℕ → List ℕ → Request
pending req k v = valued (named req k) v

pending_field :
    (req : Request) (k v c : List ℕ)
    → req.num_headers < limit_request_fields
    → length c + 5 ≤ limit_request_field_size
    → header_field_cb (pending req k v) c ≡ (true, named (stored req k v) (get_http_header_key c))
unfolding header_field_cb take_field append_field
pending_field req k v c few b =
    rw (flushed req k v few) (ground (arith, check_field_name_lem c, length-get_http_header_key c))

-- The key of the header that waits next, once the one before is stored
pending_pieces :
    (req : Request) (k v : List ℕ) (h : HeaderPieces)
    → req.num_headers < limit_request_fields
    → Fits h
    → read_pieces (pending req k v) h
      ≡ (true, pending (stored req k v) (codes "HTTP_" ++ key_upper (whole h).0) (whole h).1)
unfolding for_pieces get_http_header_key
pending_pieces req k v h few fits = rw (
  pending_field req k v h.name few (omega (arith, fits.0)),
  next_pieces h.names (stored req k v) (get_http_header_key h.name)
      (omega (arith, fits.0, length-get_http_header_key h.name)),
  sym (key_upper-append h.name (joined_pieces h.names)),
  first_value_pieces (named (stored req k v) (key_of (h.name ∷ h.names))) h.value h.values refl
      fits.1,
)

first_read :
    (req : Request) (h : HeaderPieces)
    → req.field_ref ≡ null
    → req.value_ref ≡ null
    → req.last_header_element ≡ field
    → Fits h
    → read_pieces req h ≡ (true, pending req (codes "HTTP_" ++ key_upper (whole h).0) (whole h).1)
first_read req h field_null value_null last fits = rw (
  first_pieces req h.name h.names field_null last fits.0,
  first_value_pieces (named req (key_of (h.name ∷ h.names))) h.value h.values value_null fits.1,
)

-- The end of the block, from a header that waits
flush_last : Bool × Request → Bool × Request
flush_last r = if r.0 then flush_header r.1 else (false, r.1)

pending_headers :
    (hs : List HeaderPieces) (req : Request) (k v : List ℕ)
    → req.num_headers + 1 + length hs ≤ limit_request_fields
    → All Fits hs
    → flush_last (for_headers (pending req k v) hs) ≡ (true, store_all (stored req k v) (wholes hs))
unfolding for_headers flush_last
pending_headers [] req k v few fits = flushed req k v (omega arith)
pending_headers (h ∷ hs) req k v few fits = rw (pending_pieces req k v h (omega arith) fits.0) (
    pending_headers hs (stored req k v) (codes "HTTP_" ++ key_upper (whole h).0) (whole h).1
      (omega arith) fits.1)

-- However the parser cuts the names and values of at most 128 headers into pieces, the callbacks and
-- the flush at their end store what the headers as wholes say, one after the other: each under
-- `HTTP_` and its name in upper case, a repeated one behind the old value and a comma. A name has at
-- most 8187 bytes and a value 8192.
pub read_block-store_all :
    (hs : List HeaderPieces) (req : Request)
    → req.field_ref ≡ null
    → req.value_ref ≡ null
    → req.last_header_element ≡ field
    → req.num_headers + length hs ≤ limit_request_fields
    → All Fits hs
    → read_block req hs ≡ (true, store_all req (wholes hs))
unfolding for_headers flush_header flush_last
read_block-store_all [] req field_null value_null last few fits = simp last
read_block-store_all (h ∷ hs) req field_null value_null last few fits =
    rw (first_read req h field_null value_null last fits.0) (
      pending_headers hs req (codes "HTTP_" ++ key_upper (whole h).0) (whole h).1 (omega arith)
        fits.1)
