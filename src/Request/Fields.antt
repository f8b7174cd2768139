-- ===== src/Request/Fields.antt =====
-- The headers, in however many pieces the parser hands over their names and values.
use meinheld.Base.{
  ℕ, suc, ◌+◌, ◌≤◌, ◌<◌, ◌≡◌, refl, ap, Bool, true, false, List, [], ◌∷◌, ◌++◌, append-nil,
  append_assoc, arith, length, length-append, codes, take_until,
}
use meinheld.Environ.{get_item, set_item}
use meinheld.Request.{
  limit_request_fields, limit_request_field_size, field, value, null, live, second_release, Request,
  free_request, key_upper, get_http_header_key, joined, add_pair, append_field, append_value,
  add_header, flush_header, take_field, header_field_cb, header_value_cb,
}
use meinheld.Request.Headers.{for_pieces, total, joined_pieces, check_field_name_lem}

pub key_upper-append : (s t : List ℕ) → key_upper (s ++ t) ≡ key_upper s ++ key_upper t
unfolding key_upper
key_upper-append [] t = refl
key_upper-append (c ∷ s) t = rw (key_upper-append s t)

length-key_upper : (s : List ℕ) → length (key_upper s) ≡ length s
unfolding key_upper
length-key_upper [] = refl
length-key_upper (c ∷ s) = ap suc (length-key_upper s)

-- The request with its name and its value so far.
abbrev pub named : Request → List ℕ → Request
named req k = record req { field_ref = live k; last_header_element = field }

abbrev pub valued : Request → List ℕ → Request
valued req v = record req { value_ref = live v; last_header_element = value }

next_piece :
    (req : Request) (k c : List ℕ)
    → length k + length c ≤ limit_request_field_size
    → header_field_cb (named req k) c ≡ (true, named req (k ++ key_upper c))
unfolding header_field_cb flush_header take_field
next_piece req k c b =
    rw (check_field_name_lem c) (ground (arith, length-append k (key_upper c), length-key_upper c))

pub next_pieces :
    (cs : List (List ℕ)) (req : Request) (k : List ℕ)
    → length k + total cs ≤ limit_request_field_size
    → for_pieces header_field_cb (named req k) cs
      ≡ (true, named req (k ++ key_upper (joined_pieces cs)))
unfolding for_pieces key_upper
next_pieces [] req k b = rw (append-nil k)
next_pieces (c ∷ cs) req k b = rw (
  next_piece req k c (omega arith),
  next_pieces cs req (k ++ key_upper c)
      (omega (arith, length-append k (key_upper c), length-key_upper c)),
  key_upper-append,
  append_assoc,
)

-- The name of the first piece on: all pieces, upper case, behind `HTTP_`.
abbrev pub key_of : List (List ℕ) → List ℕ
key_of cs = codes "HTTP_" ++ key_upper (joined_pieces cs)

pub length-get_http_header_key : (c : List ℕ) → length (get_http_header_key c) ≡ 5 + length c
unfolding get_http_header_key
length-get_http_header_key c = omega (arith, length-key_upper c)

first_piece :
    (req : Request) (c : List ℕ)
    → req.field_ref ≡ null
    → req.last_header_element ≡ field
    → length c + 5 ≤ limit_request_field_size
    → header_field_cb req c ≡ (true, named req (get_http_header_key c))
unfolding header_field_cb flush_header take_field append_field
first_piece req c null_ref last b =
    ground (arith, check_field_name_lem c, length-get_http_header_key c)

pub first_pieces :
    (req : Request) (c : List ℕ) (cs : List (List ℕ))
    → req.field_ref ≡ null
    → req.last_header_element ≡ field
    → total (c ∷ cs) + 5 ≤ limit_request_field_size
    → for_pieces header_field_cb req (c ∷ cs) ≡ (true, named req (key_of (c ∷ cs)))
unfolding for_pieces get_http_header_key
first_pieces req c cs null_ref last b = rw (
  first_piece req c null_ref last (omega arith),
  next_pieces cs req (get_http_header_key c) (omega (arith, length-get_http_header_key c)),
  key_upper-append,
)

value_piece :
    (req : Request) (v c : List ℕ)
    → length v + length c ≤ limit_request_field_size
    → header_value_cb (valued req v) c ≡ (true, valued req (v ++ c))
unfolding header_value_cb append_value
value_piece req v c b = ground (arith, length-append v c)

value_pieces :
    (cs : List (List ℕ)) (req : Request) (v : List ℕ)
    → length v + total cs ≤ limit_request_field_size
    → for_pieces header_value_cb (valued req v) cs ≡ (true, valued req (v ++ joined_pieces cs))
unfolding for_pieces
value_pieces [] req v b = rw (append-nil v)
value_pieces (c ∷ cs) req v b = rw (
  value_piece req v c (omega arith),
  value_pieces cs req (v ++ c) (omega (arith, length-append v c)),
  append_assoc,
)

pub first_value_pieces :
    (req : Request) (c : List ℕ) (cs : List (List ℕ))
    → req.value_ref ≡ null
    → total (c ∷ cs) ≤ limit_request_field_size
    → for_pieces header_value_cb req (c ∷ cs) ≡ (true, valued req (joined_pieces (c ∷ cs)))
unfolding for_pieces header_value_cb append_value
first_value_pieces req c cs e b = rw (first, value_pieces cs req c b)
  where
    first : header_value_cb req c ≡ (true, valued req c)
    first = ground arith

-- A whole header, handed over in pieces, and the flush that the next one begins with.
pub read_header : Request → List (List ℕ) → List (List ℕ) → Bool × Request
read_header req names values =
    flush_header (for_pieces header_value_cb (for_pieces header_field_cb req names).1 values).1

-- The request after a header is stored.
abbrev pub stored : Request → List ℕ → List ℕ → Request
stored req k v = record req {
  environ = set_item k (joined (get_item k req.environ) (take_until 0 v)) req.environ;
  num_headers = req.num_headers + 1;
  field_ref = null;
  value_ref = null;
  last_header_element = value;
}

pub flushed :
    (req : Request) (k v : List ℕ)
    → req.num_headers < limit_request_fields
    → flush_header (valued (named req k) v) ≡ (true, stored req k v)
unfolding flush_header add_header add_pair
flushed req k v few = ground arith

-- However its name and value are cut into pieces, a header whose key and value have at most 8192
-- bytes, after fewer than 128 others, is stored under `HTTP_` and its name in upper case: as it is
-- where the key is new, behind the old value and a comma where it is not. Its value ends at a NUL.
pub read_header-stored :
    (req : Request) (n : List ℕ) (ns : List (List ℕ)) (v : List ℕ) (vs : List (List ℕ))
    → req.field_ref ≡ null
    → req.value_ref ≡ null
    → req.last_header_element ≡ field
    → req.num_headers < limit_request_fields
    → total (n ∷ ns) + 5 ≤ limit_request_field_size
    → total (v ∷ vs) ≤ limit_request_field_size
    → read_header req (n ∷ ns) (v ∷ vs)
      ≡ (true, stored req (key_of (n ∷ ns)) (joined_pieces (v ∷ vs)))
unfolding read_header
read_header-stored req n ns v vs field_null value_null last few a b =
    rw
      (
        first_pieces req n ns field_null last a,
        first_value_pieces (named req (key_of (n ∷ ns))) v vs value_null b,
      )
      (flushed req (key_of (n ∷ ns)) (joined_pieces (v ∷ vs)) few)

-- When the parser starts a header after the value of another and the request has 128 headers or
-- more, it is refused with code 400, and nothing else changes.
pub flush_header-too_many :
    (req : Request)
    → req.last_header_element ≡ value
    → limit_request_fields ≤ req.num_headers
    → flush_header req ≡ (false, record req { bad_request_code = 400 })
unfolding flush_header
flush_header-too_many req last many = ground arith

-- A name that grows to more than 8192 bytes is refused with code 400, but the object that was released by the
-- concatenation stays in the request, and `free_request` releases it again.
pub long_field-released_twice :
    (req : Request) (k c : List ℕ)
    → limit_request_field_size < length k + length c
    → ((header_field_cb (named req k) c).0 ≡ false)
      × ((header_field_cb (named req k) c).1.bad_request_code ≡ 400)
      × ((free_request (header_field_cb (named req k) c).1).1 ≡ second_release)
unfolding header_field_cb flush_header take_field append_field free_request
long_field-released_twice req k c b =
    rw (check_field_name_lem c) (ground (arith, length-append k (key_upper c), length-key_upper c))
