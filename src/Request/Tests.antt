-- ===== src/Request/Tests.antt =====
-- Runs of the callbacks of a request, and the theorems about them at concrete requests.
use meinheld.Base.{
  ℕ, zero, suc, ◌≡◌, refl, ap, inl, true, false, List, [], ◌∷◌, arith, length, replicate, codes,
}
use meinheld.Request.{
  second_release, Request, new_request, value, free_request, header_field_cb, url_cb,
}
use meinheld.Request.Headers.{for_pieces, UrlRead, url_pieces}
use meinheld.Request.Fields.{named, long_field-released_twice}
use meinheld.Request.Body.{Limits, body_cb}
use meinheld.Request.Body.Upload.{BodyRead, body_pieces}

abbrev url : List (List ℕ)
url = codes "/in" ∷ codes "dex" ∷ []

url_pieces_example : UrlRead [] url (for_pieces (url_cb true) new_request url)
unfolding new_request
url_pieces_example = url_pieces url new_request refl (omega arith)

abbrev full : Request
full = record new_request { num_headers = 128; last_header_element = value }

-- A piece of 8193 bytes
long_piece : List ℕ
long_piece = replicate 8193 97

length-replicate : (n a : ℕ) → length (replicate n a) ≡ n
length-replicate zero a = refl
length-replicate (suc n) a = ap suc (length-replicate n a)

length-long_piece : length long_piece ≡ 8193
unfolding long_piece
length-long_piece = length-replicate 8193 97

long_field-released_twice_example :
    ((header_field_cb (named new_request (codes "HTTP_X")) long_piece).0 ≡ false)
    × ((header_field_cb (named new_request (codes "HTTP_X")) long_piece).1.bad_request_code ≡ 400)
    × ((free_request (header_field_cb (named new_request (codes "HTTP_X")) long_piece).1).1
        ≡ second_release)
long_field-released_twice_example =
    long_field-released_twice new_request (codes "HTTP_X") long_piece
      (omega (arith, length-long_piece))

abbrev limits : Limits
limits = record { max_content_length = 10; client_body_buffer_size = 4 }

abbrev posted : Request
posted = record new_request { body_length = 5 }

abbrev pieces : List (List ℕ)
pieces = codes "ab" ∷ codes "cde" ∷ []

body_pieces_example :
    BodyRead limits [] pieces (for_pieces (body_cb limits true false) posted pieces)
unfolding new_request
body_pieces_example =
    body_pieces limits (omega arith) false posted (codes "ab") (codes "cde" ∷ []) refl refl
      (inl (omega arith)) (omega arith)
