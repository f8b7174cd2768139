-- ===== src/Url/Decode.antt =====
-- What the two decoders make of an escaped text.
use meinheld.Base.{
  ℕ, ◌+◌, ◌-◌, ◌/◌, ◌%◌, ◌<◌, ◌≡◌, refl, ◌≢◌, Bool, true, false, Option, none, some, List, [], ◌∷◌,
  ◌++◌, append-nil, arith, ltb, if◌then◌else◌, length, take, All, take_until,
}
use meinheld.Url.{
  hex2int, hex_pair, urldecode, query_slen, scan_escaped, set_query, scan_plain, scan_path,
  set_path,
}

-- The hexadecimal digit of a number below 16, in upper or in lower case.
pub digit : Bool → ℕ → ℕ
digit lower d = if ltb d 10 then d + 48 else if lower then d + 87 else d + 55

-- Percent-encoding of every byte.
pub escape : Bool → List ℕ → List ℕ
escape lower [] = []
escape lower (b ∷ s) = b'%' ∷ digit lower (b / 16) ∷ digit lower (b % 16) ∷ escape lower s

abbrev pub AreBytes : List ℕ → Type 0
AreBytes s = All (λ b. b < 256) s

hex2int-digit : (lower : Bool) (d : ℕ) → d < 16 → hex2int (digit lower d) ≡ d
unfolding hex2int digit
hex2int-digit true d h = ground arith
hex2int-digit false d h = ground arith

hex_pair-digits :
    (lower : Bool) (b : ℕ) → b < 256 → hex_pair (digit lower (b / 16)) (digit lower (b % 16)) ≡ b
unfolding hex_pair
hex_pair-digits lower b h =
    omega (
      arith,
      hex2int-digit lower (b / 16) (omega arith),
      hex2int-digit lower (b % 16) (omega arith),
    )

-- On bytes, `urldecode` is inverse to percent-encoding, whatever the case of its digits.
pub urldecode-escape : (lower : Bool) (s : List ℕ) → AreBytes s → urldecode (escape lower s) ≡ s
unfolding urldecode escape
urldecode-escape lower [] h = refl
urldecode-escape lower (b ∷ s) h = rw (hex_pair-digits lower b h.0, urldecode-escape lower s h.1)

-- A piece of a path as it stands in the request line.
pub data Piece : Type 0 where
  plain : ℕ → Piece
  escaped : Bool → ℕ → Piece

abbrev pub IsPiece : Piece → Type 0
IsPiece (plain c) = (c ≢ b'%') × (c ≢ b'?') × (c ≢ b'#')
IsPiece (escaped lower b) = b < 256

-- The request line's bytes for a path, and the path's own bytes.
pub render : List Piece → List ℕ
render [] = []
render (plain c ∷ ps) = c ∷ render ps
render (escaped lower b ∷ ps) = b'%' ∷ digit lower (b / 16) ∷ digit lower (b % 16) ∷ render ps

unfoldable pub decoded : List Piece → List ℕ
decoded [] = []
decoded (plain c ∷ ps) = c ∷ decoded ps
decoded (escaped lower b ∷ ps) = b ∷ decoded ps

scan_plain_lem : (c : ℕ) (r : List ℕ) → c ≢ b'%' → scan_path (c ∷ r) ≡ scan_plain c r (scan_path r)
unfolding scan_path
scan_plain_lem c [] h = refl
scan_plain_lem c (c1 ∷ []) h = refl
scan_plain_lem c (c1 ∷ c2 ∷ r) h = ground arith

-- The path part leaves its once-decoded bytes before those of what follows.
scan_path-render :
    (ps : List Piece) (tail : List ℕ)
    → All IsPiece ps
    → scan_path (render ps ++ tail) ≡ (decoded ps ++ (scan_path tail).0, (scan_path tail).1)
unfolding scan_path render decoded scan_plain scan_escaped
scan_path-render [] tail h = refl
scan_path-render (plain c ∷ ps) tail h =
    rw (scan_plain_lem c (render ps ++ tail) h.0.0) (ground (arith, scan_path-render ps tail h.1))
scan_path-render (escaped lower b ∷ ps) tail h =
    rw (hex_pair-digits lower b h.0, scan_path-render ps tail h.1)

query_slen-lem :
    (past : ℕ) (q : List ℕ) → query_slen (q ++ past ∷ []) ≡ length (take_until b'#' q) + 1
unfolding query_slen take_until
query_slen-lem past [] = ground arith
query_slen-lem past (c ∷ q) = ground (arith, query_slen-lem past q)

take-take_until : (stop : ℕ) (q : List ℕ) → take (length (take_until stop q)) q ≡ take_until stop q
unfolding take_until
take-take_until stop [] = refl
take-take_until stop (c ∷ q) = ground (arith, take-take_until stop q)

-- The query string of the bytes after a `?`.
pub query_of : List ℕ → Option (List ℕ)
query_of q =
    if ltb 0 (length (take_until b'#' q)) then some (take_until 0 (take_until b'#' q)) else none

-- `set_query` sets the bytes up to a `#`, or all of them, cut at a NUL, and nothing if there are
-- none; the byte after the text does not matter.
pub set_query_lem : (past : ℕ) (q : List ℕ) → set_query past q ≡ query_of q
unfolding set_query query_of
set_query_lem past q =
    let n = length (take_until b'#' q) in
    let e : query_slen (q ++ past ∷ []) - 1 ≡ n = omega (arith, query_slen-lem past q) in
    rw (e, take-take_until b'#' q) (ground (arith, query_slen-lem past q))

-- What may follow a path.
pub data Rest : Type 0 where
  nothing : Rest
  fragment : List ℕ → Rest
  query : List ℕ → Rest

pub render_rest : Rest → List ℕ
render_rest nothing = []
render_rest (fragment f) = b'#' ∷ f
render_rest (query q) = b'?' ∷ q

pub rest_query : Rest → Option (List ℕ)
rest_query (query q) = query_of q
rest_query _ = none

raw_query : Rest → Option (List ℕ)
raw_query (query q) = some q
raw_query _ = none

scan_path-rest : (r : Rest) → scan_path (render_rest r) ≡ ([], raw_query r)
unfolding scan_path scan_plain render_rest raw_query
scan_path-rest nothing = refl
scan_path-rest (fragment f) = scan_plain_lem b'#' f (omega arith)
scan_path-rest (query q) = scan_plain_lem b'?' q (omega arith)

-- For a request target made of pieces, a query and a fragment, PATH_INFO is the decoded path decoded
-- once more, and QUERY_STRING is the text between the first `?` and the next `#`, cut at a NUL, if
-- that text is not empty; the byte after the target does not matter.
pub set_path_lem :
    (past : ℕ) (ps : List Piece) (r : Rest)
    → All IsPiece ps
    → set_path past (render ps ++ render_rest r)
      ≡ record { path_info = urldecode (decoded ps); query_string = rest_query r }
unfolding set_path raw_query rest_query
set_path_lem past ps nothing h =
    rw (scan_path-render ps (render_rest nothing) h, scan_path-rest nothing, append-nil)
set_path_lem past ps (fragment f) h =
    rw (scan_path-render ps (render_rest (fragment f)) h, scan_path-rest (fragment f), append-nil)
set_path_lem past ps (query q) h = rw (
  scan_path-render ps (render_rest (query q)) h,
  scan_path-rest (query q),
  append-nil,
  set_query_lem,
)

urldecode-plain : (s : List ℕ) → All (λ c. c ≢ b'%') s → urldecode s ≡ s
unfolding urldecode
urldecode-plain [] h = refl
urldecode-plain (c ∷ []) h = refl
urldecode-plain (c ∷ c1 ∷ []) h = refl
urldecode-plain (c ∷ c1 ∷ c2 ∷ s) h = ground (arith, urldecode-plain (c1 ∷ c2 ∷ s) h.1)

-- A path whose bytes hold no percent sign arrives as it was meant, however it was escaped.
pub set_path-no_percent :
    (past : ℕ) (ps : List Piece) (r : Rest)
    → All IsPiece ps
    → All (λ c. c ≢ b'%') (decoded ps)
    → (set_path past (render ps ++ render_rest r)).path_info ≡ decoded ps
set_path-no_percent past ps r h k = rw (set_path_lem past ps r h) (urldecode-plain (decoded ps) k)

escape_pieces : Bool → List ℕ → List Piece
escape_pieces lower [] = []
escape_pieces lower (b ∷ s) = escaped lower b ∷ escape_pieces lower s

escape_pieces_lem :
    (lower : Bool) (s : List ℕ)
    → AreBytes s
    → (render (escape_pieces lower s) ≡ escape lower s)
      × (decoded (escape_pieces lower s) ≡ s)
      × All IsPiece (escape_pieces lower s)
unfolding render decoded escape escape_pieces
escape_pieces_lem lower [] h = (refl, refl, tt)
escape_pieces_lem lower (b ∷ s) h =
    let (a, d, p) = escape_pieces_lem lower s h.1 in (rw a, rw d, (h.0, p))

escape-AreBytes : (lower : Bool) (s : List ℕ) → AreBytes s → AreBytes (escape lower s)
unfolding escape digit
escape-AreBytes lower [] h = tt
escape-AreBytes lower (b ∷ s) h =
    (omega arith, (ground (arith, h.0), (ground (arith, h.0), escape-AreBytes lower s h.1)))

-- A path of bytes that spells an escape is decoded twice: the target whose decoded path is the escaped form
-- of `s` arrives as `s`.
pub set_path-decodes_twice :
    (past : ℕ) (lower : Bool) (s : List ℕ) (r : Rest)
    → AreBytes s
    → (set_path past (escape lower (escape lower s) ++ render_rest r)).path_info ≡ s
set_path-decodes_twice past lower s r h =
    let (a, d, p) = escape_pieces_lem lower (escape lower s) (escape-AreBytes lower s h) in
    rw (← a, set_path_lem past _ r p, d) (urldecode-escape lower s h)
