-- ===== src/Url.antt =====
-- meinheld/server/http_request_parser.c: `hex2int`, `urldecode`, `set_query` and `set_path`.
-- Both loops write behind the place they read, so each is a function of the bytes. A read past the
-- end of the text is an argument.
pub mod Decode
mod Tests
use meinheld.Base.{
  ℕ, zero, suc, ◌+◌, ◌-◌, ◌*◌, ◌/◌, ◌%◌, ◌^◌, ◌≤◌, ◌<◌, min, max, ◌≡◌, refl, sym, ap, ◌∙◌, ◌≢◌, ◌↔◌,
  ◌⊎◌, inl, inr, Bool, true, false, not, ◌&&◌, ◌||◌, Option, none, some, List, [], ◌∷◌, ◌++◌,
  append-nil, append_assoc, arith, ltb, leb, ◌==◌, if◌then◌else◌, ==_iff, Bool-cases, Option-cases,
  length, get_elem?, get_or, set, take, drop, replicate, All, length-append, length-set,
  length-take, length-drop, take_all, drop_all, take-append, take-append-drop, take-take, drop-drop,
  get_or-set, set-perm, move-perm, set-get_or, set-set, All-append, All-by_index, All-perm,
  length-perm, get_or-append, get_or-take, concat-perm, take-append-last, codes, bytes_eq,
  bytes_eq_iff, take_until, to_upper,
}

-- `hex2int` of a `char`, by its low eight bits: no caller stores more. A char above 127 is negative.
pub hex2int : ℕ → ℕ
hex2int c =
    let i = to_upper c in
    if ltb 57 i && ltb i 128 then (i + 256 - 55) % 256 else (i + 256 - 48) % 256

-- `c = hex2int(c1) * 16 + hex2int(c)`, stored as a `char`
pub hex_pair : ℕ → ℕ → ℕ
hex_pair c1 c = (hex2int c1 * 16 + hex2int c) % 256

-- `urldecode`. The first clause is the case `len > 2`.
pub urldecode : List ℕ → List ℕ
urldecode (c ∷ c1 ∷ c2 ∷ rest) = elim (c == b'%') [
  | true ↦ hex_pair c1 c2 ∷ urldecode rest
  | false ↦ c ∷ urldecode (c1 ∷ c2 ∷ rest)
]
urldecode (c ∷ rest) = c ∷ urldecode rest
urldecode [] = []

-- The loop of `set_query`: `slen`, over the bytes that it may read.
query_slen : List ℕ → ℕ
query_slen [] = 0
query_slen (c ∷ rest) = if c == b'#' then 1 else query_slen rest + 1

-- `set_query`, called with `len` one more than the bytes that are left, so that it may read the
-- byte after them, `past`. `none` where QUERY_STRING is not set; its value is a C string.
pub set_query : ℕ → List ℕ → Option (List ℕ)
unfolding query_slen
set_query past buf =
    let slen = query_slen (buf ++ past ∷ []) in
    if ltb 1 slen then some (take_until 0 (take (slen - 1) buf)) else none

-- A byte that is no escape: `?` ends the path and starts the query, `#` ends it.
scan_plain : ℕ → List ℕ → List ℕ × Option (List ℕ) → List ℕ × Option (List ℕ)
scan_plain c rest scanned =
    if c == b'?'
    then ([], some rest)
    else if c == b'#'
    then ([], none)
    else (c ∷ scanned.0, scanned.1)

scan_escaped : ℕ → List ℕ × Option (List ℕ) → List ℕ × Option (List ℕ)
scan_escaped b scanned = (b ∷ scanned.0, scanned.1)

-- The loop of `set_path`: the bytes written, and what `set_query` is called on.
pub scan_path : List ℕ → List ℕ × Option (List ℕ)
scan_path (c ∷ c1 ∷ c2 ∷ rest) = elim (c == b'%') [
  | true ↦ scan_escaped (hex_pair c1 c2) (scan_path rest)
  | false ↦ scan_plain c (c1 ∷ c2 ∷ rest) (scan_path (c1 ∷ c2 ∷ rest))
]
scan_path (c ∷ rest) = scan_plain c rest (scan_path rest)
scan_path [] = ([], none)

-- What `set_path` stores: PATH_INFO, and QUERY_STRING if it is set.
pub record Target : Type 0 where
  pub path_info : List ℕ
  pub query_string : Option (List ℕ)

-- `set_path`
pub set_path : ℕ → List ℕ → Target
set_path past buf =
    let (written, query) = scan_path buf in
    record {
      path_info = urldecode written;
      query_string = elim query [ none ↦ none | some q ↦ set_query past q ];
    }
