-- ===== src/Request/Headers.antt =====
-- The URL and the headers, in however many pieces the parser hands them over.
use meinheld.Base.{
  ℕ, ◌+◌, ◌^◌, ◌≤◌, ◌<◌, ◌≡◌, refl, sym, ap, ◌∙◌, inl, inr, Bool, true, false, Option, none, some,
  List, [], ◌∷◌, ◌++◌, append-nil, append_assoc, arith, if-Q, leb, if◌then◌else◌, Bool-cases,
  length, length-append, take_all,
}
use meinheld.Buffer.{Buffer, WriteResult, write_ok, memory_error, limit_over, new_buffer}
use meinheld.Buffer.Append.{IsValid, Written, write2buf_lem, new_buffer-IsValid}
use meinheld.Request.{limit_path, Request, check_field_name, path_or, url_result, url_cb}

-- The parser calls a callback once for each piece, and stops at the first -1.
unfoldable pub for_pieces :
    (Request → List ℕ → Bool × Request) → Request → List (List ℕ) → Bool × Request
for_pieces cb req [] = (true, req)
for_pieces cb req (c ∷ cs) =
    let (ok, req') = cb req c in
    let rest = for_pieces cb req' cs in if ok then rest else (false, req')

-- The path buffer holds the bytes `s`.
abbrev pub HoldsUrl : Option Buffer → List ℕ → Type 0
HoldsUrl none s = s ≡ []
HoldsUrl (some b) s = IsValid b × (b.limit ≡ limit_path) × (b.bytes ≡ s)

holds_path_or :
    (path : Option Buffer) (s : List ℕ)
    → HoldsUrl path s
    → HoldsUrl (some (path_or path (new_buffer 1024 limit_path))) s
unfolding new_buffer
holds_path_or none s h =
    (new_buffer-IsValid 1024 limit_path (omega arith) (omega arith) (omega arith), refl, sym h)
holds_path_or (some b) s h = h

-- What one piece leaves of a URL of which `s` was read.
abbrev pub UrlStep : List ℕ → List ℕ → Bool × Request → Type 0
UrlStep s c (ok, req) =
    (ok ≡ leb (length s + length c) limit_path)
    × (ok ≡ true → HoldsUrl req.path (s ++ c))
    × (ok ≡ false → req.bad_request_code ≡ 400)

url_result-UrlStep :
    (req : Request) (b : Buffer) (s c : List ℕ) (r : WriteResult × Buffer)
    → HoldsUrl (some b) s
    → Written b c r.0 r.1
    → UrlStep s c (url_result req r)
unfolding url_result
url_result-UrlStep req b s c (write_ok, b') h w =
    let n : length b.bytes ≡ length s = ap length h.2 in
    let fits : leb (length s + length c) limit_path ≡ true =
      ground (arith, w.status, h.0.counted, h.1) in
    let kept : b'.bytes ≡ b.bytes ++ c =
      w.kept ∙ take_all b.limit (b.bytes ++ c) (ground (arith, length-append b.bytes c, h.1)) in
    (sym fits, (λ _. (w.valid, w.same_limit ∙ h.1, kept ∙ ap (λ t. t ++ c) h.2)), λ e. cc)
url_result-UrlStep req b s c (limit_over, b') h w =
    let n : length b.bytes ≡ length s = ap length h.2 in
    (ground (arith, w.status, h.0.counted, h.1), (λ e. cc), λ e. refl)
url_result-UrlStep req b s c (memory_error, b') h w = absurd (ground (arith, w.status))

url_cb-UrlStep :
    (req : Request) (s c : List ℕ)
    → HoldsUrl req.path s
    → length s + length c + 1 < 2 ^ 31
    → UrlStep s c (url_cb true req c)
unfolding url_cb
url_cb-UrlStep req s c h b =
    let start = path_or req.path (new_buffer 1024 limit_path) in
    let held = holds_path_or req.path s h in
    let n : length start.bytes ≡ length s = ap length held.2 in
    url_result-UrlStep req start s c _ held
      (write2buf_lem start c held.0 (omega (arith, n, held.0.counted)))

-- The length of the pieces together.
abbrev pub total : List (List ℕ) → ℕ
total [] = 0
total (c ∷ cs) = length c + total cs

abbrev pub joined_pieces : List (List ℕ) → List ℕ
joined_pieces [] = []
joined_pieces (c ∷ cs) = c ++ joined_pieces cs

-- What the pieces of a URL leave, after `s`: the whole URL if it has at most 8192 bytes, and the
-- code 400 otherwise.
abbrev pub UrlRead : List ℕ → List (List ℕ) → Bool × Request → Type 0
UrlRead s cs (ok, req) =
    (ok ≡ leb (length s + total cs) limit_path)
    × (ok ≡ true → HoldsUrl req.path (s ++ joined_pieces cs))
    × (ok ≡ false → req.bad_request_code ≡ 400)

url_pieces_from :
    (cs : List (List ℕ)) (req : Request) (s : List ℕ)
    → HoldsUrl req.path s
    → length s ≤ limit_path
    → length s + total cs + 1 < 2 ^ 31
    → UrlRead s cs (for_pieces (url_cb true) req cs)
unfolding for_pieces
url_pieces_from [] req s h l b = (ground arith, (λ _. rw (append-nil s) h), λ e. cc)
url_pieces_from (c ∷ cs) req s h l b =
    let step = url_cb-UrlStep req s c h (omega arith) in
    elim (Bool-cases (url_cb true req c).0) [
      | inl ok ↦ rw ok (
          let n = length-append s c in
          let fits : length s + length c ≤ limit_path = ground (arith, step.0) in
          let r =
            url_pieces_from cs (url_cb true req c).1 (s ++ c) (step.1 ok) (omega (arith, n))
              (omega (arith, n)) in
          (ground (arith, r.0, n), (λ e. rw append_assoc at (r.1 e)), r.2))
      | inr over ↦ rw over (
          let long : limit_path < length s + length c = ground (arith, step.0) in
          (ground arith, (λ e. cc), λ _. step.2 over))
    ]

-- However the parser cuts a URL into pieces, `url_cb` accepts it exactly if it has at most 8192
-- bytes, and then the path buffer holds the whole URL; a longer URL is refused with code 400.
-- The URL is shorter than 2^31 - 1 bytes and there is memory.
pub url_pieces :
    (cs : List (List ℕ)) (req : Request)
    → req.path ≡ none
    → total cs + 1 < 2 ^ 31
    → UrlRead [] cs (for_pieces (url_cb true) req cs)
url_pieces cs req e b = url_pieces_from cs req [] (rw e refl) (omega arith) (omega arith)

-- `check_field_name` accepts every name: a signed `char` is never above 127.
pub check_field_name_lem : (s : List ℕ) → check_field_name s ≡ true
unfolding check_field_name
check_field_name_lem [] = refl
check_field_name_lem (c ∷ s) = ground (arith, check_field_name_lem s)

url_result-kept :
    (req : Request) (r : WriteResult × Buffer)
    → (url_result req r).0 ≡ true
    → (url_result req r).1 ≡ record req { path = (url_result req r).1.path }
unfolding url_result
url_result-kept req (write_ok, b) ok = refl
url_result-kept req (limit_over, b) ok = absurd (cc ok)
url_result-kept req (memory_error, b) ok = absurd (cc ok)

-- A URL that is accepted changes nothing but the path of the request.
abbrev pub Kept : Request → Bool × Request → Type 0
Kept req r = r.0 ≡ true → r.1 ≡ record req { path = r.1.path }

pub url_pieces-Kept :
    (has_memory : Bool) (cs : List (List ℕ)) (req : Request)
    → Kept req (for_pieces (url_cb has_memory) req cs)
unfolding for_pieces url_cb
url_pieces-Kept has_memory [] req = λ ok. refl
url_pieces-Kept has_memory (c ∷ cs) req =
    let next = (url_cb has_memory req c).1 in
    let rest = for_pieces (url_cb has_memory) next cs in
    if-Q (Kept req) (url_cb has_memory req c).0 rest (false, next)
      (λ e ok.
        url_pieces-Kept has_memory cs next ok
        ∙ ap (λ (q : Request). record q { path = rest.1.path }) (url_result-kept req _ e))
      (λ e ok. absurd (cc ok))
