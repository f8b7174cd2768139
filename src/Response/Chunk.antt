-- ===== src/Response/Chunk.antt =====
-- The chunked framing of `set_chunked_data` and `set_last_chunked_data`, against a decoder written
-- from RFC 7230, section 4.1.
use meinheld.Base.{
  ℕ, zero, suc, ◌+◌, ◌-◌, ◌*◌, ◌/◌, ◌%◌, ◌^◌, ◌≤◌, ◌<◌, ◌≡◌, refl, ap, ◌∙◌, inl, inr, Bool, true,
  false, not, ◌&&◌, Option, none, some, List, [], ◌∷◌, ◌++◌, append_assoc, arith, ltb, leb, ◌==◌,
  if◌then◌else◌, Bool-cases, length, take, drop, All, length-append, take_all, take-take, codes,
  bytes_eq, drop-append-long,
}
use meinheld.Response.{hex_digits, get_chunk_data, crlf}

-- The lower-case hexadecimal number at the start of a text, and the rest.
pub hex_run : ℕ → List ℕ → ℕ × List ℕ
hex_run n [] = (n, [])
hex_run n (c ∷ s) =
    let digit = hex_run (n * 16 + (c - 48)) s in
    let letter = hex_run (n * 16 + (c - 87)) s in
    if leb 48 c && leb c 57 then digit else if leb 97 c && leb c 102 then letter else (n, c ∷ s)

pub starts_crlf : List ℕ → Bool
starts_crlf s = bytes_eq (take 2 s) crlf

pub after_chunk : List ℕ → Option (List ℕ) → Option (List ℕ)
after_chunk data_ none = none
after_chunk data_ (some more) = some (data_ ++ more)

-- What a receiver reads of a chunked body, of at most so many chunks; `none` is a malformed body.
pub decode : ℕ → List ℕ → Option (List ℕ)
decode zero s = none
decode (suc fuel) s =
    let (n, r) = hex_run 0 s in
    let body = drop 2 r in
    let more = decode fuel (drop 2 (drop n body)) in
    if not (starts_crlf r)
    then none
    else if n == 0
    then (if starts_crlf body then some [] else none)
    else if starts_crlf (drop n body)
    then after_chunk (take n body) more
    else none

-- What a chunk and the last chunk are on the wire.
unfoldable pub frame : List ℕ → List ℕ
frame buf = get_chunk_data (length buf) ++ (crlf ++ (buf ++ crlf))

abbrev pub last_frame : List ℕ
last_frame = codes "0" ++ crlf ++ crlf

unfoldable pub frames : List (List ℕ) → List ℕ
frames [] = last_frame
frames (buf ∷ items) = frame buf ++ frames items

unfoldable pub join : List (List ℕ) → List ℕ
join [] = []
join (buf ∷ items) = buf ++ join items

abbrev pub pow16 : ℕ → ℕ
pow16 zero = 1
pow16 (suc k) = 16 * pow16 k

length-hex_digits : (fuel n : ℕ) → length (hex_digits fuel n) ≤ fuel
unfolding hex_digits
length-hex_digits zero n = omega arith
length-hex_digits (suc zero) n = elim (Bool-cases (ltb n 16)) [
  | inl e ↦ rw e (omega arith)
  | inr e ↦ rw e (omega arith)
]
length-hex_digits (suc (suc fuel)) n = elim (Bool-cases (ltb n 16)) [
  | inl e ↦ rw e (omega arith)
  | inr e ↦ rw e (
      omega (
        arith,
        length-append (hex_digits (suc fuel) (n / 16)) (_ ∷ []),
        length-hex_digits (suc fuel) (n / 16),
      ))
]

pub length-get_chunk_data : (n : ℕ) → length (get_chunk_data n) ≤ 16
unfolding get_chunk_data
length-get_chunk_data n = length-hex_digits 16 n

hex_run_digit :
    (n d : ℕ) (t : List ℕ)
    → d < 16
    → hex_run n ((if ltb d 10 then d + 48 else d + 87) ∷ t) ≡ hex_run (n * 16 + d) t
unfolding hex_run
hex_run_digit n d t h = elim (Bool-cases (ltb d 10)) [
  | inl e ↦
      let i : (d + 48) - 48 ≡ d = omega arith in
      let p : (leb 48 (d + 48) && leb (d + 48) 57) ≡ true = ground arith in rw (e, p, i) refl
  | inr e ↦
      let i : (d + 87) - 87 ≡ d = omega arith in
      let p : (leb 48 (d + 87) && leb (d + 87) 57) ≡ false = ground arith in
      let q : (leb 97 (d + 87) && leb (d + 87) 102) ≡ true = ground arith in rw (e, p, q, i) refl
]

hex_run-hex_digits :
    (fuel n : ℕ) (t : List ℕ) → n < pow16 fuel → hex_run 0 (hex_digits fuel n ++ t) ≡ hex_run n t
unfolding hex_digits
hex_run-hex_digits zero n t h = let e : n ≡ 0 = omega arith in rw e refl
hex_run-hex_digits (suc fuel) n t h =
    let d = if ltb (n % 16) 10 then n % 16 + 48 else n % 16 + 87 in
    elim (Bool-cases (ltb n 16)) [
      | inl e ↦
          let m : n % 16 ≡ n = ground arith in
          rw e (hex_run_digit 0 (n % 16) t (omega arith) ∙ ap (λ k. hex_run k t) (omega (arith, m)))
      | inr e ↦
          let a = append_assoc (hex_digits fuel (n / 16)) (d ∷ []) t in
          rw e (
            ap (hex_run 0) a
            ∙ hex_run-hex_digits fuel (n / 16) (d ∷ t) (omega arith)
            ∙ hex_run_digit (n / 16) (n % 16) t (omega arith)
            ∙ ap (λ k. hex_run k t) (omega arith))
    ]

hex_run-get_chunk_data :
    (n : ℕ) (t : List ℕ) → n < 2 ^ 64 → hex_run 0 (get_chunk_data n ++ 13 ∷ t) ≡ (n, 13 ∷ t)
unfolding get_chunk_data hex_run
hex_run-get_chunk_data n t h = hex_run-hex_digits 16 n (13 ∷ t) (omega arith)

-- The sizes of the items that a chunk can carry: an empty one would be the last chunk.
abbrev pub Sized : List ℕ → Type 0
Sized buf = (0 < length buf) × (length buf < 2 ^ 64)

decode-frame :
    (fuel : ℕ) (buf t : List ℕ)
    → Sized buf
    → decode (suc fuel) (frame buf ++ t) ≡ after_chunk buf (decode fuel t)
unfolding decode frame starts_crlf bytes_eq
decode-frame fuel buf t (lo, hi) =
    let n = length buf in
    let tail = buf ++ 13 ∷ 10 ∷ t in
    let shape : frame buf ++ t ≡ get_chunk_data n ++ 13 ∷ 10 ∷ tail =
      append_assoc (get_chunk_data n) (crlf ++ (buf ++ crlf)) t
      ∙ ap (λ s. get_chunk_data n ++ 13 ∷ 10 ∷ s) (append_assoc buf crlf t) in
    let size : hex_run 0 (frame buf ++ t) ≡ (n, 13 ∷ 10 ∷ tail) =
      ap (hex_run 0) shape ∙ hex_run-get_chunk_data n (10 ∷ tail) hi in
    let zero_size : (n == 0) ≡ false = ground arith in
    let none_left : n - length buf ≡ 0 = omega arith in
    let cut : drop n tail ≡ 13 ∷ 10 ∷ t =
      drop-append-long n buf (13 ∷ 10 ∷ t) (omega arith)
      ∙ ap (λ k. drop k (13 ∷ 10 ∷ t)) none_left in
    let kept : take n tail ≡ buf =
      take-take n buf (13 ∷ 10 ∷ t) (omega arith) ∙ take_all n buf (omega arith) in
    rw (size, zero_size, cut, kept) refl

-- A receiver reads from the chunks of non-empty items of less than 2^64 bytes, followed by the last
-- chunk, the bytes of the items in order.
pub decode-frames :
    (items : List (List ℕ))
    → All Sized items
    → decode (suc (length items)) (frames items) ≡ some (join items)
unfolding frames join decode starts_crlf bytes_eq hex_run after_chunk
decode-frames [] h = refl
decode-frames (buf ∷ items) h =
    decode-frame (suc (length items)) buf (frames items) (h.0)
    ∙ ap (after_chunk buf) (decode-frames items (h.1))

-- An item of no bytes, after non-empty items of less than 2^64 bytes, is sent as the last chunk: a
-- receiver stops there and reads nothing of the items that follow.
pub decode-frames_empty :
    (before after : List (List ℕ))
    → All Sized before
    → decode (suc (length before)) (frames (before ++ [] ∷ after)) ≡ some (join before)
unfolding frames join decode starts_crlf bytes_eq hex_run after_chunk frame get_chunk_data
    hex_digits
decode-frames_empty [] after h = refl
decode-frames_empty (buf ∷ before) after h =
    decode-frame (suc (length before)) buf (frames (before ++ [] ∷ after)) (h.0)
    ∙ ap (after_chunk buf) (decode-frames_empty before after (h.1))
