-- ===== src/Input/Lines.antt =====
-- Reading a body line by line, and in pieces, gives its bytes once and in order.
use meinheld.Base.{
  ℕ, zero, suc, ◌+◌, ◌-◌, ◌≤◌, ◌<◌, ◌≡◌, ◌≢◌, refl, sym, ap, ◌∙◌, inl, inr, Option, none, some,
  List, [], ◌∷◌, ◌++◌, arith, ◌==◌, Bool-cases, length, take, drop, if◌then◌else◌, ==_iff,
  length-take, length-drop, take_all, drop_all, take-append-drop, drop-drop,
}
use meinheld.Base.Int.{ℤ, pos, negsuc}
use meinheld.Input.{
  InputObject, read, read_from, read_length, line_length, inner_readline, lines_loop, lines_from,
  readlines,
}

unfoldable pub join : List (List ℕ) → List ℕ
join [] = []
join (buf ∷ items) = buf ++ join items

line_length_bound : (s : List ℕ) → line_length s ≤ length s
unfolding line_length
line_length_bound [] = omega arith
line_length_bound (c ∷ r) = ground (arith, line_length_bound r)

line_length_zero : (s : List ℕ) → line_length s ≡ 0 → length s ≡ 0
unfolding line_length
line_length_zero [] h = refl
line_length_zero (c ∷ r) h = absurd (ground arith)

-- The lines of a text, by its bytes: a line ends with each newline, which is the byte 10, and with the
-- text.
abbrev pub onto_first : ℕ → List (List ℕ) → List (List ℕ)
onto_first c [] = (c ∷ []) ∷ []
onto_first c (l ∷ ls) = (c ∷ l) ∷ ls

pub split_lines : List ℕ → List (List ℕ)
split_lines [] = []
split_lines (c ∷ r) = if c == 10 then (10 ∷ []) ∷ split_lines r else onto_first c (split_lines r)

-- The first line is what `inner_readline` reads, and the others are those of the rest.
split_first :
    (c : ℕ) (r : List ℕ)
    → split_lines (c ∷ r)
      ≡ take (line_length (c ∷ r)) (c ∷ r) ∷ split_lines (drop (line_length (c ∷ r)) (c ∷ r))
unfolding split_lines line_length
split_first c [] = elim (Bool-cases (c == 10)) [
  | inl e ↦ rw e (rw ((==_iff c 10).0 e) refl)
  | inr e ↦ rw e refl
]
split_first c (d ∷ r) = elim (Bool-cases (c == 10)) [
  | inl e ↦ rw e (rw ((==_iff c 10).0 e) refl)
  | inr e ↦ rw e (ap (onto_first c) (split_first d r))
]

split_rest :
    (s : List ℕ)
    → length s ≢ 0
    → split_lines s ≡ take (line_length s) s ∷ split_lines (drop (line_length s) s)
split_rest [] e = absurd (e refl)
split_rest (c ∷ r) e = split_first c r

-- Lines that are these bytes, read up to this position.
pub record Split (bytes : List ℕ) (position : ℕ) (r : List (List ℕ) × ℕ) : Type 0 where
  pub joined : join (r.0) ≡ drop position bytes
  pub lines : r.0 ≡ split_lines (drop position bytes)
  pub end : length bytes ≤ r.1

lines_loop-Split :
    (fuel total : ℕ) (bytes : List ℕ) (position : ℕ)
    → length bytes - position < fuel
    → Split bytes position (lines_loop fuel 0 total bytes position)
unfolding lines_loop inner_readline join split_lines
lines_loop-Split zero total bytes position h = absurd (omega arith)
lines_loop-Split (suc fuel) total bytes position h =
    let rest = drop position bytes in
    let l = line_length rest in
    let n = length-take l rest in
    let m = length-drop position bytes in
    let b = line_length_bound rest in
    elim (Bool-cases (length (take l rest) == 0)) [
      | inl e ↦
          let none_left : length rest ≡ 0 = line_length_zero rest (ground (arith, n, b)) in
          rw e (record {
            joined = sym (drop_all position bytes (omega (arith, m, none_left)));
            lines = sym (ap split_lines (drop_all position bytes (omega (arith, m, none_left))));
            end = omega (arith, m, none_left);
          })
      | inr e ↦
          let some_left : length rest ≢ 0 = λ z. absurd (ground (arith, n, b, z)) in
          let r =
            lines_loop-Split fuel (total + length (take l rest)) bytes (position + l)
              (ground (arith, n, m, b)) in
          rw e (record {
            joined =
                ap (λ t. take l rest ++ t) (r.joined ∙ sym (drop-drop l position bytes))
                ∙ take-append-drop l rest;
            lines =
                ap (λ t. take l rest ∷ t)
                  (r.lines ∙ ap split_lines (sym (drop-drop l position bytes)))
                ∙ sym (split_rest rest some_left);
            end = r.end;
          })
    ]

abbrev pub ReadLines : List ℕ → ℕ → Option (List (List ℕ)) × InputObject → Type 0
ReadLines bytes position (none, io) = ⊥
ReadLines bytes position (some lines, io) = Split bytes position (lines, io.position)

-- On an open input, `readlines` with no hint gives the lines of the bytes from the position on: each
-- ends with its newline, the byte 10, and has no other, but the last, which may end with the bytes.
-- Joined they are these bytes, and all is read.
pub readlines-Split :
    (bytes : List ℕ) (position : ℕ)
    → ReadLines bytes position
        (readlines (pos 0) (record { buffer = some bytes; position = position }))
unfolding readlines lines_from
readlines-Split bytes position =
    let s = lines_loop-Split (suc (length bytes - position)) 0 bytes position (omega arith) in
    record { joined = s.joined; lines = s.lines; end = s.end }

abbrev pub got : Option (List ℕ) × InputObject → List ℕ
got (none, io) = []
got (some bytes, io) = bytes

all_lem : (l : ℕ) → read_length (negsuc 0) l ≡ l
unfolding read_length
all_lem l = refl

-- On an open input, a `read` of any size followed by a `read` of all gives the bytes from the
-- position on, once and in order.
pub read-read :
    (size : ℤ) (bytes : List ℕ) (position : ℕ)
    → got (read size (record { buffer = some bytes; position = position }))
        ++ got (read (negsuc 0) (read size (record { buffer = some bytes; position = position })).1)
      ≡ drop position bytes
unfolding read read_from
read-read size bytes position =
    let rest = drop position bytes in
    let n = read_length size (length bytes - position) in
    let all = read_length (negsuc 0) (length bytes - (position + n)) in
    let whole : all ≡ length bytes - (position + n) = all_lem (length bytes - (position + n)) in
    let fits : length (drop (position + n) bytes) ≤ all =
      omega (arith, whole, length-drop (position + n) bytes) in
    ap (λ t. take n rest ++ t)
      (take_all all (drop (position + n) bytes) fits ∙ sym (drop-drop n position bytes))
    ∙ take-append-drop n rest
