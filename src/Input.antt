-- ===== src/Input.antt =====
-- meinheld/server/input.c: `wsgi.input`, the body of a request as a file to read.
pub mod Lines
mod Tests
use meinheld.Base.{
  ℕ, zero, suc, ◌+◌, ◌-◌, ◌*◌, ◌/◌, ◌%◌, ◌^◌, ◌≤◌, ◌<◌, min, max, ◌≡◌, refl, sym, ap, ◌∙◌, ◌≢◌, ◌↔◌,
  ◌⊎◌, inl, inr, Bool, true, false, not, ◌&&◌, ◌||◌, Option, none, some, List, [], ◌∷◌, ◌++◌,
  append-nil, append_assoc, arith, ltb, leb, ◌==◌, if◌then◌else◌, ==_iff, Bool-cases, Option-cases,
  length, get_elem?, get_or, set, take, drop, replicate, All, length-append, length-set,
  length-take, length-drop, take_all, drop_all, take-append, take-append-drop, take-take, drop-drop,
  get_or-set, set-perm, move-perm, set-get_or, set-set, All-append, All-by_index, All-perm,
  length-perm, get_or-append, get_or-take, concat-perm, take-append-last, codes, bytes_eq,
  bytes_eq_iff, take_until, to_upper, drop-append-long, drop-append-short,
}
use meinheld.Base.Int.{ℤ, pos, negsuc}

-- `InputObject`: the bytes of its buffer, below 2 ^ 31 of them and `none` once it is closed, and the
-- position.
pub record InputObject : Type 0 where
  pub buffer : Option (List ℕ)
  pub position : ℕ

-- `InputObject_New`
unfoldable pub new_input : List ℕ → InputObject
new_input bytes = record { buffer = some bytes; position = 0 }

unfoldable pub read_length : ℤ → ℕ → ℕ
read_length (pos n) l = if ltb l n then l else n
read_length (negsuc n) l = l

unfoldable pub read_from : ℤ → InputObject → Option (List ℕ) → Option (List ℕ) × InputObject
read_from size io none = (none, io)
read_from size io (some bytes) =
    let n = read_length size (length bytes - io.position) in
    (some (take n (drop io.position bytes)), record io { position = io.position + n })

-- `InputObject_read`; `none` is the error of a closed input.
unfoldable pub read : ℤ → InputObject → Option (List ℕ) × InputObject
unfolding read_from read_length
read size io = read_from size io io.buffer

-- The count of the loop of `inner_readline`: the bytes up to the first newline, with it
unfoldable pub line_length : List ℕ → ℕ
line_length [] = 0
line_length (c ∷ r) = let more = line_length r in if c == 10 then 1 else suc more

-- `inner_readline`, on the bytes of the buffer
unfoldable pub inner_readline : List ℕ → ℕ → List ℕ × ℕ
inner_readline bytes position =
    let l = line_length (drop position bytes) in (take l (drop position bytes), position + l)

-- The part of a line that `readline` gives for its argument
unfoldable pub line_size : ℤ → ℕ → ℕ
line_size (pos size) len = if ltb size len then size else len
line_size (negsuc size) len = len

unfoldable pub readline_from : ℤ → InputObject → Option (List ℕ) → Option (List ℕ) × InputObject
unfolding inner_readline
readline_from size io none = (none, io)
readline_from size io (some bytes) =
    let (line, position) = inner_readline bytes io.position in
    let len = line_size size (length line) in
    (some (take len line), record io { position = position - (length line - len) })

-- `InputObject_readline`
unfoldable pub readline : ℤ → InputObject → Option (List ℕ) × InputObject
unfolding readline_from line_size
readline size io = readline_from size io io.buffer

-- The loop of `InputObject_readlines`, on fuel: one more than the bytes that are left is enough.
unfoldable pub lines_loop : ℕ → ℕ → ℕ → List ℕ → ℕ → List (List ℕ) × ℕ
lines_loop zero sizehint total bytes position = ([], position)
lines_loop (suc fuel) sizehint total bytes position =
    let (line, next) = inner_readline bytes position in
    let (more, end) = lines_loop fuel sizehint (total + length line) bytes next in
    if length line == 0
    then ([], next)
    else if ltb 0 sizehint && leb sizehint (total + length line)
    then (line ∷ [], next)
    else (line ∷ more, end)

unfoldable pub lines_from : ℕ → InputObject → Option (List ℕ) → Option (List (List ℕ)) × InputObject
unfolding lines_loop
lines_from sizehint io none = (none, io)
lines_from sizehint io (some bytes) =
    let (lines, position) =
      lines_loop (suc (length bytes - io.position)) sizehint 0 bytes io.position in
    (some lines, record io { position = position })

-- `InputObject_readlines`; a `sizehint` of 0 or less stands for none.
unfoldable pub readlines : ℤ → InputObject → Option (List (List ℕ)) × InputObject
unfolding lines_from
readlines (pos sizehint) io = lines_from sizehint io io.buffer
readlines (negsuc sizehint) io = lines_from 0 io io.buffer

pub data Next : Type 0 where
  line : List ℕ → Next
  stop_iteration closed : Next

unfoldable pub next_line : Option (List ℕ) × InputObject → Next × InputObject
next_line (none, io) = (closed, io)
next_line (some [], io) = (stop_iteration, io)
next_line (some (c ∷ r), io) = (line (c ∷ r), io)

-- `InputObject_iternext`
unfoldable pub iternext : InputObject → Next × InputObject
unfolding readline next_line
iternext io = next_line (readline (negsuc 0) io)
