-- ===== src/Input/Tests.antt =====
-- Runs of the input object, and its theorems at a concrete body.
use meinheld.Base.{ℕ, ◌≡◌, refl, some, List, ◌∷◌, ◌++◌, codes}
use meinheld.Base.Int.{pos}
use meinheld.Input.{line, line_length, readlines, iternext}
use meinheld.Input.Lines.{ReadLines, readlines-Split}

abbrev body : List ℕ
body = codes "a" ++ 10 ∷ codes "bc"

last_line : (iternext (record { buffer = some body; position = 2 })).0 ≡ line (codes "bc")
unfolding iternext line_length
last_line = refl

readlines-Split_example :
    ReadLines body 0 (readlines (pos 0) (record { buffer = some body; position = 0 }))
readlines-Split_example = readlines-Split body 0
