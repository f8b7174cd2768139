-- ===== src/Url/Tests.antt =====
-- Runs of the URL decoders, and their theorems at concrete targets.
use meinheld.Base.{◌≡◌, true, List, [], ◌∷◌, ◌++◌, arith, All, codes}
use meinheld.Url.{urldecode, set_path}
use meinheld.Url.Decode.{
  Piece, IsPiece, plain, escaped, render, decoded, query, render_rest, rest_query, set_path_lem,
}

abbrev pieces : List Piece
pieces = plain 47 ∷ escaped true 32 ∷ []

pieces-IsPiece : All IsPiece pieces
pieces-IsPiece =
    (((λ e. omega (arith, e)), (λ e. omega (arith, e)), (λ e. omega (arith, e))), (omega arith, tt))

set_path_lem_example :
    set_path 0 (render pieces ++ render_rest (query (codes "a=1#top"))) ≡ record {
      path_info = urldecode (decoded pieces);
      query_string = rest_query (query (codes "a=1#top"));
    }
set_path_lem_example = set_path_lem 0 pieces (query (codes "a=1#top")) pieces-IsPiece
