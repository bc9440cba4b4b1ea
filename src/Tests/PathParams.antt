-- ===== src/Tests/PathParams.antt =====
-- The parameters of some paths.
use mlflow_integration.Shared.{map, List, [], ◌∷◌, some, ◌≡◌, refl, string_eq}
use mlflow_integration.Shared.Text.{nonempty, starts_with, drop}
use mlflow_integration.Auth.Templates.{admits}
use mlflow_integration.Auth.PathParams.{
  NamedPattern, compile_named_path_pattern, match_named, extract_path_params,
}
use mlflow_integration.Auth.PathParams.Values.{Fill}
use mlflow_integration.Auth.Templates.Pieces.{
  Piece, plain_text, one_segment, many_segments, IsReadable,
}
use mlflow_integration.Auth.PathParams.Extraction.{
  Template, registered, AreExtracted, extract_path_params-AreExtracted,
}
use mlflow_integration.Auth.PathParams.RoundTrip.{IsSegmented, IsPassed, extract_path_params-filled}

-- A group takes as much as it can.
greedy :
    match_named (compile_named_path_pattern "<path:a>/<b>") "x/y/z"
    ≡ some (("a", "x/y") ∷ ("b", "z") ∷ [])
unfolding compile_named_path_pattern match_named starts_with
greedy = refl

abbrev by_id : NamedPattern
by_id = record { tokens = compile_named_path_pattern "/runs/<id>/files/<path:p>"; verb = "GET" }

abbrev other_verb : NamedPattern
other_verb = record {
  tokens = compile_named_path_pattern "/runs/<id>/files/<path:p>";
  verb = "POST";
}

-- /runs/<id>/<path:p>, for POST and for GET.
abbrev pieces : List Piece
pieces = plain_text "/runs/" ∷ one_segment "id" ∷ plain_text "/" ∷ many_segments "p" ∷ []

abbrev templates : List Template
templates = (pieces, "POST") ∷ (pieces, "GET") ∷ []

readable : IsReadable pieces
unfolding nonempty starts_with
readable = (
  (refl, (refl, (refl, (refl, (refl, (refl, tt)))))),
  (refl, refl, (refl, (refl, tt)), ((refl, tt), ((refl, tt), tt))),
)

extract_path_params-AreExtracted_example :
    AreExtracted templates "/runs/7/a/b" "GET"
      (extract_path_params (map registered templates) "/runs/7/a/b" "GET")
extract_path_params-AreExtracted_example =
    extract_path_params-AreExtracted templates "/runs/7/a/b" "GET" (readable, (readable, tt))

by_id-IsSegmented : IsSegmented by_id.tokens
unfolding compile_named_path_pattern starts_with
by_id-IsSegmented = (refl, tt)

by_id-filled : Fill by_id.tokens "/runs/7/files/a/b" (("id", "7") ∷ ("p", "a/b") ∷ [])
unfolding compile_named_path_pattern starts_with drop nonempty admits
by_id-filled = (refl, (refl, refl, (refl, tt), (refl, refl, (refl, (refl, (refl, tt))), tt)))

other_verb-IsPassed : IsPassed "/runs/7/files/a/b" "GET" other_verb
other_verb-IsPassed e captures f = cc

extract_path_params-filled_example :
    extract_path_params (other_verb ∷ by_id ∷ []) "/runs/7/files/a/b" "GET"
    ≡ ("id", "7") ∷ ("p", "a/b") ∷ []
extract_path_params-filled_example =
    extract_path_params-filled (other_verb ∷ []) [] by_id "/runs/7/files/a/b"
      (("id", "7") ∷ ("p", "a/b") ∷ []) (other_verb-IsPassed, tt) by_id-IsSegmented by_id-filled
