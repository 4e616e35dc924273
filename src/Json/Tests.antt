-- ===== src/Json/Tests.antt =====
-- Runs of the JSON reader.
use messk.Prelude.{◌≡◌, refl, same, none, some, codes, [], ◌∷◌, ◌++◌}
use messk.Prelude.Int.{pos, negsuc}
use messk.Prelude.Number.{Number}
use messk.Json.{null, num, str, arr, obj, end, item, nil, field}
use messk.Json.Parse.{parse_json}

object_test :
    parse_json (codes " { \"a\" : [1, -2.5e1, true], \"b\":\"x\\u0041\\n\", \"a\":null }")
    ≡ some (obj (field (codes "b") (str (codes "xA" ++ 10 ∷ [])) (field (codes "a") null nil)))
unfolding parse_json same
object_test = refl

array_test :
    parse_json (codes "[1.5, -25, 2e3, 250e-1]")
    ≡ some (
        arr (
          item (num (Number.between (pos 1))) (
            item
              (num (Number.int (negsuc 24)))
              (item (num (Number.int (pos 2000))) (item (num (Number.int (pos 25))) end)))))
unfolding parse_json
array_test = refl

error_tests :
    (parse_json (codes "{\"a\":1,}") ≡ none)
    × (parse_json (codes "01") ≡ none)
    × (parse_json (codes "\"a") ≡ none)
    × (parse_json (codes "1 2") ≡ none)
unfolding parse_json
error_tests = (refl, refl, refl, refl)
