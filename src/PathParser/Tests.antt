-- ===== src/PathParser/Tests.antt =====
-- The parser on `0:/ab/c`.
use mathlib.Core.List.{map}
use peachos.Base.{ℕ, ◌≡◌, refl, arith, some, List, [], ◌∷◌, ◌++◌}
use peachos.Base.Int.{pos}
use peachos.Memory.{memcmp}
use peachos.Stringos.{strlen, strnlen, isdigit, tonumericdigit}
use peachos.PathParser.{parse, get_drive_by_path, path_valid_format, get_path_part}
use peachos.PathParser.Split.{pad}
use peachos.PathParser.Join.{join}
use peachos.PathParser.Parse.{parsed, path_text, parse-parsed, parse-path_text}

abbrev names : List (List ℕ)
names = (97 ∷ 98 ∷ []) ∷ (99 ∷ []) ∷ []

-- The text `0:/a//b`: an empty part ends the parse.
abbrev doubled : List ℕ
doubled = 48 ∷ 58 ∷ 47 ∷ 97 ∷ 47 ∷ 47 ∷ 98 ∷ []

parse-doubled :
    parse (doubled ++ (0 ∷ []))
    ≡ some (some (record { drive_no = pos 0; parts = pad (97 ∷ []) ∷ [] }))
unfolding parse pad strlen get_drive_by_path path_valid_format strnlen memcmp isdigit tonumericdigit
    get_path_part
parse-doubled = refl

parse-parsed_example : parse (doubled ++ (0 ∷ [])) ≡ some (parsed doubled)
parse-parsed_example = parse-parsed doubled [] (omega arith)

parse-path_text_example :
    parse (path_text 0 names ++ (0 ∷ []))
    ≡ some (some (record { drive_no = pos 0; parts = map pad names }))
unfolding join
parse-path_text_example = parse-path_text 0 names [] (omega arith) (omega arith) (omega arith)
