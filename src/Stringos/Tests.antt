-- ===== src/Stringos/Tests.antt =====
-- The string functions on short texts.
use peachos.Base.{ℕ, ◌≡◌, refl, arith, none, some, List, [], ◌∷◌, ◌++◌, drop, min}
use peachos.Base.Int.{pos, negsuc}
use peachos.Stringos.{
  strlen, strnlen, strnlen_terminator, istrncmp, strncmp, strcpy, tonumericdigit,
}
use peachos.Stringos.Laws.{strnlen_terminator-before, before_byte}
use peachos.Stringos.Copy.{strcpy-copies}

-- "Ab" and "aB"
abbrev upper : List ℕ
upper = 65 ∷ 98 ∷ []

abbrev lower : List ℕ
lower = 97 ∷ 66 ∷ []

runs :
    (strlen (upper ++ (0 ∷ [])) ≡ some 2)
    × (strlen upper ≡ none)
    × (strnlen (upper ++ (0 ∷ [])) 1 ≡ some 1)
    × (istrncmp (upper ++ (0 ∷ [])) (lower ++ (0 ∷ [])) 5 ≡ some (pos 0))
    × (strncmp (upper ++ (0 ∷ [])) (lower ++ (0 ∷ [])) 5 ≡ some (negsuc 31))
    × (tonumericdigit 55 ≡ pos 7)
unfolding strlen strnlen istrncmp strncmp tonumericdigit
runs = (refl, refl, refl, refl, refl, refl)

strnlen_terminator-before_example :
    strnlen_terminator (upper ++ (0 ∷ [])) 9 98 ≡ some (min 9 (before_byte 98 upper))
strnlen_terminator-before_example = strnlen_terminator-before upper [] 9 98 (omega arith)

abbrev room : List ℕ
room = 9 ∷ 9 ∷ 9 ∷ 9 ∷ []

strcpy-copies_example : strcpy room (upper ++ (0 ∷ [])) ≡ some (upper ++ (0 ∷ drop 3 room))
strcpy-copies_example = strcpy-copies room upper [] (omega arith) (omega arith)
