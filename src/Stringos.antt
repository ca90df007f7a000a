-- ===== src/Stringos.antt =====
-- src/stringos/stringos.c. A `char*` is the list of the bytes from the pointer to the end of its
-- object, each below 256; `none` is an access past that end. `char` is signed.
pub mod Laws
pub mod Compare
pub mod Copy
mod Tests
use peachos.Base.{
  ℕ, zero, suc, ◌+◌, ◌-◌, Bool, true, false, ◌&&◌, ◌||◌, not, Option, none, some, List, [], ◌∷◌,
  get_elem?, set?, ◌>>=◌, ltb, leb, ◌==◌, if◌then◌else◌,
}
use peachos.Base.Int.{ℤ, pos, negsuc, sub_ℕ, ◌-ℤ◌}

unfoldable pub tolower : ℕ → ℕ
tolower s1 = if leb 65 s1 && leb s1 90 then s1 + 32 else s1

strlen_loop : List ℕ → ℕ → Option ℕ
strlen_loop [] i = none
strlen_loop (c ∷ ptr) i = let rest = strlen_loop ptr (i + 1) in if c == 0 then some i else rest

unfoldable pub strlen : List ℕ → Option ℕ
unfolding strlen_loop
strlen ptr = strlen_loop ptr 0

strnlen_loop : ℕ → ℕ → List ℕ → Option ℕ
strnlen_loop zero i ptr = some i
strnlen_loop (suc n) i ptr = do
  c ← get_elem? ptr i
  let rest = strnlen_loop n (i + 1) ptr
  if c == 0 then some i else rest

unfoldable pub strnlen : List ℕ → ℕ → Option ℕ
unfolding strnlen_loop
strnlen ptr max = strnlen_loop max 0 ptr

strnlen_terminator_loop : ℕ → ℕ → List ℕ → ℕ → Option ℕ
strnlen_terminator_loop zero i str terminator = some i
strnlen_terminator_loop (suc n) i str terminator = do
  c ← get_elem? str i
  let rest = strnlen_terminator_loop n (i + 1) str terminator
  if c == 0 || c == terminator then some i else rest

unfoldable pub strnlen_terminator : List ℕ → ℕ → ℕ → Option ℕ
unfolding strnlen_terminator_loop
strnlen_terminator str max terminator = strnlen_terminator_loop max 0 str terminator

-- Both compare loops read one byte of each string a round, with `n` rounds left.
unfoldable pub istrncmp : List ℕ → List ℕ → ℕ → Option ℤ
unfolding tolower
istrncmp s1 s2 zero = some (pos 0)
istrncmp (u1 ∷ s1) (u2 ∷ s2) (suc n) =
    let rest = istrncmp s1 s2 n in
    if not (u1 == u2) && not (tolower u1 == tolower u2)
    then some (sub_ℕ u1 u2)
    else if u1 == 0
    then some (pos 0)
    else rest
istrncmp _ _ (suc n) = none

unfoldable pub strncmp : List ℕ → List ℕ → ℕ → Option ℤ
strncmp str1 str2 zero = some (pos 0)
strncmp (u1 ∷ str1) (u2 ∷ str2) (suc n) =
    let rest = strncmp str1 str2 n in
    if not (u1 == u2) then some (sub_ℕ u1 u2) else if u1 == 0 then some (pos 0) else rest
strncmp _ _ (suc n) = none

-- What `dest` holds from the loop's pointers on; the bytes before them are written.
unfoldable pub strcpy : List ℕ → List ℕ → Option (List ℕ)
strcpy dest [] = none
strcpy [] (c ∷ src) = none
strcpy (d ∷ dest) (c ∷ src) =
    let rest = (do dest' ← strcpy dest src; some (c ∷ dest')) in
    if c == 0 then some (0 ∷ dest) else rest

-- The rounds left of `for (i = 0; i < count - 1; i++)`, and the write behind the loop.
strncpy_loop : ℕ → ℕ → List ℕ → List ℕ → Option (List ℕ)
strncpy_loop zero i dest src = set? dest i 0
strncpy_loop (suc n) i dest src = do
  c ← get_elem? src i
  let rest = (do dest' ← set? dest i c; strncpy_loop n (i + 1) dest' src)
  if c == 0 then set? dest i 0 else rest

unfoldable pub strncpy : List ℕ → List ℕ → ℕ → Option (List ℕ)
unfolding strncpy_loop
strncpy dest src count = strncpy_loop (count - 1) 0 dest src

unfoldable pub isdigit : ℕ → Bool
isdigit c = leb 48 c && leb c 57

-- The value of a byte as a signed `char`.
abbrev pub char_value : ℕ → ℤ
char_value c = if ltb c 128 then pos c else negsuc (255 - c)

unfoldable pub tonumericdigit : ℕ → ℤ
unfolding ◌-ℤ◌
tonumericdigit c = char_value c -ℤ pos 48
