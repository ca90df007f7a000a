-- ===== src/PathParser/Parse.antt =====
-- pathparser_parse on every C string, and on the text of a path.
use mathlib.Core.List.{map}
use peachos.Base.{
  ℕ, ◌+◌, ◌-◌, ◌≤◌, ◌<◌, ◌≡◌, refl, ◌∙◌, Bool, true, false, ◌&&◌, Option, none, some, List, [], ◌∷◌,
  ◌++◌, arith, length, leb, ltb, ◌==◌, if◌then◌else◌, min,
}
use peachos.Base.Int.{pos}
use peachos.Memory.{memcmp}
use peachos.Memory.Laws.{memcmp-lex, lex}
use peachos.Stringos.{isdigit, tonumericdigit}
use peachos.Stringos.Laws.{NonZero, strlen-length, strnlen-min}
use peachos.PathParser.{PathRoot, max_path, is_zero, path_valid_format, get_drive_by_path, parse}
use peachos.PathParser.Split.{split, nonempty_prefix, pad, parts_loop-split}
use peachos.PathParser.Join.{AreNames, join, split-join, NonZero-join}

-- A root: a digit, a colon and a slash.
unfoldable pub has_root : List ℕ → Bool
has_root (d ∷ c ∷ e ∷ s) = isdigit d && (c == b':' && e == b'/')
has_root _ = false

is_zero-lex : (c e : ℕ) → is_zero (lex (c ∷ e ∷ []) (b':' ∷ b'/' ∷ [])) ≡ (c == b':' && e == b'/')
unfolding lex
is_zero-lex c e = ground arith

root_compared :
    (c e : ℕ) (s : List ℕ)
    → memcmp (c ∷ e ∷ s) (b':' ∷ b'/' ∷ []) 2 ≡ some (lex (c ∷ e ∷ []) (b':' ∷ b'/' ∷ []))
root_compared c e s = memcmp-lex (c ∷ e ∷ s) (b':' ∷ b'/' ∷ []) 2 (omega arith) (omega arith)

path_valid_format-short :
    (s r : List ℕ) → NonZero s → length s < 3 → path_valid_format (s ++ (0 ∷ r)) ≡ some false
unfolding path_valid_format
path_valid_format-short s r z h =
    let short : leb 3 (min max_path (length s)) ≡ false = ground arith in
    rw (strnlen-min s r max_path z, short) refl

path_valid_format-root :
    (s r : List ℕ) → NonZero s → path_valid_format (s ++ (0 ∷ r)) ≡ some (has_root s)
unfolding has_root path_valid_format
path_valid_format-root [] r z = path_valid_format-short [] r z (omega arith)
path_valid_format-root (d ∷ []) r z = path_valid_format-short (d ∷ []) r z (omega arith)
path_valid_format-root (d ∷ c ∷ []) r z = path_valid_format-short (d ∷ c ∷ []) r z (omega arith)
path_valid_format-root (d ∷ c ∷ e ∷ s) r z =
    let long : leb 3 (min max_path (length (d ∷ c ∷ e ∷ s))) ≡ true = ground arith in
    rw
      (
        strnlen-min (d ∷ c ∷ e ∷ s) r max_path z,
        long,
        root_compared c e (s ++ (0 ∷ r)),
        is_zero-lex c e,
      )
      refl

-- What the parser makes of a text.
unfoldable pub parsed : List ℕ → Option PathRoot
unfolding has_root
parsed (d ∷ c ∷ e ∷ s) =
    if ltb max_path (length (d ∷ c ∷ e ∷ s))
    then none
    else if has_root (d ∷ c ∷ e ∷ s)
    then some (record { drive_no = pos (d - 48); parts = map pad (nonempty_prefix (split s)) })
    else none
parsed _ = none

digit_value : (d : ℕ) → isdigit d ≡ true → tonumericdigit d ≡ pos (d - 48)
unfolding isdigit tonumericdigit
digit_value d h = ground arith

-- pathparser_parse reads nothing past the end of a C string and its loop ends. It returns null
-- for a text over 108 bytes and for one that does not begin with a digit and `:/`. Else it
-- returns the digit's drive, and the parts between the slashes up to the first empty one.
pub parse-parsed : (s r : List ℕ) → NonZero s → parse (s ++ (0 ∷ r)) ≡ some (parsed s)
unfolding parse parsed get_drive_by_path
parse-parsed [] r z = rw (strlen-length [] r z, path_valid_format-root [] r z) refl
parse-parsed (d ∷ []) r z =
    rw (strlen-length (d ∷ []) r z, path_valid_format-root (d ∷ []) r z) refl
parse-parsed (d ∷ c ∷ []) r z =
    rw (strlen-length (d ∷ c ∷ []) r z, path_valid_format-root (d ∷ c ∷ []) r z) refl
parse-parsed (d ∷ c ∷ e ∷ s) r z =
    let whole = d ∷ c ∷ e ∷ s in
    rw (strlen-length whole r z, path_valid_format-root whole r z)
      (ground (arith, digit_value d, parts_loop-split (length whole + 1) s r z.1.1.1))

-- The text of a path: a drive, `:/`, and the names with a `/` between them.
abbrev pub path_text : ℕ → List (List ℕ) → List ℕ
path_text drive names = (b'0' + drive) ∷ b':' ∷ b'/' ∷ join names

-- Parsing the text of a path with a drive below 10, of at most 108 bytes in all, gives back the
-- drive and the names, each padded to its buffer.
pub parse-path_text :
    (drive : ℕ) (names : List (List ℕ)) (r : List ℕ)
    → drive < 10
    → AreNames names
    → length (join names) + 3 ≤ max_path
    → parse (path_text drive names ++ (0 ∷ r))
      ≡ some (some (record { drive_no = pos drive; parts = map pad names }))
unfolding parsed
parse-path_text drive names r h a fits =
    let z : NonZero (path_text drive names) =
      (omega arith, (omega arith, (omega arith, NonZero-join names a))) in
    parse-parsed (path_text drive names) r z ∙ ground (arith, is_digit drive h, split-join names a)
  where
    is_digit : (n : ℕ) → n < 10 → isdigit (b'0' + n) ≡ true
    is_digit n h = unfold isdigit in ground arith
