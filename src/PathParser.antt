-- ===== src/PathParser.antt =====
-- src/fs/pparser.c: a path such as `0:/dir/file` as its drive and its parts. Text is as in
-- Stringos; a part is the 108-byte buffer that the code allocates for it, and the linked list of
-- parts is a list. Every kzalloc of the parser is taken to return a buffer.
pub mod Split
pub mod Join
pub mod Parse
mod Tests
use peachos.Base.{
  ℕ, zero, suc, ◌+◌, Bool, true, false, ◌&&◌, ◌||◌, Option, none, some, List, [], ◌∷◌, length, drop,
  replicate, get_elem?, set?, ◌>>=◌, ltb, leb, ◌==◌, if◌then◌else◌,
}
use peachos.Base.Int.{ℤ, pos}
use peachos.Status.{Result, ok, err, ebadpath}
use peachos.Memory.{memcmp}
use peachos.Stringos.{strlen, strnlen, isdigit, tonumericdigit}

abbrev pub max_path : ℕ
max_path = 108

pub record PathRoot : Type 0 where
  pub drive_no : ℤ
  pub parts : List (List ℕ)

abbrev is_zero : ℤ → Bool
is_zero (pos zero) = true
is_zero _ = false

-- `&&` reads the drive letter and the separator only where the length allows it.
unfoldable pub path_valid_format : List ℕ → Option Bool
path_valid_format filename = do
  len ← strnlen filename max_path
  let rest = (do
    c ← get_elem? filename 0
    d ← memcmp (drop 1 filename) (b':' ∷ b'/' ∷ []) 2
    some (isdigit c && is_zero d))
  if leb 3 len then rest else some false

-- The drive, and the pointer behind the root.
unfoldable pub get_drive_by_path : List ℕ → Option (Result (ℤ × List ℕ))
get_drive_by_path path = do
  valid ← path_valid_format path
  let found = (do c ← get_elem? path 0; some (ok (tonumericdigit c, drop 3 path)))
  if valid then found else some (err ebadpath)

-- The copying loop of pathparser_get_path_part: the buffer, its fill, and the pointer.
part_loop : List ℕ → ℕ → List ℕ → Option (List ℕ × ℕ × List ℕ)
part_loop [] i buf = none
part_loop (c ∷ path) i buf =
    let rest = (do buf' ← set? buf i c; part_loop path (i + 1) buf') in
    if c == b'/' || c == 0 then some (buf, i, c ∷ path) else rest

skip_slash : List ℕ → List ℕ
skip_slash [] = []
skip_slash (c ∷ path) = if c == b'/' then path else c ∷ path

-- The part, or none for an empty one, and the pointer behind it.
unfoldable pub get_path_part : List ℕ → Option (Option (List ℕ) × List ℕ)
unfolding part_loop skip_slash
get_path_part path = do
  (buf, i, path') ← part_loop path 0 (replicate max_path 0)
  some (if i == 0 then none else some buf, skip_slash path')

-- The loop over pathparser_parse_path_part, with `fuel` rounds at most.
pub parts_loop : ℕ → List ℕ → Option (List (List ℕ))
parts_loop zero path = none
parts_loop (suc fuel) path = do
  (part, path') ← get_path_part path
  elim part [ none ↦ some [] | some p ↦ do rest ← parts_loop fuel path'; some (p ∷ rest) ]

-- The inner `none` is a null `path_root`. Each round of the loop moves the pointer on, so the
-- length of the path bounds the rounds.
unfoldable pub parse : List ℕ → Option (Option PathRoot)
unfolding parts_loop
parse path = do
  len ← strlen path
  let rest = (do
    drive ← get_drive_by_path path
    elim drive [
      | err e ↦ some none
      | ok (drive_no, tmp_path) ↦ do
        parts ← parts_loop (len + 1) tmp_path
        some (some (record { drive_no = drive_no; parts = parts }))
    ])
  if ltb max_path len then some none else rest
