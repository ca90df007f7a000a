-- ===== src/Fat16/Names.antt =====
-- The text of a directory item's name.
use peachos.Base.{
  ℕ, zero, suc, ◌+◌, ◌-◌, ◌≤◌, ◌<◌, ◌≡◌, refl, sym, ap, ◌∙◌, ◌≢◌, some, List, [], ◌∷◌, ◌++◌, arith,
  length, replicate, get_elem?, lt→ltb, ne→==,
}
use peachos.Fat16.{FatDirectoryItem, proper_loop, to_proper_string, get_full_relative_filename}

-- A text of characters that are neither zero nor a space.
pub data IsName : List ℕ → Type 0 where
  nil : IsName []
  char : {c : ℕ} {s : List ℕ} → c ≢ 0 → c ≢ 0x20 → IsName s → IsName (c ∷ s)

-- The field of `size` bytes on the disk: the text and spaces behind it.
abbrev pub field : ℕ → List ℕ → List ℕ
field size s = s ++ replicate (size - length s) 0x20

-- `left + 1` bytes are enough for the text, with or without a space behind it.
proper_loop-field :
    (left : ℕ) (s : List ℕ)
    → IsName s
    → length s ≤ left + 1
    → proper_loop left (s ++ replicate (left + 1 - length s) 0x20) ≡ some s
unfolding proper_loop
proper_loop-field zero [] nil fits = refl
proper_loop-field (suc left) [] nil fits =
    let e : suc left + 1 - 0 ≡ suc (left + 1) = omega arith in
    ap (λ (t : ℕ). proper_loop (suc left) (replicate t 0x20)) e
proper_loop-field zero (c ∷ []) (char a b h) fits = rw (ne→== c 0 a, ne→== c 0x20 b) refl
proper_loop-field zero (c ∷ d ∷ s) (char a b h) fits = absurd (omega arith)
proper_loop-field (suc left) (c ∷ s) (char a b h) fits =
    let e : suc left + 1 - suc (length s) ≡ left + 1 - length s = omega arith in
    let size : suc (length s) ≤ suc left + 1 = fits in
    let ih = proper_loop-field left s h (omega (arith, size)) in
    rw (ne→== c 0 a, ne→== c 0x20 b, e, ih) refl

to_proper_string-field :
    (size : ℕ) (s : List ℕ)
    → IsName s
    → length s ≤ size
    → 0 < size
    → to_proper_string (field size s) size ≡ some s
unfolding to_proper_string
to_proper_string-field size s name fits p =
    let e : size - 1 + 1 ≡ size = omega arith in
    ap (λ (t : ℕ). proper_loop (size - 1) (s ++ replicate (t - length s) 0x20)) (sym e)
    ∙ proper_loop-field (size - 1) s name (omega arith)

-- What the two fields yield, put together.
filename_parts :
    (item : FatDirectoryItem) (max_len c : ℕ) (name ext : List ℕ)
    → to_proper_string item.filename 8 ≡ some name
    → get_elem? item.ext 0 ≡ some c
    → to_proper_string item.ext 3 ≡ some ext
    → c ≢ 0
    → c ≢ 0x20
    → length (name ++ (b'.' ∷ ext)) < max_len
    → get_full_relative_filename item max_len
      ≡ some ((name ++ (b'.' ∷ ext)) ++ replicate (max_len - length (name ++ (b'.' ∷ ext))) 0)
unfolding get_full_relative_filename
filename_parts item max_len c name ext first head second a b room =
    rw
      (
        first,
        head,
        ne→== c 0 a,
        ne→== c 0x20 b,
        second,
        lt→ltb (length (name ++ (b'.' ∷ ext))) max_len room,
      )
      refl

-- The item of a name and an extension, which is not empty, padded with spaces as on the disk.
module _ (item : FatDirectoryItem) (name : List ℕ) (c : ℕ) (ext : List ℕ) where
  -- For an item whose two fields hold a name of at most 8 and a nonempty extension of at most 3
  -- characters, padded with spaces, and a buffer with room for it, the full name is the name, a
  -- dot and the extension, with zeros behind it up to the end of the buffer.
  pub get_full_relative_filename-dotted :
      (max_len : ℕ)
      → item.filename ≡ field 8 name
      → item.ext ≡ field 3 (c ∷ ext)
      → IsName name
      → IsName (c ∷ ext)
      → length name ≤ 8
      → length ext ≤ 2
      → length (name ++ (b'.' ∷ (c ∷ ext))) < max_len
      → get_full_relative_filename item max_len
        ≡ some (
            (name ++ (b'.' ∷ (c ∷ ext)))
            ++ replicate (max_len - length (name ++ (b'.' ∷ (c ∷ ext)))) 0)
  get_full_relative_filename-dotted max_len f e n (char a b x) short_name short_ext room =
      let fits : length (c ∷ ext) ≤ 3 = omega arith in
      filename_parts item max_len c name (c ∷ ext)
        (ap (λ t. to_proper_string t 8) f
          ∙ to_proper_string-field 8 name n short_name (omega arith))
        (ap (λ t. get_elem? t 0) e)
        (ap (λ t. to_proper_string t 3) e
          ∙ to_proper_string-field 3 (c ∷ ext) (char a b x) fits (omega arith))
        a b room
