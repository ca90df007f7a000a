-- ===== src/Fat16/Decode.antt =====
-- The structures that the layout reads from the bytes of an image.
use peachos.Base.{
  ℕ, zero, suc, ◌+◌, ◌-◌, ◌*◌, ◌^◌, ◌≤◌, ◌<◌, ◌≡◌, refl, ap, some, List, [], ◌∷◌, arith, take, drop,
}
use peachos.Disk.Sector.{range}
use peachos.Disk.Stream.{get_elem?-range}
use peachos.Fat16.{FatHeader, FatDirectoryItem}
use peachos.Fat16.Layout.{word, dword, directory_item_of, directory_items_of, header_of}

-- The number in two, and in four, bytes from `pos` on.
abbrev pub word_at : (ℕ → ℕ) → ℕ → ℕ
word_at image pos = image pos + 2 ^ 8 * image (pos + 1)

abbrev pub dword_at : (ℕ → ℕ) → ℕ → ℕ
dword_at image pos = word_at image pos + 2 ^ 16 * word_at image (pos + 2)

-- The item whose bytes begin at `pos`.
unfoldable pub item_at : (ℕ → ℕ) → ℕ → FatDirectoryItem
item_at image pos = record {
  filename = range image pos 8;
  ext = range image (pos + 8) 3;
  attribute = image (pos + 11);
  reserved = image (pos + 12);
  creation_time_tenths_of_a_sec = image (pos + 13);
  creation_time = word_at image (pos + 14);
  creation_date = word_at image (pos + 16);
  last_access = word_at image (pos + 18);
  high_16_bits_first_cluster = word_at image (pos + 20);
  last_mod_time = word_at image (pos + 22);
  last_mod_date = word_at image (pos + 24);
  low_16_bits_first_cluster = word_at image (pos + 26);
  filesize = dword_at image (pos + 28);
}

unfoldable pub items_at : (ℕ → ℕ) → ℕ → ℕ → List FatDirectoryItem
items_at image pos zero = []
items_at image pos (suc n) = item_at image pos ∷ items_at image (pos + 32) n

unfoldable pub header_at : (ℕ → ℕ) → FatHeader
header_at image = record {
  short_jmp_ins = range image 0 3;
  oem_identifier = range image 3 8;
  bytes_per_sector = word_at image 11;
  sectors_per_cluster = image 13;
  reserved_sectors = word_at image 14;
  fat_copies = image 16;
  root_dir_entries = word_at image 17;
  number_of_sectors = word_at image 19;
  media_type = image 21;
  sectors_per_fat = word_at image 22;
  sectors_per_track = word_at image 24;
  number_of_heads = word_at image 26;
  hidden_setors = dword_at image 28;
  sectors_big = dword_at image 32;
}

take-range : (image : ℕ → ℕ) (m n pos : ℕ) → m ≤ n → take m (range image pos n) ≡ range image pos m
unfolding range
take-range image zero n pos h = refl
take-range image (suc m) zero pos h = absurd (omega arith)
take-range image (suc m) (suc n) pos h =
    ap (λ r. image pos ∷ r) (take-range image m n (pos + 1) (omega arith))

drop-range :
    (image : ℕ → ℕ) (m n pos : ℕ)
    → m ≤ n
    → drop m (range image pos n) ≡ range image (pos + m) (n - m)
unfolding range
drop-range image zero n pos h =
    let e : pos + 0 ≡ pos = omega arith in let f : n - 0 ≡ n = omega arith in rw (e, f)
drop-range image (suc m) zero pos h = absurd (omega arith)
drop-range image (suc m) (suc n) pos h =
    let e : pos + suc m ≡ pos + 1 + m = omega arith in
    let f : suc n - suc m ≡ n - m = omega arith in
    rw (e, f) (drop-range image m n (pos + 1) (omega arith))

module _ (image : ℕ → ℕ) (pos n : ℕ) where
  word-range : (i : ℕ) → i + 1 < n → word (range image pos n) i ≡ some (word_at image (pos + i))
  unfolding word
  word-range i h =
      let e : pos + (i + 1) ≡ pos + i + 1 = omega arith in
      rw (get_elem?-range image n pos i (omega arith), get_elem?-range image n pos (i + 1) h, e)
        refl

  dword-range : (i : ℕ) → i + 3 < n → dword (range image pos n) i ≡ some (dword_at image (pos + i))
  unfolding dword
  dword-range i h =
      let e : pos + (i + 2) ≡ pos + i + 2 = omega arith in
      rw (word-range i (omega arith), word-range (i + 2) (omega arith), e) refl

  pub directory_item_of-range :
      32 ≤ n → directory_item_of (range image pos n) ≡ some (item_at image pos)
  unfolding directory_item_of item_at
  directory_item_of-range h =
      rw
        (
          get_elem?-range image n pos 11 (omega arith),
          get_elem?-range image n pos 12 (omega arith),
          get_elem?-range image n pos 13 (omega arith),
          word-range 14 (omega arith),
          word-range 16 (omega arith),
          word-range 18 (omega arith),
          word-range 20 (omega arith),
          word-range 22 (omega arith),
          word-range 24 (omega arith),
          word-range 26 (omega arith),
          dword-range 28 (omega arith),
          take-range image 8 n pos (omega arith),
          drop-range image 8 n pos (omega arith),
          take-range image 3 (n - 8) (pos + 8) (omega arith),
        )
        refl

pub directory_items_of-range :
    (image : ℕ → ℕ) (m n pos : ℕ)
    → m * 32 ≤ n
    → directory_items_of m (range image pos n) ≡ some (items_at image pos m)
unfolding directory_items_of items_at
directory_items_of-range image zero n pos h = refl
directory_items_of-range image (suc m) n pos h =
    rw
      (
        directory_item_of-range image pos n (omega arith),
        drop-range image 32 n pos (omega arith),
        directory_items_of-range image m (n - 32) (pos + 32) (omega arith),
      )
      refl

pub header_of-range :
    (image : ℕ → ℕ) → header_of (range image 0 62) ≡ some (header_at image, image 38)
unfolding header_of header_at
header_of-range image =
    rw
      (
        word-range image 0 62 11 (omega arith),
        get_elem?-range image 62 0 13 (omega arith),
        word-range image 0 62 14 (omega arith),
        get_elem?-range image 62 0 16 (omega arith),
        word-range image 0 62 17 (omega arith),
        word-range image 0 62 19 (omega arith),
        get_elem?-range image 62 0 21 (omega arith),
        word-range image 0 62 22 (omega arith),
        word-range image 0 62 24 (omega arith),
        word-range image 0 62 26 (omega arith),
        dword-range image 0 62 28 (omega arith),
        dword-range image 0 62 32 (omega arith),
        get_elem?-range image 62 0 38 (omega arith),
        take-range image 3 62 0 (omega arith),
        drop-range image 3 62 0 (omega arith),
        take-range image 8 (62 - 3) (0 + 3) (omega arith),
      )
      refl
