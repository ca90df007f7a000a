-- ===== src/Fat16/Layout.antt =====
-- The packed structures of src/fs/fat16/fat16.c in the bytes of the disk, little-endian. `none` is a
-- read behind the end of the bytes.
use peachos.Base.{
  ℕ, zero, suc, ◌+◌, ◌*◌, ◌^◌, Option, some, List, [], ◌∷◌, ◌>>=◌, get_elem?, take, drop,
}
use peachos.Fat16.{FatHeader, FatDirectoryItem}

abbrev pub directory_item_size : ℕ
directory_item_size = 32

-- sizeof(struct fat_h), with the extended header.
abbrev pub header_size : ℕ
header_size = 62

unfoldable pub word : List ℕ → ℕ → Option ℕ
word bytes i = do low ← get_elem? bytes i; high ← get_elem? bytes (i + 1); some (low + 2 ^ 8 * high)

unfoldable pub dword : List ℕ → ℕ → Option ℕ
unfolding word
dword bytes i = do low ← word bytes i; high ← word bytes (i + 2); some (low + 2 ^ 16 * high)

unfoldable pub directory_item_of : List ℕ → Option FatDirectoryItem
unfolding word dword
directory_item_of bytes = do
  attribute ← get_elem? bytes 11
  reserved ← get_elem? bytes 12
  tenths ← get_elem? bytes 13
  creation_time ← word bytes 14
  creation_date ← word bytes 16
  last_access ← word bytes 18
  high ← word bytes 20
  last_mod_time ← word bytes 22
  last_mod_date ← word bytes 24
  low ← word bytes 26
  filesize ← dword bytes 28
  some (record {
    filename = take 8 bytes;
    ext = take 3 (drop 8 bytes);
    attribute = attribute;
    reserved = reserved;
    creation_time_tenths_of_a_sec = tenths;
    creation_time = creation_time;
    creation_date = creation_date;
    last_access = last_access;
    high_16_bits_first_cluster = high;
    last_mod_time = last_mod_time;
    last_mod_date = last_mod_date;
    low_16_bits_first_cluster = low;
    filesize = filesize;
  })

-- The array of `n` items.
unfoldable pub directory_items_of : ℕ → List ℕ → Option (List FatDirectoryItem)
directory_items_of zero bytes = some []
directory_items_of (suc n) bytes = do
  item ← directory_item_of bytes
  rest ← directory_items_of n (drop directory_item_size bytes)
  some (item ∷ rest)

-- The primary header, and the signature of the extended one.
unfoldable pub header_of : List ℕ → Option (FatHeader × ℕ)
unfolding word dword
header_of bytes = do
  bytes_per_sector ← word bytes 11
  sectors_per_cluster ← get_elem? bytes 13
  reserved_sectors ← word bytes 14
  fat_copies ← get_elem? bytes 16
  root_dir_entries ← word bytes 17
  number_of_sectors ← word bytes 19
  media_type ← get_elem? bytes 21
  sectors_per_fat ← word bytes 22
  sectors_per_track ← word bytes 24
  number_of_heads ← word bytes 26
  hidden_setors ← dword bytes 28
  sectors_big ← dword bytes 32
  signature ← get_elem? bytes 38
  some (
    record {
      short_jmp_ins = take 3 bytes;
      oem_identifier = take 8 (drop 3 bytes);
      bytes_per_sector = bytes_per_sector;
      sectors_per_cluster = sectors_per_cluster;
      reserved_sectors = reserved_sectors;
      fat_copies = fat_copies;
      root_dir_entries = root_dir_entries;
      number_of_sectors = number_of_sectors;
      media_type = media_type;
      sectors_per_fat = sectors_per_fat;
      sectors_per_track = sectors_per_track;
      number_of_heads = number_of_heads;
      hidden_setors = hidden_setors;
      sectors_big = sectors_big;
    },
    signature,
  )
