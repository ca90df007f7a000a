-- ===== src/Fat16.antt =====
-- src/fs/fat16/fat16.c: directory items and their names, the cluster chain, reads, seek and stat. A
-- `struct disk` is its private data, since there is one disk; its sectors have 512 bytes. Signed
-- sums stay below 2 ^ 31, and `none` is a fault: a division by zero, a negative position of the
-- stream, or a fault of the stream.
pub mod Layout
pub mod Directory
pub mod Volume
pub mod Decode
pub mod Items
pub mod Mount
pub mod Subdirectory
pub mod Find
pub mod Entry
pub mod Through
pub mod Boot
pub mod Sample
pub mod SampleFile
pub mod Names
pub mod Cluster
pub mod Rounds
pub mod File
pub mod Crossing
pub mod Seek
mod Tests
mod VolumeTests
mod BootTests
mod CrossingTests
use peachos.Base.{
  ℕ, zero, suc, ◌+◌, ◌-◌, ◌*◌, ◌/◌, ◌%◌, ◌^◌, bit_and, bit_or, Option, none, some, List, [], ◌∷◌,
  ◌++◌, Bool, true, false, not, ◌&&◌, ◌||◌, ◌>>=◌, ltb, leb, ◌==◌, if◌then◌else◌, length, replicate,
  get_elem?,
}
use peachos.Base.Ints.{is_negative, int_rem}
use peachos.Status.{Result, ok, err, eio, einvagr, eunimp}
use peachos.Disk.{Device, DiskStream, sector_size, diskstreamer_seek, diskstreamer_read}

pub record FatHeader : Type 0 where
  pub short_jmp_ins : List ℕ
  pub oem_identifier : List ℕ
  pub bytes_per_sector : ℕ
  pub sectors_per_cluster : ℕ
  pub reserved_sectors : ℕ
  pub fat_copies : ℕ
  pub root_dir_entries : ℕ
  pub number_of_sectors : ℕ
  pub media_type : ℕ
  pub sectors_per_fat : ℕ
  pub sectors_per_track : ℕ
  pub number_of_heads : ℕ
  pub hidden_setors : ℕ
  pub sectors_big : ℕ

pub record FatDirectoryItem : Type 0 where
  pub filename : List ℕ
  pub ext : List ℕ
  pub attribute : ℕ
  pub reserved : ℕ
  pub creation_time_tenths_of_a_sec : ℕ
  pub creation_time : ℕ
  pub creation_date : ℕ
  pub last_access : ℕ
  pub high_16_bits_first_cluster : ℕ
  pub last_mod_time : ℕ
  pub last_mod_date : ℕ
  pub low_16_bits_first_cluster : ℕ
  pub filesize : ℕ

pub record FatDirectory : Type 0 where
  pub item : List FatDirectoryItem
  pub total : ℕ
  pub sector_pos : ℕ
  pub ending_sector_pos : ℕ

-- A `struct fat_directory*`: null, to a directory, or to one that has been freed.
pub data DirectoryPointer : Type 0 where
  null : DirectoryPointer
  freed : DirectoryPointer
  live : FatDirectory → DirectoryPointer

-- The union with its tag `type`.
pub data FatItem : Type 0 where
  file_item : FatDirectoryItem → FatItem
  directory_item : DirectoryPointer → FatItem

pub record FatFileDescriptor : Type 0 where
  pub item : FatItem
  pub pos : ℕ

-- `header` is its primary header.
pub record FatPrivate : Type 0 where
  pub header : FatHeader
  pub root_directory : FatDirectory
  pub cluster_read_stream : DiskStream
  pub fat_read_stream : DiskStream
  pub directory_stream : DiskStream

-- The characters that the loop writes before the terminating zero, with `size - 1 - i`.
proper_loop : ℕ → List ℕ → Option (List ℕ)
proper_loop left [] = none
proper_loop zero (c ∷ s) = if not (c == 0) && not (c == 0x20) then some (c ∷ []) else some []
proper_loop (suc left) (c ∷ s) =
    let rest = (do cs ← proper_loop left s; some (c ∷ cs)) in
    if not (c == 0) && not (c == 0x20) then rest else some []

unfoldable pub to_proper_string : List ℕ → ℕ → Option (List ℕ)
unfolding proper_loop
to_proper_string s size = proper_loop (size - 1) s

-- The bytes of `out`, which memset has cleared.
unfoldable pub get_full_relative_filename : FatDirectoryItem → ℕ → Option (List ℕ)
unfolding to_proper_string
get_full_relative_filename item max_len = do
  name ← to_proper_string item.filename 8
  first ← get_elem? item.ext 0
  let dotted = (do ext ← to_proper_string item.ext 3; some (name ++ (b'.' ∷ ext)))
  text ← if not (first == 0) && not (first == 0x20) then dotted else some name
  if ltb (length text) max_len then some (text ++ replicate (max_len - length text) 0) else none

unfoldable pub get_first_cluster : FatDirectoryItem → ℕ
get_first_cluster item =
    bit_or (item.high_16_bits_first_cluster * 2 ^ 16) item.low_16_bits_first_cluster

-- An int, as the cluster is.
unfoldable pub cluster_to_sector : FatPrivate → ℕ → ℕ
cluster_to_sector private cluster =
    (private.root_directory.ending_sector_pos
      + (cluster + 2 ^ 32 - 2) * private.header.sectors_per_cluster)
    % 2 ^ 32

unfoldable pub get_first_fat_sector : FatPrivate → ℕ
get_first_fat_sector private = private.header.reserved_sectors

-- The entry, and the private data with the stream moved.
unfoldable pub get_fat_entry : Device → FatPrivate → ℕ → Option (Result ℕ × FatPrivate)
unfolding get_first_fat_sector diskstreamer_seek
get_fat_entry dev private cluster = do
  let fat_table_position = get_first_fat_sector private * sector_size
  let stream =
      diskstreamer_seek private.fat_read_stream ((fat_table_position + cluster * 2) % 2 ^ 32)
  (res, stream', bytes) ← diskstreamer_read dev stream 2
  let private' = record private { fat_read_stream = stream' }
  elim res [
    | err e ↦ some (err e, private')
    | ok _ ↦ do
      low ← get_elem? bytes 0
      high ← get_elem? bytes 1
      some (ok (low + 2 ^ 8 * high), private')
  ]

-- The entries at which a chain cannot be followed: its end, a bad, reserved or free cluster.
unfoldable pub stops : ℕ → Bool
stops entry =
    (entry == 0xFFf8 || entry == 0xFFFF)
    || (entry == 0xFF7 || ((entry == 0xFF0 || entry == 0xFF6) || entry == 0))

-- The loop over `clusters_ahead`, with the rounds left. The code takes a negative answer of
-- get_fat_entry for the next cluster, a negative one: a fault here.
clusters_loop : ℕ → Device → FatPrivate → ℕ → Option (Result ℕ × FatPrivate)
clusters_loop zero dev private cluster_to_use = some (ok cluster_to_use, private)
clusters_loop (suc n) dev private cluster_to_use = do
  (res, private') ← get_fat_entry dev private cluster_to_use
  elim res [
    | err e ↦ none
    | ok entry ↦
        let rest = clusters_loop n dev private' entry in
        if stops entry then some (err eio, private') else rest
  ]

unfoldable pub size_of_cluster_bytes : FatPrivate → ℕ
size_of_cluster_bytes private = private.header.sectors_per_cluster * sector_size

unfoldable pub get_cluster_for_offset : Device → FatPrivate → ℕ → ℕ → Option (Result ℕ × FatPrivate)
unfolding clusters_loop size_of_cluster_bytes
get_cluster_for_offset dev private starting_cluster offset =
    if size_of_cluster_bytes private == 0
    then none
    else let clusters_ahead =
        if is_negative offset then 0 else offset / size_of_cluster_bytes private in
      clusters_loop clusters_ahead dev private starting_cluster

-- The code, the private data, and the bytes put into `out`. The offset, the total and the cluster are
-- ints. A negative cluster, which the code returns as if it were an error code, is a fault here.
-- Each recursive call takes a cluster off `total`, which bounds their number.
pub read_loop :
    ℕ → Device → FatPrivate → ℕ → ℕ → ℕ → Option (Result (Unit {0}) × FatPrivate × List ℕ)
read_loop zero dev private cluster offset total = none
read_loop (suc fuel) dev private cluster offset total = do
  (found, private') ← get_cluster_for_offset dev private cluster offset
  elim found [
    | err e ↦ some (err e, private', [])
    | ok cluster_to_use ↦
        let size = size_of_cluster_bytes private in
        let offset_from_cluster = int_rem offset size in
        let starting_sector = cluster_to_sector private' cluster_to_use in
        let starting_pos = (starting_sector * sector_size + offset_from_cluster) % 2 ^ 32 in
        let more = ltb size total && not (is_negative total) in
        let total_to_read = if more then size else total in
        let stream = diskstreamer_seek private'.cluster_read_stream starting_pos in
        let reads = (do
          (res, stream', bytes) ← diskstreamer_read dev stream total_to_read
          let moved = record private' { cluster_read_stream = stream' }
          let again = (do
            (res', after, rest) ←
                read_loop fuel dev moved cluster ((offset + total_to_read) % 2 ^ 32)
                  (total - total_to_read)
            some (res', after, bytes ++ rest))
          elim res [
            | err e ↦ some (err e, moved, bytes)
            | ok _ ↦ if more then again else some (ok tt, moved, bytes)
          ]) in
        if is_negative cluster_to_use then none else reads
  ]

-- fat16_read_internal passes the cluster stream on.
unfoldable pub read_internal :
    Device → FatPrivate → ℕ → ℕ → ℕ → Option (Result (Unit {0}) × FatPrivate × List ℕ)
unfolding read_loop
read_internal dev private cluster offset total =
    read_loop (total + 1) dev private cluster offset total

-- The loop of fat16_read, with the rounds left: the offset behind the blocks read, an int, and their
-- bytes.
blocks_loop :
    ℕ → Device → FatPrivate → FatDirectoryItem → ℕ → ℕ → Option (Result ℕ × FatPrivate × List ℕ)
blocks_loop zero dev private item offset size = some (ok offset, private, [])
blocks_loop (suc n) dev private item offset size = do
  (res, private', bytes) ← read_internal dev private (get_first_cluster item) offset size
  let next = (do
    (res', after, rest) ← blocks_loop n dev private' item ((offset + size) % 2 ^ 32) size
    some (res', after, bytes ++ rest))
  elim res [ err e ↦ some (err e, private', bytes) | ok _ ↦ next ]

-- The number of blocks or the error, the descriptor afterwards, and the bytes. A descriptor of a
-- directory, whose union the code reads as an item, is a fault.
unfoldable pub fat16_read :
    Device
    → FatPrivate
    → FatFileDescriptor
    → ℕ
    → ℕ
    → Option (Result ℕ × FatFileDescriptor × FatPrivate × List ℕ)
unfolding blocks_loop read_internal
fat16_read dev private desc size nmemb = elim (desc.item) [
  | directory_item d ↦ none
  | file_item item ↦ do
    (res, private', bytes) ← blocks_loop nmemb dev private item desc.pos size
    some (elim res [
      | err e ↦ (err e, desc, private', bytes)
      | ok offset ↦ (ok nmemb, record desc { pos = offset }, private', bytes)
    ])
]

pub record FileStat : Type 0 where
  pub flags : ℕ
  pub filesize : ℕ

unfoldable pub fat16_stat : FatFileDescriptor → Result FileStat
fat16_stat desc = elim (desc.item) [
  | directory_item d ↦ err einvagr
  | file_item ritem ↦ ok (record {
    flags = if bit_and ritem.attribute 0x01 == 0 then 0 else bit_or 0 1;
    filesize = ritem.filesize;
  })
]

abbrev pub seek_set : ℕ
seek_set = 0

abbrev pub seek_cur : ℕ
seek_cur = 1

abbrev pub seek_end : ℕ
seek_end = 2

unfoldable pub fat16_seek : FatFileDescriptor → ℕ → ℕ → Result (Unit {0}) × FatFileDescriptor
fat16_seek desc offset seek_mode = elim (desc.item) [
  | directory_item d ↦ (err einvagr, desc)
  | file_item ritem ↦
      if leb ritem.filesize offset
      then (err eio, desc)
      else if seek_mode == seek_set
      then (ok tt, record desc { pos = offset })
      else if seek_mode == seek_end
      then (err eunimp, desc)
      else if seek_mode == seek_cur
      then (ok tt, record desc { pos = (desc.pos + offset) % 2 ^ 32 })
      else (err einvagr, desc)
]
