-- ===== src/Fat16/Directory.antt =====
-- src/fs/fat16/fat16.c: the root directory, subdirectories, the search for an item and fat16_resolve.
-- kzalloc is taken to return a block, but for the negative size of an item count that failed, where
-- memset of the wrapped size is a fault.
use peachos.Base.{
  ℕ, zero, suc, ◌+◌, ◌*◌, ◌/◌, ◌%◌, ◌^◌, bit_and, Option, none, some, List, [], ◌∷◌, ◌>>=◌, ◌==◌,
  if◌then◌else◌, get_elem?,
}
use peachos.Base.Int.{pos}
use peachos.Status.{Result, ok, err, eio, efsnotus}
use peachos.Disk.{
  Device, DiskStream, sector_size, diskstreamer_new, diskstreamer_seek, diskstreamer_read,
}
use peachos.Stringos.{istrncmp}
use peachos.Fat16.{
  FatHeader, FatDirectoryItem, FatDirectory, DirectoryPointer, null, freed, live, FatItem,
  file_item, directory_item, FatPrivate, get_full_relative_filename, get_first_cluster,
  cluster_to_sector, read_internal,
}
use peachos.Fat16.Layout.{directory_item_size, header_size, directory_items_of, header_of}

abbrev pub max_path : ℕ
max_path = 108

-- More reads than the stream can make. They take its position, an int, from 32 bytes to 32 bytes over
-- 2 ^ 31, and a read from a negative position inside a sector is a fault.
abbrev pub max_reads : ℕ
max_reads = 2 ^ 26 + 2

-- The loop that counts the items, with the rounds left.
unfoldable pub items_loop : ℕ → Device → DiskStream → ℕ → Option (Result ℕ × DiskStream)
items_loop zero dev stream i = none
items_loop (suc fuel) dev stream i = do
  (res, stream', bytes) ← diskstreamer_read dev stream directory_item_size
  elim res [
    | err e ↦ some (err eio, stream')
    | ok _ ↦ do
      first ← get_elem? bytes 0
      let rest = items_loop fuel dev stream' (if first == 0xE5 then i else i + 1)
      if first == 0 then some (ok i, stream') else rest
  ]

unfoldable pub get_total_items_for_directory :
    Device → FatPrivate → ℕ → Option (Result ℕ × FatPrivate)
get_total_items_for_directory dev private directory_start_sector = do
  let stream =
      diskstreamer_seek private.directory_stream (directory_start_sector * sector_size % 2 ^ 32)
  (res, stream') ← items_loop max_reads dev stream 0
  some (res, record private { directory_stream = stream' })

module _ (dev : Device) where
  -- On an error of the read the directory is freed, and the pointer to it is returned all the same.
  unfoldable pub load_fat_directory :
      FatPrivate → FatDirectoryItem → Option (DirectoryPointer × FatPrivate)
  load_fat_directory private item =
      if bit_and item.attribute 0x10 == 0 then some (null, private) else (do
        let cluster = get_first_cluster item
        let cluster_sector = cluster_to_sector private cluster
        (counted, private') ← get_total_items_for_directory dev private cluster_sector
        elim counted [
          | err e ↦ none
          | ok total ↦ do
            (res, private'', bytes) ←
                read_internal dev private' cluster 0 (total * directory_item_size % 2 ^ 32)
            elim res [
              | err e ↦ some (freed, private'')
              | ok _ ↦ do
                items ← directory_items_of total bytes
                some (
                  live (record {
                    item = items;
                    total = total;
                    sector_pos = 0;
                    ending_sector_pos = 0;
                  }),
                  private'',
                )
            ]
        ])

  unfoldable pub new_fat_item_for_directory_item :
      FatPrivate → FatDirectoryItem → Option (FatItem × FatPrivate)
  new_fat_item_for_directory_item private item =
      if bit_and item.attribute 0x10 == 0 then some (file_item item, private) else (do
        (directory, private') ← load_fat_directory private item
        some (directory_item directory, private'))

  -- The loop over the items of a directory, with the rounds left. The scan goes on behind a match,
  -- so the last one wins.
  unfoldable pub find_loop :
      ℕ
      → ℕ
      → FatPrivate
      → FatDirectory
      → List ℕ
      → Option FatItem
      → Option (Option FatItem × FatPrivate)
  find_loop zero i private directory name f_item = some (f_item, private)
  find_loop (suc n) i private directory name f_item = do
    item ← get_elem? directory.item i
    tmp_filename ← get_full_relative_filename item max_path
    order ← istrncmp tmp_filename name max_path
    let skips = find_loop n (i + 1) private directory name f_item
    let found = (do
      (new, private') ← new_fat_item_for_directory_item private item
      find_loop n (i + 1) private' directory name (some new))
    elim order [ pos zero ↦ found | _ ↦ skips ]

  unfoldable pub find_item_in_directory :
      FatPrivate → FatDirectory → List ℕ → Option (Option FatItem × FatPrivate)
  find_item_in_directory private directory name =
      find_loop directory.total 0 private directory name none

-- A second free of a directory is a fault.
unfoldable pub free_directory : DirectoryPointer → Option (Unit {0})
free_directory null = some tt
free_directory freed = none
free_directory (live d) = some tt

unfoldable pub fat_item_free : FatItem → Option (Unit {0})
unfolding free_directory
fat_item_free (directory_item d) = free_directory d
fat_item_free (file_item item) = some tt

module _ (dev : Device) where
  -- The loop over the parts behind the first one. `none` for the item is a null pointer.
  unfoldable pub entry_loop :
      FatPrivate → Option FatItem → List (List ℕ) → Option (Option FatItem × FatPrivate)
  entry_loop private current_item [] = some (current_item, private)
  entry_loop private none (part ∷ next_part) = none
  entry_loop private (some (file_item item)) (part ∷ next_part) = some (none, private)
  entry_loop private (some (directory_item null)) (part ∷ next_part) = none
  entry_loop private (some (directory_item freed)) (part ∷ next_part) = none
  entry_loop private (some (directory_item (live directory))) (part ∷ next_part) = do
    (tmp_item, private') ← find_item_in_directory dev private directory part
    _ ← fat_item_free (directory_item (live directory))
    entry_loop private' tmp_item next_part

  unfoldable pub get_directory_entry :
      FatPrivate → List ℕ → List (List ℕ) → Option (Option FatItem × FatPrivate)
  get_directory_entry private part next_part = do
    (root_item, private') ← find_item_in_directory dev private private.root_directory part
    elim root_item [
      | none ↦ some (none, private')
      | some item ↦ entry_loop private' (some item) next_part
    ]

-- The directory, and the private data with the stream moved. The two reads fail together, so no
-- directory has a failed count.
unfoldable pub get_root_directory : Device → FatPrivate → Option (Result FatDirectory × FatPrivate)
get_root_directory dev private = do
  let header = private.header
  let root_dir_sector_pos = header.fat_copies * header.sectors_per_fat + header.reserved_sectors
  let root_dir_size = header.root_dir_entries * directory_item_size
  let total_sectors =
      if root_dir_size % sector_size == 0
      then root_dir_size / sector_size
      else root_dir_size / sector_size + 1
  (counted, private') ← get_total_items_for_directory dev private root_dir_sector_pos
  let stream =
      diskstreamer_seek private'.directory_stream (root_dir_sector_pos * sector_size % 2 ^ 32)
  (res, stream', bytes) ← diskstreamer_read dev stream root_dir_size
  let private'' = record private' { directory_stream = stream' }
  elim res [
    | err e ↦ some (err eio, private'')
    | ok _ ↦ elim counted [
      | err e ↦ none
      | ok total_items ↦ do
        items ← directory_items_of header.root_dir_entries bytes
        some (
          ok (record {
            item = items;
            total = total_items;
            sector_pos = root_dir_sector_pos;
            ending_sector_pos = root_dir_sector_pos + total_sectors;
          }),
          private'',
        )
    ]
  ]

abbrev pub zero_header : FatHeader
zero_header = record {
  short_jmp_ins = 0 ∷ 0 ∷ 0 ∷ [];
  oem_identifier = 0 ∷ 0 ∷ 0 ∷ 0 ∷ 0 ∷ 0 ∷ 0 ∷ 0 ∷ [];
  bytes_per_sector = 0;
  sectors_per_cluster = 0;
  reserved_sectors = 0;
  fat_copies = 0;
  root_dir_entries = 0;
  number_of_sectors = 0;
  media_type = 0;
  sectors_per_fat = 0;
  sectors_per_track = 0;
  number_of_heads = 0;
  hidden_setors = 0;
  sectors_big = 0;
}

-- `none` for a null stream, of a disk other than the first.
unfoldable pub init_private : ℕ → Option FatPrivate
init_private disk_id = do
  cluster_read_stream ← diskstreamer_new disk_id
  fat_read_stream ← diskstreamer_new disk_id
  directory_stream ← diskstreamer_new disk_id
  some (record {
    header = zero_header;
    root_directory = record { item = []; total = 0; sector_pos = 0; ending_sector_pos = 0 };
    cluster_read_stream = cluster_read_stream;
    fat_read_stream = fat_read_stream;
    directory_stream = directory_stream;
  })

-- The code, and `disk.fs_private`, which an error resets to null.
unfoldable pub fat16_resolve : Device → ℕ → Option (Result (Unit {0}) × Option FatPrivate)
fat16_resolve dev disk_id = do
  fresh ← init_private disk_id
  stream ← diskstreamer_new disk_id
  (res, stream', bytes) ← diskstreamer_read dev stream header_size
  elim res [
    | err e ↦ some (err eio, none)
    | ok _ ↦ do
      (header, signature) ← header_of bytes
      let private = record fresh { header = header }
      let mounts = (do
        (root, private') ← get_root_directory dev private
        elim root [
          | err e ↦ some (err eio, none)
          | ok directory ↦ some (ok tt, some (record private' { root_directory = directory }))
        ])
      if signature == 0x29 then mounts else some (err efsnotus, none)
  ]
