-- ===== src/Fat16/Mount.antt =====
-- fat16_resolve on a disk with a FAT16 volume.
use peachos.Base.{
  ℕ, ◌+◌, ◌-◌, ◌*◌, ◌/◌, ◌%◌, ◌^◌, ◌<◌, ◌≡◌, refl, some, none, [], inl, inr, arith, ◌==◌,
  if◌then◌else◌, Bool-cases,
}
use peachos.Status.{ok, err, efsnotus}
use peachos.Disk.{
  Device, sector_size, diskstreamer_new, disk_get, diskstreamer_seek, diskstreamer_read,
}
use peachos.Disk.Sector.{IsAta, range}
use peachos.Disk.Stream.{diskstreamer_read-range}
use peachos.Fat16.{FatHeader, FatDirectory, FatPrivate}
use peachos.Fat16.Directory.{get_root_directory, init_private, fat16_resolve}
use peachos.Fat16.Items.{used, IsDirectoryAt, get_total_items_for_directory-used}
use peachos.Fat16.Decode.{header_at, items_at, header_of-range, directory_items_of-range, word_at}

-- Where the root directory begins, as a sector.
abbrev pub root_sector : FatHeader → ℕ
root_sector header = header.fat_copies * header.sectors_per_fat + header.reserved_sectors

-- The root directory with all the entries of its area; `n` of them stand in front of its end.
abbrev pub root_at : (ℕ → ℕ) → FatHeader → ℕ → FatDirectory
root_at image header n = record {
  item = items_at image (root_sector header * sector_size) header.root_dir_entries;
  total = used image (root_sector header * sector_size) n;
  sector_pos = root_sector header;
  ending_sector_pos = root_sector header + (header.root_dir_entries * 32 + 511) / 512;
}

-- What fat16_resolve leaves in `disk.fs_private`.
abbrev pub mounted : (ℕ → ℕ) → ℕ → FatPrivate
mounted image n =
    let header = header_at image in
    record {
      header = header;
      root_directory = root_at image header n;
      cluster_read_stream = record { pos = 0; disk = 0 };
      fat_read_stream = record { pos = 0; disk = 0 };
      directory_stream = record {
        pos = root_sector header * sector_size + header.root_dir_entries * 32;
        disk = 0;
      };
    }

-- With the header read, before the root directory.
abbrev fresh : (ℕ → ℕ) → FatPrivate
fresh image = record {
  header = header_at image;
  root_directory = record { item = []; total = 0; sector_pos = 0; ending_sector_pos = 0 };
  cluster_read_stream = record { pos = 0; disk = 0 };
  fat_read_stream = record { pos = 0; disk = 0 };
  directory_stream = record { pos = 0; disk = 0 };
}

sectors_lem : (r x : ℕ) → r + (if x % 512 == 0 then x / 512 else x / 512 + 1) ≡ r + (x + 511) / 512
sectors_lem r x = ground arith

module _ (dev : Device) (image : ℕ → ℕ) (ata : IsAta dev image) where
  get_root_directory-root :
      (private : FatPrivate) (n : ℕ)
      → private.directory_stream.disk ≡ 0
      → n < 2 ^ 16
      → private.header.root_dir_entries < 2 ^ 16
      → root_sector private.header < 2 ^ 22 - 2 ^ 12
      → IsDirectoryAt image (root_sector private.header * sector_size) n
      → get_root_directory dev private
        ≡ some (
          ok (root_at image private.header n),
          record private {
            directory_stream = record {
              pos = root_sector private.header * sector_size + private.header.root_dir_entries * 32;
              disk = 0;
            };
          },
        )
  unfolding get_root_directory diskstreamer_seek
  get_root_directory-root private n disk few entries near d =
      let r = root_sector private.header in
      let m = private.header.root_dir_entries in
      let start : r * sector_size % 2 ^ 32 % 2 ^ 32 ≡ r * sector_size = omega arith in
      rw
        (
          get_total_items_for_directory-used dev image ata private r n disk (omega arith) d,
          start,
          diskstreamer_read-range dev image ata (r * sector_size) (m * 32) (inl (omega arith))
              (omega arith),
          directory_items_of-range image m (m * 32) (r * sector_size) (omega arith),
          sectors_lem r (m * 32),
        )
        refl

  header_lem :
      diskstreamer_read dev (record { pos = 0; disk = 0 }) 62
      ≡ some (ok tt, record { pos = 62; disk = 0 }, range image 0 62)
  header_lem = diskstreamer_read-range dev image ata 0 62 (inl refl) (omega arith)

  word-small : (pos : ℕ) → word_at image pos < 2 ^ 16
  word-small pos = omega (arith, ata.byte pos, ata.byte (pos + 1))

  entries-small : (header_at image).root_dir_entries < 2 ^ 16
  unfolding header_at
  entries-small = word-small 17

  -- On an ATA drive whose root directory, at the place that the header gives, below sector
  -- 2 ^ 22 - 2 ^ 12, ends behind `n` items, fewer than 2 ^ 16: fat16_resolve returns. With the signature 0x29 it mounts the volume, with
  -- the header of the first sector, all entries of the root directory, and as their total the
  -- number of those `n` that are not deleted; any other signature it refuses with EFSNOTUS, and
  -- leaves no private data.
  pub fat16_resolve-mounts :
      (n : ℕ)
      → n < 2 ^ 16
      → root_sector (header_at image) < 2 ^ 22 - 2 ^ 12
      → IsDirectoryAt image (root_sector (header_at image) * sector_size) n
      → fat16_resolve dev 0 ≡ (
          if image 38 == 0x29
          then some (ok tt, some (mounted image n))
          else some (err efsnotus, none))
  unfolding fat16_resolve init_private diskstreamer_new disk_get
  fat16_resolve-mounts n few root-near d = elim (Bool-cases (image 38 == 0x29)) [
    | inl signed ↦
        rw
          (
            header_lem,
            header_of-range image,
            signed,
            get_root_directory-root (fresh image) n refl few entries-small root-near d,
          )
          refl
    | inr other ↦ rw (header_lem, header_of-range image, other) refl
  ]
