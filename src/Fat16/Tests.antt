-- ===== src/Fat16/Tests.antt =====
-- A small volume: one reserved sector with the table behind it, the data from sector 10 on, and a
-- file of two clusters, 2 and 3.
use peachos.Base.{
  ℕ, ◌+◌, ◌*◌, ◌%◌, ◌^◌, ◌<◌, ◌≡◌, refl, arith, some, [], ◌∷◌, ◌++◌, if◌then◌else◌, ◌==◌, ◌||◌,
}
use peachos.Status.{ok}
use peachos.Disk.{Device}
use peachos.Disk.Drive.{drive_of, drive_of-IsAta}
use peachos.Disk.Sector.{IsAta, range}
use peachos.Fat16.{
  FatHeader, FatPrivate, FatDirectoryItem, file_item, fat16_read, fat16_seek, seek_cur, stops,
  get_first_cluster,
}
use peachos.Fat16.Names.{field}
use peachos.Fat16.Cluster.{here, fat_entry}
use peachos.Fat16.File.{fat16_read-Contents}
use peachos.Fat16.Rounds.{last, more, streams_at}
use peachos.Fat16.Seek.{IsInside, fat16_seek-leaves_file}

abbrev image : ℕ → ℕ
image pos =
    if pos == 516
    then 3
    else if pos == 517
    then 0
    else if pos == 518 || pos == 519
    then 0xFF
    else pos % 256

image-byte : (pos : ℕ) → image pos < 256
image-byte pos = ground arith

abbrev drive : Device
drive = drive_of image

drive-IsAta : IsAta drive image
drive-IsAta = drive_of-IsAta image image-byte

abbrev header : FatHeader
header = record {
  short_jmp_ins = [];
  oem_identifier = [];
  bytes_per_sector = 512;
  sectors_per_cluster = 1;
  reserved_sectors = 1;
  fat_copies = 2;
  root_dir_entries = 64;
  number_of_sectors = 100;
  media_type = 0xF8;
  sectors_per_fat = 1;
  sectors_per_track = 0;
  number_of_heads = 0;
  hidden_setors = 0;
  sectors_big = 0;
}

abbrev private : FatPrivate
private = record {
  header = header;
  root_directory = record { item = []; total = 0; sector_pos = 3; ending_sector_pos = 10 };
  cluster_read_stream = record { pos = 0; disk = 0 };
  fat_read_stream = record { pos = 0; disk = 0 };
  directory_stream = record { pos = 0; disk = 0 };
}

-- The file A.TXT.
abbrev item : FatDirectoryItem
item = record {
  filename = field 8 (b'A' ∷ []);
  ext = field 3 (b'T' ∷ b'X' ∷ b'T' ∷ []);
  attribute = 0x20;
  reserved = 0;
  creation_time_tenths_of_a_sec = 0;
  creation_time = 0;
  creation_date = 0;
  last_access = 0;
  high_16_bits_first_cluster = 0;
  last_mod_time = 0;
  last_mod_date = 0;
  low_16_bits_first_cluster = 2;
  filesize = 600;
}

-- The whole file in one block.
fat16_read-Contents_example :
    (p' : ℕ) × (q' : ℕ) × (fat16_read drive
        (streams_at private 0 0)
        (record { item = file_item item; pos = 0 * 512 })
        600
        1
      ≡ some (
        ok 1,
        record { item = file_item item; pos = (0 * 512 + 600) % 2 ^ 32 },
        streams_at private p' q',
        range image 5120 512 ++ range image 5632 88,
      ))
unfolding fat_entry get_first_cluster stops
fat16_read-Contents_example =
    fat16_read-Contents drive image drive-IsAta private (omega arith) (omega arith) (omega arith)
      item 0 0 0 600 (omega arith) here
      (more {c = 2} (omega arith) (omega arith) refl (last (omega arith) (omega arith)))
      (omega arith)

fat16_seek-leaves_file_example :
    (fat16_seek (record { item = file_item item; pos = 500 }) 500 seek_cur
      ≡ (ok tt, record { item = file_item item; pos = 500 + 500 }))
    × (¬ IsInside (fat16_seek (record { item = file_item item; pos = 500 }) 500 seek_cur).1)
fat16_seek-leaves_file_example =
    fat16_seek-leaves_file item 500 500 (omega arith) (omega arith) (omega arith) (omega arith)
