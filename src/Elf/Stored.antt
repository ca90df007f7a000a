-- ===== src/Elf/Stored.antt =====
-- elf_load of a file on a mounted FAT16 volume.
use mathlib.Core.Path.{fun_ext}
use peachos.Base.{
  ℕ, ◌+◌, ◌%◌, ◌^◌, ◌<◌, ◌≡◌, ◌≢◌, refl, ap, ◌∙◌, Option, none, some, List, [], ◌∷◌, arith, drop,
  ne→==, ◌==◌, if◌then◌else◌, bit_and, bit_or, ==_refl,
}
use peachos.Base.Int.{pos}
use peachos.Run.{done}
use peachos.Status.{ok}
use peachos.Disk.{Device}
use peachos.Disk.Sector.{IsAta}
use peachos.PathParser.{parse}
use peachos.File.{FileDescriptor, free_slot, max_file_descriptors}
use peachos.File.Open.{files}
use peachos.Fat16.{
  FatDirectoryItem, FatFileDescriptor, FatPrivate, FileStat, get_first_cluster, fat16_stat,
}
use peachos.Fat16.Rounds.{Contents, streams_at}
use peachos.Fat16.Entry.{IsOnly}
use peachos.Fat16.Directory.{fat_item_free}
use peachos.Fat16.Volume.{FatVolume, put, descriptor, fat16_close, volume_stat, fat16_fs}
use peachos.Fat16.Through.{before, opened, open-file, volume-reads, first-read, reopened-put}
use peachos.Elf.{ElfHeader, Elf32Phdr, elf_validate_loaded, elf_process_pheaders}
use peachos.Elf.Layout.{header_of, program_headers, phdr_at}
use peachos.Elf.Load.{elf_file_at, elf_load}
use peachos.Elf.Loading.{elf_load-loads}

module _ (dev : Device) (image : ℕ → ℕ) (ata : IsAta dev image) (private : FatPrivate)
    (near : private.header.reserved_sectors < 2 ^ 16)
    (byte_clusters : private.header.sectors_per_cluster < 2 ^ 8)
    (whole : private.header.sectors_per_cluster ≢ 0) (p q b : ℕ) (blocks : List ℕ)
    (descriptors : ℕ → Option FatFileDescriptor) where
  abbrev start : FatVolume
  start = before dev image ata private near byte_clusters whole p q b blocks descriptors

  abbrev file_open : FatDirectoryItem → ℕ → ℕ → ℕ → FatVolume
  file_open = opened dev image ata private near byte_clusters whole p q b blocks descriptors

  stat_of : FatDirectoryItem → FileStat
  stat_of item = record {
    flags = if bit_and item.attribute 0x01 == 0 then 0 else bit_or 0 1;
    filesize = item.filesize;
  }

  volume-stats :
      (item : FatDirectoryItem)
      → b ≢ 0
      → volume_stat dev (file_open item 0 p q) b ≡ done (ok (stat_of item), file_open item 0 p q)
  unfolding volume_stat fat16_stat descriptor stat_of
  volume-stats item real = rw (ne→== b 0 real, ==_refl b) refl

  volume-closes :
      (item : FatDirectoryItem) (at p' q' : ℕ)
      → b ≢ 0
      → fat16_close dev (file_open item at p' q') b
        ≡ done (ok tt, put b none (file_open item at p' q'))
  unfolding fat16_close descriptor fat_item_free
  volume-closes item at p' q' real = rw (ne→== b 0 real, ==_refl b) refl

  -- The volume once the file is closed, with its streams at `p'` and `q'`.
  abbrev pub closed : ℕ → ℕ → FatVolume
  closed p' q' = record {
    private = streams_at private p' q';
    descriptors = λ x. if x == b then none else descriptors x;
    blocks = blocks;
  }

  closed-put :
      (item : FatDirectoryItem) (at p' q' : ℕ) → put b none (file_open item at p' q') ≡ closed p' q'
  closed-put item at p' q' =
      let same : (put b none (file_open item at p' q')).descriptors ≡ (closed p' q').descriptors =
        fun_ext (λ x. ground arith) in
      ap (λ (f : ℕ → Option FatFileDescriptor). record (closed p' q') { descriptors = f }) same

  -- A mounted volume on an ATA drive, with the table below sector 2 ^ 16 and 1 to 255 sectors in a
  -- cluster; a path of drive 0 with one part, which names a file of the root directory and no
  -- other item; a first cluster of 16 bits whose chain holds the bytes of the file, one at least
  -- and fewer than 2 ^ 31, in clusters that end below byte 2 ^ 31 of the disk; and memory for the
  -- descriptors, the file object and the contents, with a free slot whose descriptor is below
  -- 512. If the bytes of the chain hold an accepted header and its program headers, elf_load
  -- succeeds with the bounds of these segments and frees nothing. It closes the file: the
  -- descriptor table is as before, and the volume has no descriptor at the block used.
  pub elf_load-Contents :
      (name filename : List ℕ) (item : FatDirectoryItem) (k i file memory : ℕ) (bytes : List ℕ)
      (header : ElfHeader) (phdrs : List Elf32Phdr) (ds : List (Option (FileDescriptor FatVolume)))
      (garbage : FileDescriptor FatVolume)
      → parse filename ≡ some (some (record { drive_no = pos 0; parts = name ∷ [] }))
      → IsOnly private.root_directory name k item
      → bit_and item.attribute 0x10 ≡ 0
      → get_first_cluster item < 2 ^ 16
      → Contents image private (get_first_cluster item) item.filesize bytes
      → item.filesize ≢ 0
      → item.filesize < 2 ^ 31
      → b ≢ 0
      → b < 2 ^ 31
      → free_slot 0 ds ≡ some i
      → i + 1 < max_file_descriptors
      → file ≢ 0
      → memory ≢ 0
      → header_of bytes ≡ some header
      → elf_validate_loaded header ≡ some (ok tt)
      → program_headers header.e_phnum (drop header.e_phoff bytes) ≡ some phdrs
      → (p' : ℕ) × (q' : ℕ) × (elf_load
            (some garbage)
            file
            memory
            filename
            (files ds (fat16_fs dev) start)
          ≡ done (
            ok tt,
            some (file, elf_process_pheaders header (phdr_at phdrs) (elf_file_at memory)),
            [],
            files ds (fat16_fs dev) (closed p' q'),
          ))
  unfolding fat16_fs streams_at stat_of
  elf_load-Contents name filename item k i file memory bytes header phdrs ds garbage path only plain
        small contents some_bytes total_int real low slot within real_file real_memory parsed valid
        found =
      let (p', q', reads) =
        first-read dev image ata private near byte_clusters whole p q b blocks descriptors item
          item.filesize bytes small contents total_int in
      let at = item.filesize % 2 ^ 32 in
      let stored =
        volume-reads dev (file_open item 0 p q) b item.filesize 1 _ _ _ (ok 1) bytes real
          (rw (==_refl b) refl) reads
        ∙ ap (λ w. done (ok 1, bytes, w))
            (reopened-put dev image ata private near byte_clusters whole p q b blocks descriptors
              item at p q p' q') in
      (
        p',
        q',
        elf_load-loads (fat16_fs dev) ds start (file_open item 0 p q) (file_open item 0 p q)
              (file_open item at p' q') (put b none (file_open item at p' q')) filename name [] path
              garbage b i (open-file dev start name b blocks refl real k item only plain) low slot
              within (stat_of item) (volume-stats item real) some_bytes
              (volume-closes item at p' q' real) file memory real_file real_memory 1 bytes header
              phdrs stored parsed valid found
            ∙ ap
                (λ w. done (
                  ok tt,
                  some (file, elf_process_pheaders header (phdr_at phdrs) (elf_file_at memory)),
                  [],
                  files ds (fat16_fs dev) w,
                ))
                (closed-put item at p' q'),
      )
