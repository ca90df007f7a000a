-- ===== src/Elf/StoredTests.antt =====
-- elf_load of A.TXT on the sample volume, which begins with an executable.
use peachos.Base.{ℕ, ◌≡◌, ◌==◌, if◌then◌else◌, refl, arith, some, none, List, [], ◌∷◌, ◌++◌, drop}
use peachos.Run.{done}
use peachos.Status.{ok}
use peachos.Memory.{memcmp}
use peachos.Disk.Sector.{range}
use peachos.File.{FileDescriptor, free_slot}
use peachos.File.Open.{files}
use peachos.Fat16.{stops, get_first_cluster}
use peachos.Fat16.Layout.{word, dword}
use peachos.Fat16.Cluster.{fat_entry}
use peachos.Fat16.Rounds.{Contents, streams_at, last, more}
use peachos.Fat16.Decode.{header_at, item_at}
use peachos.Fat16.Volume.{FatVolume, fat16_fs}
use peachos.Fat16.Sample.{image, drive, drive-IsAta}
use peachos.Fat16.SampleFile.{volume, a_path, a_part, a_path-parsed, a_part-IsOnly}
use peachos.Elf.{elf_validate_loaded, elf_process_pheaders}
use peachos.Elf.Layout.{header_of, phdr_of, program_headers, phdr_at}
use peachos.Elf.Load.{elf_file_at, elf_load}
use peachos.Elf.Sample.{header, segment}
use peachos.Elf.Stored.{elf_load-Contents}

abbrev garbage : FileDescriptor FatVolume
garbage = record { index = 0; filesystem = fat16_fs drive; private = 0; disk = 0 }

abbrev bytes : List ℕ
bytes = range image 2048 512 ++ range image 2560 88

header-parsed : header_of bytes ≡ some (header 2)
unfolding header_of word dword range
header-parsed = refl

segment-parsed : program_headers 1 (drop 52 bytes) ≡ some (segment ∷ [])
unfolding program_headers phdr_of word dword range
segment-parsed = refl

bytes-Contents : Contents image volume 2 600 bytes
unfolding fat_entry stops header_at
bytes-Contents = more {c = 2} (omega arith) (omega arith) refl (last (omega arith) (omega arith))

elf_load-Contents_example :
    (p' : ℕ) × (q' : ℕ) × (elf_load (some garbage) 0x1000000 0x1001000 a_path (
        files
          (none ∷ [])
          (fat16_fs drive)
          (record { private = streams_at volume 0 0; descriptors = λ x. none; blocks = 4096 ∷ [] }))
      ≡ done (
        ok tt,
        some (
          0x1000000,
          elf_process_pheaders (header 2) (phdr_at (segment ∷ [])) (elf_file_at 0x1001000),
        ),
        [],
        files (none ∷ []) (fat16_fs drive) (record {
          private = streams_at volume p' q';
          descriptors = λ x. if x == 4096 then none else none;
          blocks = [];
        }),
      ))
unfolding get_first_cluster item_at header_at free_slot elf_validate_loaded memcmp
elf_load-Contents_example =
    elf_load-Contents drive image drive-IsAta volume (omega arith) (omega arith) (omega arith) 0 0
      4096 [] (λ x. none) a_part a_path (item_at image 1536) 0 0 0x1000000 0x1001000 bytes
      (header 2) (segment ∷ []) (none ∷ []) garbage a_path-parsed a_part-IsOnly refl (omega arith)
      bytes-Contents (omega arith) (omega arith) (omega arith) (omega arith) refl (omega arith)
      (omega arith) (omega arith) header-parsed refl segment-parsed
