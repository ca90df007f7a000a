-- ===== src/Elf/LoadTests.antt =====
-- elf_load on a volume with one file, `0:/a`, of 84 bytes: a header and one segment.
use peachos.Base.{ℕ, ◌≡◌, refl, Option, none, some, List, [], ◌∷◌, arith, replicate}
use peachos.Base.Int.{pos}
use peachos.Run.{done}
use peachos.Status.{ok, err, einformat}
use peachos.Memory.{memcmp}
use peachos.Stringos.{strlen, strnlen, isdigit, tonumericdigit}
use peachos.PathParser.{parse, get_drive_by_path, path_valid_format, get_path_part}
use peachos.Fat16.Layout.{word, dword}
use peachos.File.{Filesystem, FileDescriptor, free_slot}
use peachos.File.Open.{files}
use peachos.Elf.{elf_valid_signature}
use peachos.Elf.Layout.{validate_contents}
use peachos.Elf.Sample.{contents}
use peachos.Elf.Load.{elf_load}
use peachos.Elf.Loading.{LoadError, is_refused, elf_load-fails}

-- The volume is the byte of the type.
abbrev one_file : Filesystem ℕ
one_file = record {
  fs_open = λ v path mode. done (4096, v);
  fs_read = λ v p size nmemb. done (ok nmemb, contents v, v);
  fs_seek = λ v p offset whence. done (ok tt, v);
  fs_stat = λ v p. done (ok (record { flags = 0; filesize = 84 }), v);
  fs_close = λ v p. done (ok tt, v);
}

abbrev descriptor : FileDescriptor ℕ
descriptor = record { index = 1; filesystem = one_file; private = 4096; disk = 0 }

abbrev path : List ℕ
path = b'0' ∷ b':' ∷ b'/' ∷ b'a' ∷ 0 ∷ []

abbrev part : List ℕ
part = b'a' ∷ replicate 107 0

path-parsed : parse path ≡ some (some (record { drive_no = pos 0; parts = part ∷ [] }))
unfolding parse strlen get_drive_by_path path_valid_format strnlen memcmp isdigit tonumericdigit
    get_path_part
path-parsed = refl

abbrev two : List (Option (FileDescriptor ℕ))
two = some descriptor ∷ none ∷ []

-- A relocatable file.
elf_load-fails_example :
    elf_load (some descriptor) 0x1000000 0x1001000 path (files two one_file 1)
    ≡ done (err einformat, none, 0x1001000 ∷ 0x1000000 ∷ [], files two one_file 1)
unfolding free_slot validate_contents elf_valid_signature word dword memcmp
elf_load-fails_example =
    elf_load-fails one_file two 1 1 1 1 path part [] descriptor 4096 1 0x1000000 0x1001000 einformat
      (0x1001000 ∷ 0x1000000 ∷ []) path-parsed refl (omega arith) refl (omega arith) refl
      (omega arith) (omega arith) refused
  where
    refused : LoadError one_file 1 1 4096 0x1000000 0x1001000 einformat (0x1001000 ∷ 0x1000000 ∷ [])
    refused =
        is_refused {stat = record { flags = 0; filesize = 84 }} {v2 = 1} {n = 1}
          {bytes = contents 1} refl (omega arith) refl refl

-- A file of one byte that is no ELF file.
short_contents : validate_contents (b'#' ∷ []) ≡ some (err einformat)
unfolding validate_contents elf_valid_signature memcmp
short_contents = refl
