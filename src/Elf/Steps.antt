-- ===== src/Elf/Steps.antt =====
-- The steps of elf_load: fstat of an open descriptor, the bytes put into memory, and the checks on
-- them.
use peachos.Base.{
  ℕ, suc, ◌+◌, ◌<◌, ◌≡◌, ◌≢◌, refl, Option, some, List, [], ◌∷◌, arith, get_elem?, drop, ne→==,
  lt→leb,
}
use peachos.Base.Int.{pos}
use peachos.Run.{done}
use peachos.Status.{Result, ok, err, Errno}
use peachos.Fat16.{FileStat}
use peachos.File.{Filesystem, FileDescriptor, fstat, file_get_descriptor, max_file_descriptors}
use peachos.File.Open.{files}
use peachos.Elf.{ElfHeader, Elf32Phdr, ElfFile, elf_validate_loaded, elf_process_pheaders}
use peachos.Elf.Layout.{header_of, program_headers, phdr_at, validate_contents, process_contents}
use peachos.Elf.Agree.{header_of-IsHeader, validate_contents-header}
use peachos.Elf.Load.{written}

pub fstat-stats :
    {V : Type 0} (fs : Filesystem V) (table : List (Option (FileDescriptor V))) (v v' : V)
    (d : FileDescriptor V) (i : ℕ) (res : Result FileStat)
    → get_elem? table i ≡ some (some d)
    → i + 1 < max_file_descriptors
    → d.filesystem.fs_stat v d.private ≡ done (res, v')
    → fstat (pos (suc i)) (files table fs v) ≡ done (res, files table fs v')
unfolding fstat file_get_descriptor
fstat-stats fs table v v' d i res there small stats =
    rw (lt→leb max_file_descriptors (suc i) (omega arith), there, stats) refl

pub process_contents-accepted :
    (bytes : List ℕ) (header : ElfHeader) (phdrs : List Elf32Phdr) (file : ElfFile)
    → header_of bytes ≡ some header
    → elf_validate_loaded header ≡ some (ok tt)
    → program_headers header.e_phnum (drop header.e_phoff bytes) ≡ some phdrs
    → process_contents bytes file ≡ some (ok tt, elf_process_pheaders header (phdr_at phdrs) file)
unfolding process_contents elf_process_pheaders
process_contents-accepted bytes header phdrs file parsed valid read =
    let h = header_of-IsHeader bytes header parsed in
    rw (validate_contents-header bytes header h, valid, h.phnum, h.phoff, read) refl

pub process_contents-rejected :
    (bytes : List ℕ) (file : ElfFile) (e : Errno)
    → validate_contents bytes ≡ some (err e)
    → process_contents bytes file ≡ some (err e, file)
unfolding process_contents
process_contents-rejected bytes file e refused = rw refused refl

pub written-done : (address : ℕ) (bytes : List ℕ) → address ≢ 0 → written address bytes ≡ done tt
unfolding written
written-done address [] real = refl
written-done address (b ∷ bytes) real = rw (ne→== address 0 real) refl
