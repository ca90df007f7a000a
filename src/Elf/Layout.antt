-- ===== src/Elf/Layout.antt =====
-- The packed structures of src/loader/formats/elf.h in the bytes of a loaded file, little-endian, and
-- the pointers into it that elfloader.c computes. `none` is a read behind the end of the bytes; an
-- address is 32 bits.
use peachos.Base.{
  Bool, true, false, not, ◌||◌, leb, none, get_elem?, ℕ, zero, suc, ◌+◌, ◌*◌, ◌%◌, ◌^◌, Option,
  some, List, [], ◌∷◌, ◌>>=◌, ◌==◌, if◌then◌else◌, take, drop,
}
use peachos.Fat16.Layout.{word, dword}
use peachos.Elf.{
  ElfHeader, Elf32Phdr, ElfFile, elf_valid_signature, program_virtual_address, pheaders_loop,
}
use peachos.Status.{Result, ok, err, einformat}

pub record Elf32Shdr : Type 0 where
  pub sh_name : ℕ
  pub sh_type : ℕ
  pub sh_flags : ℕ
  pub sh_addr : ℕ
  pub sh_offset : ℕ
  pub sh_size : ℕ
  pub sh_link : ℕ
  pub sh_info : ℕ
  pub sh_addralign : ℕ
  pub sh_entsize : ℕ

abbrev pub phdr_size : ℕ
phdr_size = 32

abbrev pub shdr_size : ℕ
shdr_size = 40

unfoldable pub header_of : List ℕ → Option ElfHeader
unfolding word dword
header_of bytes = do
  e_type ← word bytes 16
  e_machine ← word bytes 18
  e_version ← dword bytes 20
  e_entry ← dword bytes 24
  e_phoff ← dword bytes 28
  e_shoff ← dword bytes 32
  e_flags ← dword bytes 36
  e_ehsize ← word bytes 40
  e_phentsize ← word bytes 42
  e_phnum ← word bytes 44
  e_shentsize ← word bytes 46
  e_shnum ← word bytes 48
  e_shstrndx ← word bytes 50
  some (record {
    e_ident = take 16 bytes;
    e_type = e_type;
    e_machine = e_machine;
    e_version = e_version;
    e_entry = e_entry;
    e_phoff = e_phoff;
    e_shoff = e_shoff;
    e_flags = e_flags;
    e_ehsize = e_ehsize;
    e_phentsize = e_phentsize;
    e_phnum = e_phnum;
    e_shentsize = e_shentsize;
    e_shnum = e_shnum;
    e_shstrndx = e_shstrndx;
  })

unfoldable pub phdr_of : List ℕ → Option Elf32Phdr
unfolding word dword
phdr_of bytes = do
  p_type ← dword bytes 0
  p_offset ← dword bytes 4
  p_vaddr ← dword bytes 8
  p_paddr ← dword bytes 12
  p_filesz ← dword bytes 16
  p_memsz ← dword bytes 20
  p_flags ← dword bytes 24
  p_align ← dword bytes 28
  some (record {
    p_type = p_type;
    p_offset = p_offset;
    p_vaddr = p_vaddr;
    p_paddr = p_paddr;
    p_filesz = p_filesz;
    p_memsz = p_memsz;
    p_flags = p_flags;
    p_align = p_align;
  })

unfoldable pub shdr_of : List ℕ → Option Elf32Shdr
unfolding word dword
shdr_of bytes = do
  sh_name ← dword bytes 0
  sh_type ← dword bytes 4
  sh_flags ← dword bytes 8
  sh_addr ← dword bytes 12
  sh_offset ← dword bytes 16
  sh_size ← dword bytes 20
  sh_link ← dword bytes 24
  sh_info ← dword bytes 28
  sh_addralign ← dword bytes 32
  sh_entsize ← dword bytes 36
  some (record {
    sh_name = sh_name;
    sh_type = sh_type;
    sh_flags = sh_flags;
    sh_addr = sh_addr;
    sh_offset = sh_offset;
    sh_size = sh_size;
    sh_link = sh_link;
    sh_info = sh_info;
    sh_addralign = sh_addralign;
    sh_entsize = sh_entsize;
  })

-- The arrays behind e_phoff and e_shoff in a file loaded at `address`.
unfoldable pub elf_sheader : ℕ → ElfHeader → ℕ
elf_sheader address header = (address + header.e_shoff) % 2 ^ 32

unfoldable pub elf_pheader : ℕ → ElfHeader → ℕ
elf_pheader address header = if header.e_phoff == 0 then 0 else (address + header.e_phoff) % 2 ^ 32

-- An index that the code takes from the 16-bit counts of the header, so not negative.
unfoldable pub elf_program_header : ℕ → ElfHeader → ℕ → ℕ
unfolding elf_pheader
elf_program_header address header index = (elf_pheader address header + index * phdr_size) % 2 ^ 32

unfoldable pub elf_section : ℕ → ElfHeader → ℕ → ℕ
unfolding elf_sheader
elf_section address header index = (elf_sheader address header + index * shdr_size) % 2 ^ 32

unfoldable pub elf_phdr_phys_address : ElfFile → Elf32Phdr → ℕ
elf_phdr_phys_address file phdr = (file.elf_memory + phdr.p_offset) % 2 ^ 32

-- `bytes` stand at `address`.
unfoldable pub elf_str_table : ℕ → List ℕ → ElfHeader → Option ℕ
unfolding shdr_of
elf_str_table address bytes header = do
  section ← shdr_of (drop (header.e_shoff + header.e_shstrndx * shdr_size) bytes)
  some ((address + section.sh_offset) % 2 ^ 32)

-- What elf_process_pheaders reads through elf_program_header, for the first `n` indices.
unfoldable pub program_headers : ℕ → List ℕ → Option (List Elf32Phdr)
program_headers zero bytes = some []
program_headers (suc n) bytes = do
  phdr ← phdr_of bytes
  rest ← program_headers n (drop phdr_size bytes)
  some (phdr ∷ rest)

-- The program header at an index; none but the ones read is asked for.
abbrev pub phdr_at : List Elf32Phdr → ℕ → Elf32Phdr
phdr_at [] i = record {
  p_type = 0;
  p_offset = 0;
  p_vaddr = 0;
  p_paddr = 0;
  p_filesz = 0;
  p_memsz = 0;
  p_flags = 0;
  p_align = 0;
}
phdr_at (phdr ∷ phdrs) zero = phdr
phdr_at (phdr ∷ phdrs) (suc i) = phdr_at phdrs i

-- The && of C: the right side is read only where the left one holds.
abbrev pub and_then : Option Bool → Option Bool → Option Bool
and_then none b = none
and_then (some false) b = some false
and_then (some true) b = b

-- elf_validate_loaded on the bytes of the file, of which it reads no more than the tests ask for.
unfoldable pub validate_contents : List ℕ → Option (Result (Unit {0}))
unfolding word dword
validate_contents bytes = do
  valid ← and_then (elf_valid_signature bytes) (
      and_then (do c ← get_elem? bytes 4; some (c == 0 || c == 1))
        (and_then (do e ← get_elem? bytes 5; some (e == 0 || e == 1))
          (and_then (do e_phoff ← dword bytes 28; some (not (e_phoff == 0)))
            (and_then (do e_type ← word bytes 16; some (e_type == 2))
              (do e_entry ← dword bytes 24; some (leb program_virtual_address e_entry))))))
  some (if valid then ok tt else err einformat)

-- elf_process_loaded on the bytes at elf_memory. The program headers are read once the header has
-- been accepted.
unfoldable pub process_contents : List ℕ → ElfFile → Option (Result (Unit {0}) × ElfFile)
unfolding validate_contents program_headers word dword
process_contents bytes elf_file = do
  res ← validate_contents bytes
  elim res [
    | err e ↦ some (err e, elf_file)
    | ok _ ↦ do
      e_phnum ← word bytes 44
      e_phoff ← dword bytes 28
      phdrs ← program_headers e_phnum (drop e_phoff bytes)
      some (ok tt, pheaders_loop e_phnum 0 (phdr_at phdrs) elf_file)
  ]
