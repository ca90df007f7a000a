-- ===== src/Elf.antt =====
-- src/loader/formats/elfloader.c: the checks on the header of a loaded file and the address ranges
-- of its segments. What the file holds is a parameter: its header, and the program header at each
-- index behind e_phoff. A file is its address and the four bounds.
pub mod Header
pub mod Extreme
pub mod Scan
pub mod Bounds
pub mod Layout
pub mod Agree
pub mod Load
pub mod Steps
pub mod Loading
pub mod Stored
pub mod Sample
mod Tests
mod LoadTests
mod StoredTests
use peachos.Base.{
  ℕ, zero, suc, ◌+◌, ◌%◌, ◌^◌, Bool, true, false, not, ◌||◌, ◌&&◌, Option, none, some, List, [],
  ◌∷◌, ◌==◌, leb, if◌then◌else◌, get_elem?, ◌>>=◌,
}
use peachos.Base.Int.{ℤ, pos, negsuc}
use peachos.Status.{Result, ok, err, einformat}
use peachos.Memory.{memcmp}

pub record ElfHeader : Type 0 where
  pub e_ident : List ℕ
  pub e_type : ℕ
  pub e_machine : ℕ
  pub e_version : ℕ
  pub e_entry : ℕ
  pub e_phoff : ℕ
  pub e_shoff : ℕ
  pub e_flags : ℕ
  pub e_ehsize : ℕ
  pub e_phentsize : ℕ
  pub e_phnum : ℕ
  pub e_shentsize : ℕ
  pub e_shnum : ℕ
  pub e_shstrndx : ℕ

pub record Elf32Phdr : Type 0 where
  pub p_type : ℕ
  pub p_offset : ℕ
  pub p_vaddr : ℕ
  pub p_paddr : ℕ
  pub p_filesz : ℕ
  pub p_memsz : ℕ
  pub p_flags : ℕ
  pub p_align : ℕ

pub record ElfFile : Type 0 where
  pub elf_memory : ℕ
  pub virtual_base_address : ℕ
  pub virtual_end_address : ℕ
  pub physical_base_address : ℕ
  pub physical_end_address : ℕ

abbrev pub pt_load : ℕ
pt_load = 1

abbrev pub program_virtual_address : ℕ
program_virtual_address = 0x400000

abbrev pub elf_signature : List ℕ
elf_signature = 0x7f ∷ b'E' ∷ b'L' ∷ b'F' ∷ []

abbrev is_zero : ℤ → Bool
is_zero (pos zero) = true
is_zero _ = false

unfoldable pub elf_valid_signature : List ℕ → Option Bool
elf_valid_signature buffer = do r ← memcmp buffer elf_signature 4; some (is_zero r)

unfoldable pub elf_valid_class : ElfHeader → Option Bool
elf_valid_class header = do c ← get_elem? header.e_ident 4; some (c == 0 || c == 1)

unfoldable pub elf_valid_encoding : ElfHeader → Option Bool
elf_valid_encoding header = do c ← get_elem? header.e_ident 5; some (c == 0 || c == 1)

unfoldable pub elf_is_executable : ElfHeader → Bool
elf_is_executable header = header.e_type == 2 && leb program_virtual_address header.e_entry

unfoldable pub elf_has_program_header : ElfHeader → Bool
elf_has_program_header header = not (header.e_phoff == 0)

-- The header begins with e_ident, 16 bytes.
unfoldable pub elf_validate_loaded : ElfHeader → Option (Result (Unit {0}))
unfolding elf_valid_signature elf_valid_class elf_valid_encoding elf_is_executable
    elf_has_program_header
elf_validate_loaded header = do
  signature ← elf_valid_signature header.e_ident
  class ← elf_valid_class header
  encoding ← elf_valid_encoding header
  some (
      if signature
        && (class && (encoding && (elf_has_program_header header && elf_is_executable header)))
      then ok tt
      else err einformat)

-- The first `if` of elf_process_phdr_pt_load.
unfoldable pub lower_base : ElfFile → Elf32Phdr → ElfFile
lower_base file phdr =
    if leb phdr.p_vaddr file.virtual_base_address || file.virtual_base_address == 0
    then record file {
      virtual_base_address = phdr.p_vaddr;
      physical_base_address = (file.elf_memory + phdr.p_offset) % 2 ^ 32;
    }
    else file

-- The second.
unfoldable pub raise_end : ElfFile → Elf32Phdr → ElfFile
raise_end file phdr =
    let end_virtual_address = (phdr.p_vaddr + phdr.p_filesz) % 2 ^ 32 in
    if leb file.virtual_end_address end_virtual_address || file.virtual_end_address == 0
    then record file {
      virtual_end_address = end_virtual_address;
      physical_end_address = (file.elf_memory + phdr.p_offset + phdr.p_filesz) % 2 ^ 32;
    }
    else file

unfoldable pub elf_process_phdr_pt_load : ElfFile → Elf32Phdr → ElfFile
elf_process_phdr_pt_load file phdr = raise_end (lower_base file phdr) phdr

unfoldable pub elf_process_pheader : ElfFile → Elf32Phdr → ElfFile
elf_process_pheader file phdr =
    if phdr.p_type == pt_load then elf_process_phdr_pt_load file phdr else file

-- The loop over the program headers, with the rounds left.
unfoldable pub pheaders_loop : ℕ → ℕ → (ℕ → Elf32Phdr) → ElfFile → ElfFile
pheaders_loop zero i phdrs file = file
pheaders_loop (suc n) i phdrs file =
    pheaders_loop n (i + 1) phdrs (elf_process_pheader file (phdrs i))

unfoldable pub elf_process_pheaders : ElfHeader → (ℕ → Elf32Phdr) → ElfFile → ElfFile
elf_process_pheaders header phdrs file = pheaders_loop header.e_phnum 0 phdrs file

unfoldable pub elf_process_loaded :
    ElfHeader → (ℕ → Elf32Phdr) → ElfFile → Option (Result (Unit {0}) × ElfFile)
elf_process_loaded header phdrs file = do
  res ← elf_validate_loaded header
  some (elim res [ err e ↦ (err e, file) | ok _ ↦ (ok tt, elf_process_pheaders header phdrs file) ])
