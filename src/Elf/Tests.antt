-- ===== src/Elf/Tests.antt =====
-- A program of two segments, the second in front of the first.
use peachos.Base.{ℕ, zero, suc, ◌+◌, ◌%◌, ◌^◌, ◌<◌, ◌≤◌, ◌≡◌, ◌≢◌, ◌↔◌, refl, arith, some, [], ◌∷◌}
use peachos.Status.{ok}
use peachos.Elf.{
  ElfHeader, Elf32Phdr, elf_validate_loaded, elf_process_pheaders, program_virtual_address,
}
use peachos.Elf.Header.{elf_validate_loaded-ok_iff}
use peachos.Elf.Extreme.{IsLoad}
use peachos.Elf.Bounds.{WellPlaced, elf_process_pheaders-bounds}
use peachos.Elf.Scan.{fresh_file}

abbrev header : ElfHeader
header = record {
  e_ident = 0x7f ∷ b'E' ∷ b'L' ∷ b'F' ∷ 1 ∷ 1 ∷ 1 ∷ 0 ∷ 0 ∷ 0 ∷ 0 ∷ 0 ∷ 0 ∷ 0 ∷ 0 ∷ 0 ∷ [];
  e_type = 2;
  e_machine = 3;
  e_version = 1;
  e_entry = 0x401000;
  e_phoff = 52;
  e_shoff = 0;
  e_flags = 0;
  e_ehsize = 52;
  e_phentsize = 32;
  e_phnum = 2;
  e_shentsize = 40;
  e_shnum = 0;
  e_shstrndx = 0;
}

abbrev segment : ℕ → ℕ → ℕ → Elf32Phdr
segment offset vaddr size = record {
  p_type = 1;
  p_offset = offset;
  p_vaddr = vaddr;
  p_paddr = vaddr;
  p_filesz = size;
  p_memsz = size;
  p_flags = 5;
  p_align = 4096;
}

abbrev phdrs : ℕ → Elf32Phdr
phdrs zero = segment 0x1000 0x401000 0x200
phdrs (suc i) = segment 0x2000 0x400000 0x100

phdrs-WellPlaced : WellPlaced phdrs
phdrs-WellPlaced zero l = (omega arith, omega arith)
phdrs-WellPlaced (suc j) l = (omega arith, omega arith)

elf_validate_loaded-ok_iff_example : (elf_validate_loaded header ≡ some (ok tt)) ↔ (
    (◌≡◌ {A = ℕ} 0x7f 0x7f)
    × (◌≡◌ {A = ℕ} b'E' b'E')
    × (◌≡◌ {A = ℕ} b'L' b'L')
    × (◌≡◌ {A = ℕ} b'F' b'F')
    × (1 ≤ 1)
    × (1 ≤ 1)
    × (header.e_phoff ≢ 0)
    × (header.e_type ≡ 2)
    × (program_virtual_address ≤ header.e_entry))
elf_validate_loaded-ok_iff_example =
    elf_validate_loaded-ok_iff header 0x7f b'E' b'L' b'F' 1 1
      (1 ∷ 0 ∷ 0 ∷ 0 ∷ 0 ∷ 0 ∷ 0 ∷ 0 ∷ 0 ∷ 0 ∷ []) refl

elf_process_pheaders-bounds_example :
    ((k : ℕ) × (k < 2)
      × IsLoad (phdrs k)
      × ((elf_process_pheaders header phdrs (fresh_file 0x1000000)).virtual_base_address
          ≡ (phdrs k).p_vaddr)
      × ((elf_process_pheaders header phdrs (fresh_file 0x1000000)).physical_base_address
          ≡ (0x1000000 + (phdrs k).p_offset) % 2 ^ 32))
    × ((k : ℕ) × (k < 2)
        × IsLoad (phdrs k)
        × ((elf_process_pheaders header phdrs (fresh_file 0x1000000)).virtual_end_address
            ≡ (phdrs k).p_vaddr + (phdrs k).p_filesz)
        × ((elf_process_pheaders header phdrs (fresh_file 0x1000000)).physical_end_address
            ≡ (0x1000000 + (phdrs k).p_offset + (phdrs k).p_filesz) % 2 ^ 32))
    × ((j : ℕ)
        → j < 2
        → IsLoad (phdrs j)
        → ((elf_process_pheaders header phdrs (fresh_file 0x1000000)).virtual_base_address
            ≤ (phdrs j).p_vaddr)
          × ((phdrs j).p_vaddr + (phdrs j).p_filesz
              ≤ (elf_process_pheaders header phdrs (fresh_file 0x1000000)).virtual_end_address))
elf_process_pheaders-bounds_example =
    elf_process_pheaders-bounds 0x1000000 header phdrs 0 phdrs-WellPlaced (omega arith) refl
