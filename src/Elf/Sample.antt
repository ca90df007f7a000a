-- ===== src/Elf/Sample.antt =====
-- An executable of 84 bytes, the header and one segment, as the tests use it.
use peachos.Base.{ℕ, ◌+◌, ◌*◌, ◌^◌, ◌≡◌, refl, some, List, [], ◌∷◌, ◌++◌, replicate}
use peachos.Elf.{ElfHeader, Elf32Phdr}
use peachos.Elf.Layout.{header_of}

-- The byte of e_type is given.
abbrev pub contents : ℕ → List ℕ
contents type =
    (0x7F ∷ b'E' ∷ b'L' ∷ b'F' ∷ 1 ∷ 1 ∷ 1 ∷ [])
    ++ (replicate 9 0
        ++ (type ∷ 0 ∷ 3 ∷ 0 ∷ 1 ∷ 0 ∷ 0 ∷ 0 ∷ 0 ∷ 0 ∷ 0x40 ∷ 0 ∷ 52 ∷ 0 ∷ 0 ∷ 0 ∷ [])
        ++ (replicate 8 0
            ++ (52 ∷ 0 ∷ 32 ∷ 0 ∷ 1 ∷ 0 ∷ 40 ∷ 0 ∷ 0 ∷ 0 ∷ 0 ∷ 0 ∷ [])
            ++ (1 ∷ 0 ∷ 0 ∷ 0 ∷ 0 ∷ 0 ∷ 0 ∷ 0 ∷ 0 ∷ 0 ∷ 0x40 ∷ 0 ∷ 0 ∷ 0 ∷ 0x40 ∷ 0 ∷ [])
            ++ (84 ∷ 0 ∷ 0 ∷ 0 ∷ 84 ∷ 0 ∷ 0 ∷ 0 ∷ 5 ∷ 0 ∷ 0 ∷ 0 ∷ 0 ∷ 0x10 ∷ 0 ∷ 0 ∷ [])))

abbrev pub header : ℕ → ElfHeader
header type = record {
  e_ident = 0x7F ∷ b'E' ∷ b'L' ∷ b'F' ∷ 1 ∷ 1 ∷ 1 ∷ replicate 9 0;
  e_type = type;
  e_machine = 3;
  e_version = 1;
  e_entry = 0x400000;
  e_phoff = 52;
  e_shoff = 0;
  e_flags = 0;
  e_ehsize = 52;
  e_phentsize = 32;
  e_phnum = 1;
  e_shentsize = 40;
  e_shnum = 0;
  e_shstrndx = 0;
}

abbrev pub segment : Elf32Phdr
segment = record {
  p_type = 1;
  p_offset = 0;
  p_vaddr = 0x400000;
  p_paddr = 0x400000;
  p_filesz = 84;
  p_memsz = 84;
  p_flags = 5;
  p_align = 0x1000;
}

pub header-parsed : (type : ℕ) → header_of (contents type) ≡ some (header (type + 2 ^ 8 * 0))
unfolding header_of
header-parsed type = refl
