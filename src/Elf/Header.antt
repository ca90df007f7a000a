-- ===== src/Elf/Header.antt =====
-- Which files pass the checks.
use peachos.Base.{ℕ, ◌≤◌, ◌≡◌, ◌≢◌, ◌↔◌, arith, some, List, ◌∷◌}
use peachos.Status.{ok}
use peachos.Memory.{memcmp}
use peachos.Elf.{ElfHeader, elf_validate_loaded, program_virtual_address}

-- elf_validate_loaded accepts a header exactly if it begins with the ELF signature, its class and
-- its encoding are 0 or 1, it has a program header table, and it is an executable whose entry is
-- not below the address where programs are mapped.
pub elf_validate_loaded-ok_iff :
    (header : ElfHeader) (a b c d class encoding : ℕ) (rest : List ℕ)
    → header.e_ident ≡ a ∷ (b ∷ (c ∷ (d ∷ (class ∷ (encoding ∷ rest)))))
    → (elf_validate_loaded header ≡ some (ok tt)) ↔ (
        (a ≡ 0x7f)
        × (b ≡ b'E')
        × (c ≡ b'L')
        × (d ≡ b'F')
        × (class ≤ 1)
        × (encoding ≤ 1)
        × (header.e_phoff ≢ 0)
        × (header.e_type ≡ 2)
        × (program_virtual_address ≤ header.e_entry))
unfolding elf_validate_loaded memcmp
elf_validate_loaded-ok_iff header a b c d class encoding rest e = ground arith
