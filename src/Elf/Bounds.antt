-- ===== src/Elf/Bounds.antt =====
-- The bounds of the loaded segments.
use peachos.Base.{ℕ, ◌+◌, ◌%◌, ◌^◌, ◌<◌, ◌≤◌, ◌≡◌, refl, ◌∙◌, arith}
use mathlib.Core.Path.{subst}
use peachos.Elf.{ElfHeader, Elf32Phdr, pheaders_loop, elf_process_pheaders}
use peachos.Elf.Extreme.{IsLoad, Taken, unset, from}
use peachos.Elf.Scan.{vaddr, vend, base_place, end_place, IsLow, IsHigh, loop_steps, fresh_file}

fresh-IsLow : (memory : ℕ) (phdrs : ℕ → Elf32Phdr) → IsLow memory phdrs 0 (fresh_file memory)
fresh-IsLow memory phdrs = record {
  memory_at = refl;
  least = λ j h. absurd (omega arith);
  base = unset (λ j h. absurd (omega arith)) refl;
}

fresh-IsHigh : (memory : ℕ) (phdrs : ℕ → Elf32Phdr) → IsHigh memory phdrs 0 (fresh_file memory)
fresh-IsHigh memory phdrs = record {
  memory_at = refl;
  greatest = λ j h. absurd (omega arith);
  top = unset (λ j h. absurd (omega arith)) refl;
}

-- A value that was taken came from a segment, if there is one.
taken_from :
    (phdrs : ℕ → Elf32Phdr) (key place : Elf32Phdr → ℕ) (n v p j : ℕ)
    → j < n
    → IsLoad (phdrs j)
    → Taken phdrs key place n v p
    → (k : ℕ) × (k < n) × IsLoad (phdrs k) × (v ≡ key (phdrs k)) × (p ≡ place (phdrs k))
taken_from phdrs key place n v p j inside load (unset none_before z) =
    absurd (none_before j inside load)
taken_from phdrs key place n v p j inside load (from k h l e f) = (k, h, l, e, f)

-- Segments at addresses above 0 that end inside the 32-bit space.
abbrev pub WellPlaced : (ℕ → Elf32Phdr) → Type 0
WellPlaced phdrs =
    (j : ℕ)
    → IsLoad (phdrs j)
    → (0 < (phdrs j).p_vaddr) × ((phdrs j).p_vaddr + (phdrs j).p_filesz < 2 ^ 32)

-- For a fresh file with at least one segment to load, all of them well placed: the virtual base is
-- the least address and the virtual end the greatest end of the segments to load, each reached by
-- one of them, and the physical bounds are where the file has the bytes of those two.
pub elf_process_pheaders-bounds :
    (memory : ℕ) (header : ElfHeader) (phdrs : ℕ → Elf32Phdr) (i : ℕ)
    → WellPlaced phdrs
    → i < header.e_phnum
    → IsLoad (phdrs i)
    → ((k : ℕ) × (k < header.e_phnum)
        × IsLoad (phdrs k)
        × ((elf_process_pheaders header phdrs (fresh_file memory)).virtual_base_address
            ≡ (phdrs k).p_vaddr)
        × ((elf_process_pheaders header phdrs (fresh_file memory)).physical_base_address
            ≡ (memory + (phdrs k).p_offset) % 2 ^ 32))
      × ((k : ℕ) × (k < header.e_phnum)
          × IsLoad (phdrs k)
          × ((elf_process_pheaders header phdrs (fresh_file memory)).virtual_end_address
              ≡ (phdrs k).p_vaddr + (phdrs k).p_filesz)
          × ((elf_process_pheaders header phdrs (fresh_file memory)).physical_end_address
              ≡ (memory + (phdrs k).p_offset + (phdrs k).p_filesz) % 2 ^ 32))
      × ((j : ℕ)
          → j < header.e_phnum
          → IsLoad (phdrs j)
          → ((elf_process_pheaders header phdrs (fresh_file memory)).virtual_base_address
              ≤ (phdrs j).p_vaddr)
            × ((phdrs j).p_vaddr + (phdrs j).p_filesz
                ≤ (elf_process_pheaders header phdrs (fresh_file memory)).virtual_end_address))
unfolding elf_process_pheaders
elf_process_pheaders-bounds memory header phdrs i placed inside load =
    let n = header.e_phnum in
    let file = pheaders_loop n 0 phdrs (fresh_file memory) in
    let counted : 0 + n ≡ n = omega arith in
    let (low, high) =
      subst (λ m. IsLow memory phdrs m file × IsHigh memory phdrs m file) counted
        (loop_steps memory phdrs (λ j l. (placed j l).0) above n 0 (fresh_file memory)
          (fresh-IsLow memory phdrs, fresh-IsHigh memory phdrs)) in
    let b =
      taken_from phdrs vaddr (base_place memory) n file.virtual_base_address
        file.physical_base_address i inside load low.base in
    let (k, h, l, e, f) =
      taken_from phdrs vend (end_place memory) n file.virtual_end_address file.physical_end_address
        i inside load high.top in
    (
      b,
      (k, h, l, e ∙ whole k l, f),
      λ j h' l'. (low.least j h' l', at_most j l' file.virtual_end_address (high.greatest j h' l')),
    )
  where
    whole : (j : ℕ) → IsLoad (phdrs j) → vend (phdrs j) ≡ (phdrs j).p_vaddr + (phdrs j).p_filesz
    whole j l = let p = placed j l in omega arith

    above : (j : ℕ) → IsLoad (phdrs j) → 0 < vend (phdrs j)
    above j l = let p = placed j l in omega arith

    at_most :
        (j : ℕ)
        → IsLoad (phdrs j)
        → (v : ℕ) → vend (phdrs j) ≤ v
        → (phdrs j).p_vaddr + (phdrs j).p_filesz ≤ v
    at_most j l v h = omega (arith, whole j l)
