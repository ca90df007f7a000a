-- ===== src/Elf/Scan.antt =====
-- What the loop over the program headers keeps: the lowest address and the highest end so far.
use peachos.Base.{
  ℕ, zero, suc, ◌+◌, ◌%◌, ◌^◌, ◌<◌, ◌≤◌, ◌≡◌, inl, inr, refl, ap, arith, ◌==◌, ◌||◌, leb,
  Bool-cases, ==_iff,
}
use native.Mathlib.Nat.{add-zero}
use native.Mathlib.Numerals.{add-one}
use peachos.Elf.{
  Elf32Phdr, ElfFile, pt_load, lower_base, raise_end, elf_process_phdr_pt_load, elf_process_pheader,
  pheaders_loop,
}
use peachos.Elf.Extreme.{
  IsLoad, Taken, from, skip, keep, Least-skip, Greatest-skip, Least-new, Least-old, Greatest-new,
  Greatest-old,
}

abbrev pub vaddr : Elf32Phdr → ℕ
vaddr h = h.p_vaddr

abbrev pub vend : Elf32Phdr → ℕ
vend h = (h.p_vaddr + h.p_filesz) % 2 ^ 32

abbrev pub base_place : ℕ → Elf32Phdr → ℕ
base_place memory h = (memory + h.p_offset) % 2 ^ 32

abbrev pub end_place : ℕ → Elf32Phdr → ℕ
end_place memory h = (memory + h.p_offset + h.p_filesz) % 2 ^ 32

-- The lower bound of the segments among the first `i` headers, and where the file has it.
pub record IsLow (memory : ℕ) (phdrs : ℕ → Elf32Phdr) (i : ℕ) (file : ElfFile) : Type 0 where
  pub memory_at : file.elf_memory ≡ memory
  pub least : (j : ℕ) → j < i → IsLoad (phdrs j) → file.virtual_base_address ≤ (phdrs j).p_vaddr
  pub base :
      Taken phdrs vaddr (base_place memory) i file.virtual_base_address file.physical_base_address

-- The upper bound.
pub record IsHigh (memory : ℕ) (phdrs : ℕ → Elf32Phdr) (i : ℕ) (file : ElfFile) : Type 0 where
  pub memory_at : file.elf_memory ≡ memory
  pub greatest : (j : ℕ) → j < i → IsLoad (phdrs j) → vend (phdrs j) ≤ file.virtual_end_address
  pub top : Taken phdrs vend (end_place memory) i file.virtual_end_address file.physical_end_address

module _ (memory : ℕ) (phdrs : ℕ → Elf32Phdr)
    (addresses : (j : ℕ) → IsLoad (phdrs j) → 0 < (phdrs j).p_vaddr)
    (ends : (j : ℕ) → IsLoad (phdrs j) → 0 < vend (phdrs j)) where
  lower_base-IsLow :
      (i : ℕ) (file : ElfFile)
      → IsLoad (phdrs i)
      → IsLow memory phdrs i file
      → IsLow memory phdrs (suc i) (lower_base file (phdrs i))
  unfolding lower_base
  lower_base-IsLow i file load b =
      let v = file.virtual_base_address in
      let p = file.physical_base_address in
      let place = base_place memory in
      elim (Bool-cases (leb (vaddr (phdrs i)) v || v == 0)) [
        | inl h ↦ rw h (record {
          memory_at = b.memory_at;
          least = Least-new phdrs vaddr place addresses i v p b.least b.base h;
          base =
              from i (omega arith) load refl
                (ap (λ (m : ℕ). (m + (phdrs i).p_offset) % 2 ^ 32) b.memory_at);
        })
        | inr h ↦ rw h (record {
          memory_at = b.memory_at;
          least = Least-old phdrs vaddr place addresses i v b.least h;
          base = keep phdrs vaddr place addresses i v p b.base (ground arith);
        })
      ]

  raise_end-IsHigh :
      (i : ℕ) (file : ElfFile)
      → IsLoad (phdrs i)
      → IsHigh memory phdrs i file
      → IsHigh memory phdrs (suc i) (raise_end file (phdrs i))
  unfolding raise_end
  raise_end-IsHigh i file load b =
      let v = file.virtual_end_address in
      let p = file.physical_end_address in
      let place = end_place memory in
      elim (Bool-cases (leb v (vend (phdrs i)) || v == 0)) [
        | inl h ↦ rw h (record {
          memory_at = b.memory_at;
          greatest = Greatest-new phdrs vend place ends i v p b.greatest b.top h;
          top =
              from i (omega arith) load refl (
                ap (λ (m : ℕ). (m + (phdrs i).p_offset + (phdrs i).p_filesz) % 2 ^ 32) b.memory_at);
        })
        | inr h ↦ rw h (record {
          memory_at = b.memory_at;
          greatest = Greatest-old phdrs vend place ends i v b.greatest h;
          top = keep phdrs vend place ends i v p b.top (ground arith);
        })
      ]

  -- Each half keeps what the other is about.
  lower_base-IsHigh :
      (i : ℕ) (file : ElfFile) (h : Elf32Phdr)
      → IsHigh memory phdrs i file
      → IsHigh memory phdrs i (lower_base file h)
  unfolding lower_base
  lower_base-IsHigh i file h b =
      elim (Bool-cases
        (leb h.p_vaddr file.virtual_base_address || file.virtual_base_address == 0)) [
          | inl e ↦ rw e (record { memory_at = b.memory_at; greatest = b.greatest; top = b.top })
          | inr e ↦ rw e b
        ]

  raise_end-IsLow :
      (i : ℕ) (file : ElfFile) (h : Elf32Phdr)
      → IsLow memory phdrs i file
      → IsLow memory phdrs i (raise_end file h)
  unfolding raise_end
  raise_end-IsLow i file h b =
      elim (Bool-cases (leb file.virtual_end_address (vend h) || file.virtual_end_address == 0)) [
        | inl e ↦ rw e (record { memory_at = b.memory_at; least = b.least; base = b.base })
        | inr e ↦ rw e b
      ]

  abbrev Bounded : ℕ → ElfFile → Type 0
  Bounded i file = IsLow memory phdrs i file × IsHigh memory phdrs i file

  header_step :
      (i : ℕ) (file : ElfFile)
      → Bounded i file
      → Bounded (suc i) (elf_process_pheader file (phdrs i))
  unfolding elf_process_pheader elf_process_phdr_pt_load
  header_step i file (low, high) = elim (Bool-cases ((phdrs i).p_type == pt_load)) [
    | inl h ↦
        let load : IsLoad (phdrs i) = (==_iff (phdrs i).p_type pt_load).0 h in
        let lower = lower_base file (phdrs i) in
        rw h (
          raise_end-IsLow (suc i) lower (phdrs i) (lower_base-IsLow i file load low),
          raise_end-IsHigh i lower load (lower_base-IsHigh i file (phdrs i) high),
        )
    | inr h ↦
        let other : ¬ IsLoad (phdrs i) = λ e. ground arith in
        rw h (
          record {
            memory_at = low.memory_at;
            least =
                Least-skip phdrs vaddr (base_place memory) addresses i file.virtual_base_address
                  low.least other;
            base =
                skip phdrs vaddr (base_place memory) addresses i file.virtual_base_address
                  file.physical_base_address low.base other;
          },
          record {
            memory_at = high.memory_at;
            greatest =
                Greatest-skip phdrs vend (end_place memory) ends i file.virtual_end_address
                  high.greatest other;
            top =
                skip phdrs vend (end_place memory) ends i file.virtual_end_address
                  file.physical_end_address high.top other;
          },
        )
  ]

  pub loop_steps :
      (n i : ℕ) (file : ElfFile) → Bounded i file → Bounded (i + n) (pheaders_loop n i phdrs file)
  unfolding pheaders_loop
  loop_steps zero i file b = rw (add-zero i) b
  loop_steps (suc n) i file b =
      let e : i + suc n ≡ i + 1 + n = omega arith in
      rw e (
        loop_steps n (i + 1) (elf_process_pheader file (phdrs i))
          (rw (add-one i) (header_step i file b)))

-- The file object that kzalloc and the read of the file leave.
abbrev pub fresh_file : ℕ → ElfFile
fresh_file memory = record {
  elf_memory = memory;
  virtual_base_address = 0;
  virtual_end_address = 0;
  physical_base_address = 0;
  physical_end_address = 0;
}
