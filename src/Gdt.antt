-- ===== src/Gdt.antt =====
-- src/gdt/gdt.c: segment descriptors and their eight bytes. A descriptor of the table is written in
-- full, so what it held before does not matter.
pub mod Decode
mod Tests
use peachos.Base.{
  ℕ, ◌-◌, ◌/◌, ◌%◌, ◌^◌, bit_and, bit_or, List, [], ◌∷◌, Bool, not, ◌&&◌, ltb, ◌==◌, if◌then◌else◌,
}
use peachos.Run.{Run, done, fault, panic, ◌>>=◌}

pub record GdtStructured : Type 0 where
  pub base : ℕ
  pub limit : ℕ
  pub type : ℕ

-- The granularity byte and the limit as it is encoded.
unfoldable pub scale_limit : ℕ → ℕ × ℕ
scale_limit limit = if ltb 65536 limit then (0xC0, limit / 2 ^ 12) else (0x40, limit)

unfoldable pub encode_gdt_entry : GdtStructured → Run (List ℕ)
unfolding scale_limit
encode_gdt_entry source =
    let (flags, limit) = scale_limit source.limit in
    if ltb 65536 source.limit && not (bit_and source.limit 0xFFF == 0xFFF)
    then panic
    else done (
        bit_and limit 0xFF
        ∷ bit_and (limit / 2 ^ 8) 0xFF
        ∷ bit_and source.base 0xFF
        ∷ bit_and (source.base / 2 ^ 8) 0xFF
        ∷ bit_and (source.base / 2 ^ 16) 0xFF
        ∷ source.type
        ∷ bit_or flags (bit_and (limit / 2 ^ 16) 0x0F)
        ∷ bit_and (source.base / 2 ^ 24) 0xFF
        ∷ [])

-- The loop over the entries.
unfoldable pub gdt_structured_to_gdt : List GdtStructured → Run (List (List ℕ))
gdt_structured_to_gdt [] = done []
gdt_structured_to_gdt (source ∷ sources) = do
  entry ← encode_gdt_entry source
  entries ← gdt_structured_to_gdt sources
  done (entry ∷ entries)

-- src/kernel.c: the table of the kernel, with the task state segment at `tss`.
unfoldable pub gdt_structured : ℕ → List GdtStructured
gdt_structured tss =
    record { base = 0; limit = 0; type = 0 }
    ∷ record { base = 0; limit = 0xffffffff; type = 0x9a }
    ∷ record { base = 0; limit = 0xffffffff; type = 0x92 }
    ∷ record { base = 0; limit = 0xffffffff; type = 0xf8 }
    ∷ record { base = 0; limit = 0xffffffff; type = 0xf2 }
    ∷ record { base = tss; limit = 108; type = 0xE9 }
    ∷ []
