-- ===== src/Gdt/Tests.antt =====
-- The kernel's own table.
use mathlib.Core.List.{map}
use peachos.Base.{ℕ, ◌≡◌, inl, inr, refl, List, arith}
use peachos.Run.{done}
use peachos.Gdt.{gdt_structured, gdt_structured_to_gdt}
use peachos.Gdt.Decode.{decode, AllEncodable, gdt_structured_to_gdt-decodes}

kernel-AllEncodable : AllEncodable (gdt_structured 0x200000)
unfolding gdt_structured
kernel-AllEncodable = (
  record {
    base_fits = omega arith;
    type_fits = omega arith;
    limit_fits = omega arith;
    pages = inl (omega arith);
  },
  (
    record {
      base_fits = omega arith;
      type_fits = omega arith;
      limit_fits = omega arith;
      pages = inr refl;
    },
    (
      record {
        base_fits = omega arith;
        type_fits = omega arith;
        limit_fits = omega arith;
        pages = inr refl;
      },
      (
        record {
          base_fits = omega arith;
          type_fits = omega arith;
          limit_fits = omega arith;
          pages = inr refl;
        },
        (
          record {
            base_fits = omega arith;
            type_fits = omega arith;
            limit_fits = omega arith;
            pages = inr refl;
          },
          (
            record {
              base_fits = omega arith;
              type_fits = omega arith;
              limit_fits = omega arith;
              pages = inl (omega arith);
            },
            tt,
          ),
        ),
      ),
    ),
  ),
)

gdt_structured_to_gdt-decodes_example :
    (table : List (List ℕ)) × (gdt_structured_to_gdt (gdt_structured 0x200000) ≡ done table)
    × (map decode table ≡ gdt_structured 0x200000)
gdt_structured_to_gdt-decodes_example =
    gdt_structured_to_gdt-decodes (gdt_structured 0x200000) kernel-AllEncodable
