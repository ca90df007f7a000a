-- ===== src/Gdt/Decode.antt =====
-- The processor's reading of a segment descriptor.
use mathlib.Core.List.{map}
use mathlib.Core.Path.{ap₂}
use peachos.Base.{
  ℕ, ◌+◌, ◌*◌, ◌/◌, ◌%◌, ◌^◌, ◌<◌, ◌≤◌, ◌≡◌, ◌≢◌, ◌⊎◌, inl, inr, refl, ◌∙◌, bit_and, bit_or, List,
  [], ◌∷◌, ltb, if◌then◌else◌, arith, Bool-cases, lt→ltb, ltb→lt, le→ltb, ne→==,
}
use peachos.Base.Bits.{bit_and_low, bit_or_disjoint}
use peachos.Run.{done, panic}
use peachos.Gdt.{GdtStructured, encode_gdt_entry, gdt_structured_to_gdt}

-- Base, limit and type. With the granularity bit the limit counts pages of 4096 bytes.
abbrev pub decode : List ℕ → GdtStructured
decode (a ∷ b ∷ c ∷ d ∷ e ∷ f ∷ g ∷ h ∷ []) =
    let limit = a + 2 ^ 8 * b + 2 ^ 16 * (g % 16) in
    record {
      base = c + 2 ^ 8 * d + 2 ^ 16 * e + 2 ^ 24 * h;
      limit = if ltb g 128 then limit else limit * 4096 + 4095;
      type = f;
    }
decode _ = record { base = 0; limit = 0; type = 0 }

-- What fits the fields: a 32-bit base, an 8-bit type, and a limit that is at most 65536 or a
-- 32-bit number of whole pages.
pub record IsEncodable (source : GdtStructured) : Type 0 where
  pub base_fits : source.base < 2 ^ 32
  pub type_fits : source.type < 2 ^ 8
  pub limit_fits : source.limit < 2 ^ 32
  pub pages : (source.limit ≤ 65536) ⊎ (source.limit % 4096 ≡ 4095)

low_byte : (a : ℕ) → bit_and a 0xFF ≡ a % 256
low_byte a = bit_and_low 8 a

low_nibble : (a : ℕ) → bit_and a 0x0F ≡ a % 16
low_nibble a = bit_and_low 4 a

-- The flags stand above the nibble of the limit.
flags_lem : (flags n : ℕ) → (flags ≡ 0x40) ⊎ (flags ≡ 0xC0) → n < 16 → bit_or flags n ≡ flags + n
flags_lem flags n (inl e) h = rw e (bit_or_disjoint 4 4 n h)
flags_lem flags n (inr e) h = rw e (bit_or_disjoint 4 12 n h)

abbrev bytes : ℕ → ℕ → GdtStructured → List ℕ
bytes flags limit source =
    limit % 256
    ∷ limit / 2 ^ 8 % 256
    ∷ source.base % 256
    ∷ source.base / 2 ^ 8 % 256
    ∷ source.base / 2 ^ 16 % 256
    ∷ source.type
    ∷ (flags + limit / 2 ^ 16 % 16)
    ∷ source.base / 2 ^ 24 % 256
    ∷ []

small_lem :
    (source : GdtStructured)
    → source.limit ≤ 65536
    → encode_gdt_entry source ≡ done (bytes 0x40 source.limit source)
unfolding encode_gdt_entry
small_lem source h =
    let l = source.limit in
    rw
      (
        le→ltb 65536 l h,
        low_byte l,
        low_byte (l / 2 ^ 8),
        low_byte source.base,
        low_byte (source.base / 2 ^ 8),
        low_byte (source.base / 2 ^ 16),
        low_byte (source.base / 2 ^ 24),
        low_nibble (l / 2 ^ 16),
        flags_lem 0x40 (l / 2 ^ 16 % 16) (inl refl) (omega arith),
      )
      refl

large_lem :
    (source : GdtStructured)
    → 65536 < source.limit
    → source.limit % 4096 ≡ 4095
    → encode_gdt_entry source ≡ done (bytes 0xC0 (source.limit / 2 ^ 12) source)
unfolding encode_gdt_entry
large_lem source h e =
    let l = source.limit / 2 ^ 12 in
    let ones : bit_and source.limit 0xFFF ≡ 0xFFF = bit_and_low 12 source.limit ∙ e in
    rw
      (
        lt→ltb 65536 source.limit h,
        ones,
        low_byte l,
        low_byte (l / 2 ^ 8),
        low_byte source.base,
        low_byte (source.base / 2 ^ 8),
        low_byte (source.base / 2 ^ 16),
        low_byte (source.base / 2 ^ 24),
        low_nibble (l / 2 ^ 16),
        flags_lem 0xC0 (l / 2 ^ 16 % 16) (inr refl) (omega arith),
      )
      refl

base_lem :
    (base : ℕ)
    → base < 2 ^ 32
    → base % 256
        + 256 * (base / 2 ^ 8 % 256)
        + 2 ^ 16 * (base / 2 ^ 16 % 256)
        + 2 ^ 24 * (base / 2 ^ 24 % 256)
      ≡ base
base_lem base h = omega arith

-- A limit of 20 bits under flags that end in four zeros.
limit_lem :
    (flags limit : ℕ)
    → flags % 16 ≡ 0
    → limit < 2 ^ 20
    → limit % 256 + 256 * (limit / 2 ^ 8 % 256) + 2 ^ 16 * ((flags + limit / 2 ^ 16 % 16) % 16)
      ≡ limit
limit_lem flags limit e h = omega arith

decode-small :
    (source : GdtStructured)
    → source.base < 2 ^ 32
    → source.limit ≤ 65536
    → decode (bytes 0x40 source.limit source) ≡ source
decode-small source b h =
    let l = source.limit in
    rw
      (
        lt→ltb (0x40 + l / 2 ^ 16 % 16) 128 (omega arith),
        base_lem source.base b,
        limit_lem 0x40 l refl (omega arith),
      )
      refl

decode-large :
    (source : GdtStructured)
    → source.base < 2 ^ 32
    → source.limit < 2 ^ 32
    → source.limit % 4096 ≡ 4095
    → decode (bytes 0xC0 (source.limit / 2 ^ 12) source) ≡ source
decode-large source b h e =
    let l = source.limit / 2 ^ 12 in
    let whole : l * 4096 + 4095 ≡ source.limit = omega arith in
    rw
      (
        le→ltb (0xC0 + l / 2 ^ 16 % 16) 128 (omega arith),
        base_lem source.base b,
        limit_lem 0xC0 l refl (omega arith),
        whole,
      )
      refl

encode-decode :
    (source : GdtStructured)
    → IsEncodable source
    → (entry : List ℕ) × (encode_gdt_entry source ≡ done entry) × (decode entry ≡ source)
encode-decode source ok = elim (Bool-cases (ltb 65536 source.limit)) [
  | inl h ↦
      let long = ltb→lt 65536 source.limit h in
      let whole : source.limit % 4096 ≡ 4095 = omega arith in
      (
        bytes 0xC0 (source.limit / 2 ^ 12) source,
        large_lem source long whole,
        decode-large source ok.base_fits ok.limit_fits whole,
      )
  | inr h ↦
      let short : source.limit ≤ 65536 = ground arith in
      (
        bytes 0x40 source.limit source,
        small_lem source short,
        decode-small source ok.base_fits short,
      )
]

abbrev pub AllEncodable : List GdtStructured → Type 0
AllEncodable [] = Unit
AllEncodable (s ∷ ss) = IsEncodable s × AllEncodable ss

-- Every table of encodable segments is encoded without a panic, and the processor reads
-- the same bases, limits and types from the bytes.
pub gdt_structured_to_gdt-decodes :
    (sources : List GdtStructured)
    → AllEncodable sources
    → (table : List (List ℕ)) × (gdt_structured_to_gdt sources ≡ done table)
      × (map decode table ≡ sources)
unfolding gdt_structured_to_gdt
gdt_structured_to_gdt-decodes [] h = ([], refl, refl)
gdt_structured_to_gdt-decodes (s ∷ ss) (h, hs) =
    let (entry, e, d) = encode-decode s h in
    let (table, es, ds) = gdt_structured_to_gdt-decodes ss hs in
    (entry ∷ table, rw (e, es) refl, ap₂ (λ a b. a ∷ b) d ds)

-- A larger limit that is no whole number of pages stops the kernel.
pub encode_gdt_entry-panics :
    (source : GdtStructured)
    → 65536 < source.limit
    → source.limit % 4096 ≢ 4095
    → encode_gdt_entry source ≡ panic
unfolding encode_gdt_entry
encode_gdt_entry-panics source h e =
    let ones : bit_and source.limit 0xFFF ≡ source.limit % 4096 = bit_and_low 12 source.limit in
    rw (lt→ltb 65536 source.limit h, ones, ne→== (source.limit % 4096) 0xFFF e) refl
