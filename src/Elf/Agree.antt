-- ===== src/Elf/Agree.antt =====
-- The header as a record against the bytes it is read from.
use mathlib.Core.Option.{some-injective}
use peachos.Base.{
  ◌==◌, ◌||◌, not, leb, ℕ, ◌≡◌, refl, ap, ◌∙◌, Bool, true, false, ◌&&◌, Option, some, none, List,
  [], ◌∷◌, take, ◌>>=◌, if◌then◌else◌,
}
use peachos.Status.{Result, ok, err, einformat}
use peachos.Memory.{memcmp}
use peachos.Fat16.Layout.{word, dword}
use peachos.Elf.{
  ElfHeader, elf_valid_signature, elf_valid_class, elf_valid_encoding, elf_is_executable,
  elf_has_program_header, elf_validate_loaded, program_virtual_address,
}
use peachos.Elf.Layout.{header_of, and_then, validate_contents}

bind-some :
    {A B : Type 0} (o : Option A) (f : A → Option B) (b : B)
    → (o >>= f) ≡ some b
    → (a : A) × (o ≡ some a) × (f a ≡ some b)
bind-some none f b e = absurd (cc)
bind-some (some a) f b e = (a, refl, e)

-- The fields that the loader reads.
pub record IsHeader (bytes : List ℕ) (header : ElfHeader) : Type 0 where
  pub ident : take 16 bytes ≡ header.e_ident
  pub type : word bytes 16 ≡ some header.e_type
  pub entry : dword bytes 24 ≡ some header.e_entry
  pub phoff : dword bytes 28 ≡ some header.e_phoff
  pub phnum : word bytes 44 ≡ some header.e_phnum

pub header_of-IsHeader :
    (bytes : List ℕ) (header : ElfHeader) → header_of bytes ≡ some header → IsHeader bytes header
unfolding header_of
header_of-IsHeader bytes header e =
    let (t, at, e1) = bind-some (word bytes 16) _ header e in
    let (m, am, e2) = bind-some (word bytes 18) _ header e1 in
    let (v, av, e3) = bind-some (dword bytes 20) _ header e2 in
    let (n, an, e4) = bind-some (dword bytes 24) _ header e3 in
    let (o, ao, e5) = bind-some (dword bytes 28) _ header e4 in
    let (s, as', e6) = bind-some (dword bytes 32) _ header e5 in
    let (f, af, e7) = bind-some (dword bytes 36) _ header e6 in
    let (z, az, e8) = bind-some (word bytes 40) _ header e7 in
    let (pz, apz, e9) = bind-some (word bytes 42) _ header e8 in
    let (pn, apn, e10) = bind-some (word bytes 44) _ header e9 in
    let (sz, asz, e11) = bind-some (word bytes 46) _ header e10 in
    let (sn, asn, e12) = bind-some (word bytes 48) _ header e11 in
    let (x, ax, e13) = bind-some (word bytes 50) _ header e12 in
    let same = some-injective _ header e13 in
    record {
      ident = ap (λ (h : ElfHeader). h.e_ident) same;
      type = at ∙ ap (λ (h : ElfHeader). some h.e_type) same;
      entry = an ∙ ap (λ (h : ElfHeader). some h.e_entry) same;
      phoff = ao ∙ ap (λ (h : ElfHeader). some h.e_phoff) same;
      phnum = apn ∙ ap (λ (h : ElfHeader). some h.e_phnum) same;
    }

abbrev verdict : Bool → Result (Unit {0})
verdict valid = if valid then ok tt else err einformat

and_then-all :
    (o : Option Bool) (c e p t x : Bool)
    → (do
      valid ←
          and_then o
            (and_then (some c) (and_then (some e) (and_then (some p) (and_then (some t) (some x)))))
      some (verdict valid))
      ≡ (do s ← o; some (verdict (s && (c && (e && (p && (t && x)))))))
and_then-all none c e p t x = refl
and_then-all (some false) c e p t x = refl
and_then-all (some true) false e p t x = refl
and_then-all (some true) true false p t x = refl
and_then-all (some true) true true false t x = refl
and_then-all (some true) true true true false x = refl
and_then-all (some true) true true true true x = refl

-- Where the bytes hold a whole header, the tests on the bytes are those on the header.
pub validate_contents-header :
    (bytes : List ℕ) (header : ElfHeader)
    → IsHeader bytes header
    → validate_contents bytes ≡ elf_validate_loaded header
unfolding validate_contents elf_validate_loaded elf_valid_signature elf_valid_class
    elf_valid_encoding elf_is_executable elf_has_program_header memcmp word
validate_contents-header [] header h = let e = h.type in absurd (cc)
validate_contents-header (a ∷ []) header h = let e = h.type in absurd (cc)
validate_contents-header (a ∷ b ∷ []) header h = let e = h.type in absurd (cc)
validate_contents-header (a ∷ b ∷ c ∷ []) header h = let e = h.type in absurd (cc)
validate_contents-header (a ∷ b ∷ c ∷ d ∷ []) header h = let e = h.type in absurd (cc)
validate_contents-header (a ∷ b ∷ c ∷ d ∷ k ∷ []) header h = let e = h.type in absurd (cc)
validate_contents-header (a ∷ b ∷ c ∷ d ∷ k ∷ n ∷ rest) header h =
    rw (h.type, h.entry, h.phoff, ← h.ident)
      (and_then-all (elf_valid_signature (a ∷ b ∷ c ∷ d ∷ k ∷ n ∷ rest)) (k == 0 || k == 1)
        (n == 0 || n == 1) (not (header.e_phoff == 0)) (header.e_type == 2)
        (leb program_virtual_address header.e_entry))
