-- ===== src/Fat16/Sample.antt =====
-- A volume in a disk image: the table at sector 1, the root directory at sector 3 with the file
-- A.TXT, a deleted entry, the subdirectory D and the file B, and the data from sector 4 on. D has
-- the file C, and A.TXT begins with an executable.
use peachos.Base.{
  ℕ, zero, suc, ◌+◌, ◌-◌, ◌*◌, ◌%◌, ◌<◌, ◌≢◌, refl, arith, List, [], ◌∷◌, ◌++◌, replicate,
  if◌then◌else◌, ltb, leb, ◌&&◌,
}
use peachos.Disk.{Device}
use peachos.Disk.Drive.{drive_of, drive_of-IsAta}
use peachos.Disk.Sector.{IsAta, range}
use peachos.Fat16.Names.{field}
use peachos.Fat16.Items.{IsDirectoryAt}
use peachos.Fat16.Decode.{header_at}
use peachos.Fat16.Mount.{root_sector}
use peachos.Elf.Sample.{contents}

abbrev byte : List ℕ → ℕ → ℕ
byte [] i = 0
byte (c ∷ s) zero = c
byte (c ∷ s) (suc i) = byte s i

abbrev IsBytes : List ℕ → Type 0
IsBytes [] = Unit
IsBytes (c ∷ s) = (c < 256) × IsBytes s

byte-small : (s : List ℕ) (i : ℕ) → IsBytes s → byte s i < 256
byte-small [] i h = omega arith
byte-small (c ∷ s) zero h = h.0
byte-small (c ∷ s) (suc i) h = byte-small s i h.1

abbrev pub entry : List ℕ → List ℕ → ℕ → ℕ → List ℕ
entry name ext attribute cluster =
    field 8 name
    ++ (field 3 ext ++ ((attribute ∷ replicate 14 0) ++ (cluster ∷ 0 ∷ 88 ∷ 2 ∷ 0 ∷ 0 ∷ [])))

abbrev first_sector : List ℕ
first_sector =
    replicate 11 0
    ++ (0 ∷ 2 ∷ 1 ∷ 1 ∷ 0 ∷ 2 ∷ 16 ∷ 0 ∷ 100 ∷ 0 ∷ 0xF8 ∷ 1 ∷ 0 ∷ (replicate 14 0 ++ (0x29 ∷ [])))

abbrev table : List ℕ
table = 0xF8 ∷ 0xFF ∷ 0xFF ∷ 0xFF ∷ 3 ∷ 0 ∷ 0xFF ∷ 0xFF ∷ 0xFF ∷ 0xFF ∷ 0xFF ∷ 0xFF ∷ []

abbrev root : List ℕ
root =
    entry (b'A' ∷ []) (b'T' ∷ b'X' ∷ b'T' ∷ []) 0x20 2
    ++ (entry (0xE5 ∷ b'X' ∷ []) [] 0x20 0
        ++ (entry (b'D' ∷ []) [] 0x10 4 ++ entry (b'B' ∷ []) [] 0x20 5))

abbrev subdirectory : List ℕ
subdirectory = entry (b'C' ∷ []) [] 0x20 5

abbrev pub image : ℕ → ℕ
image p =
    if ltb p 512
    then byte first_sector p
    else if ltb p 1536
    then byte table (p - 512)
    else if ltb p 2048
    then byte root (p - 1536)
    else if leb 3072 p && ltb p 3584
    then byte subdirectory (p - 3072)
    else if leb 2048 p && ltb p 2132
    then byte (contents 2) (p - 2048)
    else p % 256

image-byte : (p : ℕ) → image p < 256
image-byte p = ground (
  arith,
  byte-small first_sector p (omega arith),
  byte-small table (p - 512) (omega arith),
  byte-small root (p - 1536) (omega arith),
  byte-small subdirectory (p - 3072) (omega arith),
  byte-small (contents 2) (p - 2048) (omega arith),
)

abbrev pub drive : Device
drive = drive_of image

pub drive-IsAta : IsAta drive image
drive-IsAta = drive_of-IsAta image image-byte

pub root-goes_on : (k : ℕ) → k < 4 → image (1536 + 32 * k) ≢ 0
root-goes_on zero h = omega arith
root-goes_on (suc zero) h = omega arith
root-goes_on (suc (suc zero)) h = omega arith
root-goes_on (suc (suc (suc zero))) h = omega arith
root-goes_on (suc (suc (suc (suc k)))) h = absurd (omega arith)

pub root-IsDirectoryAt : IsDirectoryAt image (root_sector (header_at image) * 512) 4
unfolding header_at range
root-IsDirectoryAt = record { ends = refl; goes_on = root-goes_on }
