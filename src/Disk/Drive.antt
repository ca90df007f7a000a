-- ===== src/Disk/Drive.antt =====
-- A drive that answers from a disk image, as the tests use it.
use peachos.Base.{ℕ, ◌+◌, ◌*◌, ◌/◌, ◌%◌, ◌^◌, ◌<◌, ◌≡◌, arith}
use peachos.Disk.{Command, Device, sector_size}
use peachos.Disk.Sector.{IsAta}

-- The sector address of a command.
abbrev lba_of : Command → ℕ
lba_of c = (c.select % 16) * 2 ^ 24 + c.high * 2 ^ 16 + c.mid * 2 ^ 8 + c.low

abbrev pub drive_of : (ℕ → ℕ) → Device
drive_of image c b i =
    let pos = (lba_of c + b) * sector_size + 2 * i in image pos + 256 * image (pos + 1)

lba_lem :
    (lba : ℕ)
    → lba < 2 ^ 28
    → ((0xE0 + lba / 2 ^ 24) % 16) * 2 ^ 24
        + lba / 2 ^ 16 % 256 * 2 ^ 16
        + lba / 2 ^ 8 % 256 * 2 ^ 8
        + lba % 256
        + 0
      ≡ lba
lba_lem lba h = omega arith

pub drive_of-IsAta : (image : ℕ → ℕ) → ((pos : ℕ) → image pos < 256) → IsAta (drive_of image) image
drive_of-IsAta image byte = record { byte = byte; word = λ lba i h k. rw (lba_lem lba h) }
