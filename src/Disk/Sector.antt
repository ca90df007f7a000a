-- ===== src/Disk/Sector.antt =====
-- One sector read from a drive that answers as ATA drives do.
use peachos.Base.Bits.{passes_below, passes_below-at}
use peachos.Base.{
  ℕ, zero, suc, ◌+◌, ◌*◌, ◌/◌, ◌%◌, ◌^◌, ◌≤◌, ◌<◌, ◌≡◌, refl, ap, List, [], ◌∷◌, arith, length,
  append-nil, bit_or, ==_iff, ◌==◌, true,
}
use peachos.Disk.{Device, read_command, words_loop, sectors_loop, disk_read_sector, sector_size}

-- The bytes of a disk image from a position on.
unfoldable pub range : (ℕ → ℕ) → ℕ → ℕ → List ℕ
range image pos zero = []
range image pos (suc n) = image pos ∷ range image (pos + 1) n

-- A drive in LBA mode: for the sector address in the low 28 bits, one sector at a time, it
-- returns the bytes of its image in pairs.
pub record IsAta (dev : Device) (image : ℕ → ℕ) : Type 0 where
  pub byte : (pos : ℕ) → image pos < 256
  pub word :
      (lba i : ℕ)
      → lba < 2 ^ 28
      → i < 256
      → dev
          (record {
            select = 0xE0 + lba / 2 ^ 24;
            count = 1;
            low = lba % 256;
            mid = lba / 2 ^ 8 % 256;
            high = lba / 2 ^ 16 % 256;
          })
          0
          i
        ≡ image (lba * sector_size + 2 * i) + 256 * image (lba * sector_size + 2 * i + 1)

pub length-range : (image : ℕ → ℕ) (pos n : ℕ) → length (range image pos n) ≡ n
unfolding range
length-range image pos zero = refl
length-range image pos (suc n) = ap suc (length-range image (pos + 1) n)

module _ (image : ℕ → ℕ) (base : ℕ) (insw : ℕ → ℕ) (byte : (pos : ℕ) → image pos < 256)
    (word : (i : ℕ)
      → i < 256
      → insw i ≡ image (base + 2 * i) + 256 * image (base + 2 * i + 1)) where
  words_loop-range :
      (n i pos : ℕ)
      → i + n ≤ 256
      → pos ≡ base + 2 * i
      → words_loop n i insw ≡ range image pos (n + n)
  unfolding words_loop range
  words_loop-range zero i pos h e = refl
  words_loop-range (suc n) i pos h e =
      let d : suc n + suc n ≡ suc (suc (n + n)) = omega arith in
      let w : insw i ≡ image pos + 256 * image (pos + 1) = rw e (word i (omega arith)) in
      let low : insw i % 256 ≡ image pos = omega (arith, w, byte pos, byte (pos + 1)) in
      let high : insw i / 256 % 256 ≡ image (pos + 1) =
        omega (arith, w, byte pos, byte (pos + 1)) in
      let p : i + 1 + n ≤ 256 = omega arith in
      let q : pos + 1 + 1 ≡ base + 2 * (i + 1) = omega arith in
      rw (d, low, high)
        (ap (λ r. image pos ∷ (image (pos + 1) ∷ r)) (words_loop-range n (i + 1) (pos + 1 + 1) p q))

select_table : passes_below (λ x. bit_or x 0xE0 == 0xE0 + x) 16 ≡ true
unfolding passes_below
select_table = refl

select_lem : (x : ℕ) → x < 16 → bit_or x 0xE0 % 256 ≡ 0xE0 + x
select_lem x h =
    omega (arith, (==_iff (bit_or x 0xE0) (0xE0 + x)).0 (passes_below-at _ 16 x h select_table))

-- Reading one sector below the 28-bit limit puts the 512 bytes of the image at that sector into
-- the buffer.
pub disk_read_sector-range :
    (dev : Device) (image : ℕ → ℕ) (lba : ℕ)
    → IsAta dev image
    → lba < 2 ^ 28
    → disk_read_sector dev lba 1 ≡ range image (lba * sector_size) sector_size
unfolding disk_read_sector read_command sectors_loop
disk_read_sector-range dev image lba ata h =
    rw (append-nil, select_lem (lba / 2 ^ 24) (omega arith))
      (words_loop-range image (lba * sector_size) _ ata.byte (λ i b. ata.word lba i h b) 256 0
        (lba * sector_size) (omega arith) (omega arith))
